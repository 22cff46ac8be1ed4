-- ===== src/Service/Polling/Counters.antt =====
-- The polls of internal/service/polling.go that run beside each other, and their counters.
use protocol_gateway.Prelude.{
  ℕ, ◌+◌, ◌≤◌, ◌<◌, ◌≡◌, subst, some_inj, Bool, true, not, ◌&&◌, String, List, [], ◌∷◌, Option,
  some, Option-cases, inl, inr, length, length-append, ltb, All, All-append, either_branch, arith,
}
use protocol_gateway.Domain.Errors.{Error, Result, ok, err, panic}
use protocol_gateway.Domain.Tag.{Tag}
use protocol_gateway.Domain.DataPoint.{DataPoint}
use protocol_gateway.Domain.Manager.{route_read_tags}
use protocol_gateway.Service.Polling.{
  PollingService, DevicePoller, Runes, Around, new_polling_service, is_good, good_points,
  begin_poll, fail_poll, published_count, pass_poll, conclude_poll, poll_with, finish_poll,
  get_enabled_tags, tags_by_id, on_data,
}

-- One step of one of the devices: a poll gets its worker or not, a poll with a worker ends, or a
-- server pushes a point.
pub data Step : PollingService → PollingService → Type 0 where
  begun :
      {s : PollingService} (cancelled done_first : Bool) (dp : DevicePoller)
      → Step s (begin_poll cancelled done_first dp s).0
  ended :
      {s : PollingService} (w : Around) (dp : DevicePoller) (r : PollingService × DevicePoller)
      → 0 < s.busy
      → finish_poll w dp s ≡ some r
      → Step s r.0
  pushed :
      {s : PollingService} (answer : Option Error) (p : DataPoint) (dp : DevicePoller)
      → Step s (on_data answer p dp s).0

pub data Reachable : PollingService → Type 0 where
  created : (workers : ℕ) → Reachable (new_polling_service workers)
  then : {s t : PollingService} → Reachable s → Step s t → Reachable t

abbrev Good : DataPoint → Type 0
Good p = is_good p.quality ≡ true

pub record Polled (s : PollingService) : Type 0 where
  pub bounded : s.busy ≤ s.worker_count
  pub counted : s.stats.success_polls + s.stats.failed_polls + s.busy ≤ s.stats.total_polls
  pub published : s.stats.points_published ≤ length s.handed
  pub read : length s.handed ≤ s.stats.points_read
  pub good : All Good s.handed

-- The service of a result.
abbrev PolledAfter : PollingService × DevicePoller × Bool → Type 0
PolledAfter r = Polled r.0

abbrev PolledPair : PollingService × DevicePoller → Type 0
PolledPair r = Polled r.0

begin_poll-Polled :
    (cancelled done_first : Bool) (dp : DevicePoller) (s : PollingService)
    → Polled s
    → Polled (begin_poll cancelled done_first dp s).0
unfolding begin_poll
begin_poll-Polled cancelled done_first dp s h =
    either_branch PolledAfter (ltb s.busy s.worker_count && not (cancelled && done_first))
      (λ e. record {
        bounded = ground (arith, e);
        counted = omega (arith, h.counted);
        published = h.published;
        read = h.read;
        good = h.good;
      })
      (λ e.
        either_branch PolledAfter cancelled (λ c. h)
          (λ c. record {
            bounded = h.bounded;
            counted = h.counted;
            published = h.published;
            read = h.read;
            good = h.good;
          }))

good_points-Good :
    (r : Runes) (prefix : String) (tags : List (String × Tag)) (ps : List DataPoint)
    → All Good (good_points r prefix tags ps)
unfolding good_points
good_points-Good r prefix tags [] = tt
good_points-Good r prefix tags (p ∷ ps) =
    either_branch (All Good) (is_good p.quality) (λ e. (e, good_points-Good r prefix tags ps))
      (λ e. good_points-Good r prefix tags ps)

length-good_points :
    (r : Runes) (prefix : String) (tags : List (String × Tag)) (ps : List DataPoint)
    → length (good_points r prefix tags ps) ≤ length ps
unfolding good_points
length-good_points r prefix tags [] = omega arith
length-good_points r prefix tags (p ∷ ps) =
    either_branch (λ (qs : List DataPoint). length qs ≤ length (p ∷ ps)) (is_good p.quality)
      (λ e. omega (arith, length-good_points r prefix tags ps))
      (λ e. omega (arith, length-good_points r prefix tags ps))

published_count_le :
    (publish : List DataPoint → Option Error) (ps : List DataPoint)
    → published_count publish ps ≤ length ps
unfolding published_count
published_count_le publish [] = omega arith
published_count_le publish (p ∷ ps) = elim (Option-cases (publish (p ∷ ps))) [
  | inl n ↦ rw (published_count, n) (omega arith)
  | inr (e, n) ↦ rw (published_count, n) (omega arith)
]

module _ (w : Around) (dp : DevicePoller) (s : PollingService) (held : 0 < s.busy)
    (h : Polled s) where
  pass_poll-Polled :
      (tags : List (String × Tag)) (ps : List DataPoint) → Polled (pass_poll w tags ps dp s).0
  unfolding pass_poll
  pass_poll-Polled tags ps =
      let good = good_points w.runes dp.device.uns_prefix tags ps in
      let few = length-good_points w.runes dp.device.uns_prefix tags ps in
      let grown = length-append s.handed good in
      record {
        bounded = omega (arith, h.bounded);
        counted = omega (arith, h.counted, held);
        published = omega (arith, h.published, grown, published_count_le w.publish good);
        read = omega (arith, h.read, grown, few);
        good =
            All-append Good s.handed good h.good
              (good_points-Good w.runes dp.device.uns_prefix tags ps);
      }

  fail_poll-Polled : (e : Error) → Polled (fail_poll e dp s).0
  unfolding fail_poll
  fail_poll-Polled e = record {
    bounded = omega (arith, h.bounded);
    counted = ground (arith, h.counted, held);
    published = h.published;
    read = h.read;
    good = h.good;
  }

  conclude_poll-Polled :
      (tags : List (String × Tag)) (out : Result (List DataPoint))
      (r : PollingService × DevicePoller)
      → conclude_poll w tags out dp s ≡ some r
      → Polled r.0
  unfolding conclude_poll
  conclude_poll-Polled tags (ok ps) r e = subst PolledPair (some_inj e) (pass_poll-Polled tags ps)
  conclude_poll-Polled tags (err x) r e = subst PolledPair (some_inj e) (fail_poll-Polled x)
  conclude_poll-Polled tags panic r e = cc

  poll_with-Polled :
      (ts : List Tag) (r : PollingService × DevicePoller)
      → poll_with w ts dp s ≡ some r
      → Polled r.0
  unfolding poll_with
  poll_with-Polled [] r e = subst PolledPair (some_inj e) (record {
    bounded = omega (arith, h.bounded);
    counted = omega (arith, h.counted, held);
    published = h.published;
    read = h.read;
    good = h.good;
  })
  poll_with-Polled (t ∷ ts) r e =
      conclude_poll-Polled (tags_by_id (t ∷ ts) []) (route_read_tags w.manager dp.device (t ∷ ts)) r
        e

on_data-Polled :
    (answer : Option Error) (p : DataPoint) (dp : DevicePoller) (s : PollingService)
    → Polled s
    → Polled (on_data answer p dp s).0
unfolding on_data
on_data-Polled answer p dp s h =
    let grown = length-append s.handed (p ∷ []) in
    record {
      bounded = h.bounded;
      counted = h.counted;
      published = ground (arith, h.published, grown, Option-cases answer);
      read = ground (arith, h.read, grown);
      good =
          either_branch (All Good) (is_good p.quality)
            (λ e. All-append Good s.handed (p ∷ []) h.good (e, tt)) (λ e. h.good);
    }

Step-Polled : {s t : PollingService} → Polled s → Step s t → Polled t
unfolding finish_poll
Step-Polled {s} h (Step.begun cancelled done_first dp) =
    begin_poll-Polled cancelled done_first dp s h
Step-Polled {s} h (Step.ended w dp r held e) =
    poll_with-Polled w dp s held h (get_enabled_tags dp.device.tags) r e
Step-Polled {s} h (Step.pushed answer p dp) = on_data-Polled answer p dp s h

-- In every state that polls and pushes of any devices reach: no more polls run than there are
-- workers; the polls that succeeded, failed or run are no more than all polls; the publisher was
-- given points of good quality only, no more than were read, and no more are counted as published
-- than it was given.
pub Reachable-Polled : {s : PollingService} → Reachable s → Polled s
unfolding new_polling_service
Reachable-Polled (Reachable.created workers) = record {
  bounded = omega arith;
  counted = omega arith;
  published = omega arith;
  read = omega arith;
  good = tt;
}
Reachable-Polled (Reachable.then r s) = Step-Polled (Reachable-Polled r) s
