-- ===== src/Service/Starting/Fallback.antt =====
-- What becomes of a subscription that fails in internal/service/polling.go.
use protocol_gateway.Prelude.{
  ◌∙◌, subst, either_branch, if◌then◌else◌, ℕ, zero, suc, ◌+◌, ◌<◌, ◌≡◌, refl, Bool, true, false,
  Option, none, some, arith,
}
use protocol_gateway.Service.Polling.{get_enabled_tags}
use protocol_gateway.Service.Starting.{Reader, wants_subscription, has_tags, start_device_poller}

-- A device with a tag that is to be read by a subscription, and is not read yet.
pub record ToSubscribe (has_handler : Bool) (r : Reader) : Type 0 where
  pub idle : r.running ≡ false
  pub wanted : wants_subscription has_handler r.device ≡ true
  pub tagged : has_tags (get_enabled_tags r.device.tags) ≡ true

module _ (subscribe : ℕ → Bool) (has_handler : Bool) where
  -- One call: the answer decides.
  start_device_poller-answer :
      (fuel k : ℕ) (r : Reader)
      → ToSubscribe has_handler r
      → start_device_poller subscribe has_handler (suc fuel) k r ≡ (
          if subscribe k
          then some (record r { subscribed = true; running = true })
          else start_device_poller subscribe has_handler fuel
              (k + 1)
              (record r { subscribed = false; running = false }))
  unfolding start_device_poller
  start_device_poller-answer fuel k r t =
      let answer : Option Reader =
        if subscribe k
        then some (record r { subscribed = true; running = true })
        else start_device_poller subscribe has_handler fuel (k + 1)
            (record r { subscribed = false; running = false }) in
      either_branch (λ (o : Option Reader). o ≡ answer) r.running (λ e. cc (t.idle, e))
        (λ e.
          either_branch (λ (o : Option Reader). o ≡ answer)
            (wants_subscription has_handler r.device)
            (λ e.
              either_branch (λ (o : Option Reader). o ≡ answer)
                (has_tags (get_enabled_tags r.device.tags)) (λ e. refl) (λ e. cc (t.tagged, e)))
            (λ e. cc (t.wanted, e)))

  -- Where a device is to be read by a subscription: the call returns as soon as the handler accepts,
  -- with the device subscribed and no polling loop; and however often the calls are repeated, it has
  -- not returned while the handler has refused, so that it never falls back to polling.
  pub start_device_poller-refusals :
      (refusals k : ℕ) (r : Reader)
      → ToSubscribe has_handler r
      → ((i : ℕ) → i < refusals → subscribe (k + i) ≡ false)
      → (start_device_poller subscribe has_handler refusals k r ≡ none)
        × (subscribe (k + refusals) ≡ true
            → start_device_poller subscribe has_handler (suc refusals) k r
              ≡ some (record r { subscribed = true; running = true }))
  unfolding start_device_poller
  start_device_poller-refusals zero k r t refused = (
    refl,
    λ accepted.
        start_device_poller-answer zero k r t
        ∙ (let first : subscribe k ≡ true =
              subst (λ j. subscribe j ≡ true) (omega arith) accepted in
            rw first refl),
  )
  start_device_poller-refusals (suc n) k r t refused =
      let (not_yet, at_last) =
        start_device_poller-refusals n (k + 1) (record r { subscribed = false; running = false })
          (record { idle = refl; wanted = t.wanted; tagged = t.tagged })
          (λ i h.
            subst (λ j. subscribe j ≡ false) (omega arith) (refused (suc i) (omega (arith, h)))) in
      let now : subscribe k ≡ false =
        subst (λ j. subscribe j ≡ false) (omega arith) (refused 0 (omega arith)) in
      (
        start_device_poller-answer n k r t ∙ rw now not_yet,
        λ accepted.
            start_device_poller-answer (suc n) k r t
            ∙ rw now (at_last (subst (λ j. subscribe j ≡ true) (omega arith) accepted)),
      )
