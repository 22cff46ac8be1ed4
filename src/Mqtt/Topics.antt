-- ===== src/Mqtt/Topics.antt =====
-- The topics that internal/adapter/mqtt/publisher.go tracks. A time is a number. The order in which
-- the map is walked is that of its entries; of topics with one time, the first is taken first.
use protocol_gateway.Prelude.{
  ℕ, suc, ◌+◌, ◌<◌, ◌≤◌, ◌≡◌, refl, Bool, true, false, ◌||◌, String, str_eq, eq_iff, List, [], ◌∷◌,
  map, none, some, Option-cases, length, take, ltb, leb, if◌then◌else◌, arith, All, All-map_impl,
  Bool-cases, inl, inr, ◌/◌,
}
use protocol_gateway.Prelude.Sorting.{sort_by, All-sort_by, length-sort_by}
use protocol_gateway.Prelude.Dict.{lookup, insert, delete}

pub record TopicStat : Type 0 where
  pub topic : String
  pub count : ℕ
  pub last_published : ℕ
  pub last_payload_bytes : ℕ

abbrev younger : String × TopicStat → String × TopicStat → Bool
younger a b = ltb b.1.last_published a.1.last_published

abbrev older : String × TopicStat → String × TopicStat → Bool
older a b = ltb a.1.last_published b.1.last_published

-- ActiveTopics.
unfoldable pub active_topics : ℕ → List (String × TopicStat) → List TopicStat
active_topics limit stats =
    take (if leb limit 0 then 200 else limit) (map (λ e. e.1) (sort_by younger stats))

delete_all : List (String × TopicStat) → List (String × TopicStat) → List (String × TopicStat)
delete_all [] stats = stats
delete_all (e ∷ rest) stats = delete_all rest (delete e.0 stats)

-- evictOldestTopicsLocked: `take` stops at the end of the list, as the source's bound on count does.
unfoldable pub evict_oldest_topics : ℕ → List (String × TopicStat) → List (String × TopicStat)
unfolding delete_all
evict_oldest_topics count stats = delete_all (take count (sort_by older stats)) stats

abbrev pub max_tracked_topics : ℕ
max_tracked_topics = 10000

-- recordTopicPublish.
unfoldable pub record_topic_publish :
    String → ℕ → ℕ → List (String × TopicStat) → List (String × TopicStat)
unfolding evict_oldest_topics
record_topic_publish topic bytes now stats = elim (lookup topic stats) [
  | some s ↦
      insert topic
        (record s { count = s.count + 1; last_published = now; last_payload_bytes = bytes }) stats
  | none ↦
      insert topic
        (record { topic = topic; count = 1; last_published = now; last_payload_bytes = bytes })
        (if leb max_tracked_topics (length stats)
          then evict_oldest_topics (max_tracked_topics / 10) stats
          else stats)
]

-- The key has an entry.
abbrev present : String → List (String × TopicStat) → Bool
present key [] = false
present key ((held, s) ∷ rest) = str_eq held key || present key rest

All-present : (es : List (String × TopicStat)) → All (λ e. present e.0 es ≡ true) es
All-present [] = tt
All-present ((k, s) ∷ rest) = (
  grind (arith, eq_iff),
  All-map_impl _ _ rest (λ e h. grind (arith, eq_iff, h)) (All-present rest),
)

length-delete_le :
    (key : String) (es : List (String × TopicStat)) → length (delete key es) ≤ length es
unfolding delete
length-delete_le key [] = omega arith
length-delete_le key ((held, s) ∷ rest) = ground (arith, length-delete_le key rest)

length-delete :
    (key : String) (es : List (String × TopicStat))
    → present key es ≡ true
    → length (delete key es) < length es
unfolding delete
length-delete key [] h = cc
length-delete key ((held, s) ∷ rest) h = elim (Bool-cases (str_eq held key)) [
  | inl b ↦ rw b (omega (arith, length-delete_le key rest))
  | inr b ↦ rw b (omega (arith, length-delete key rest (rw b at h)))
]

length-delete_all : (ks es : List (String × TopicStat)) → length (delete_all ks es) ≤ length es
unfolding delete_all
length-delete_all [] es = omega arith
length-delete_all (k ∷ ks) es =
    omega (arith, length-delete_all ks (delete k.0 es), length-delete_le k.0 es)

length-insert :
    (key : String) (s : TopicStat) (es : List (String × TopicStat))
    → length (insert key s es) ≤ length es + 1
unfolding insert
length-insert key s [] = omega arith
length-insert key s ((held, t) ∷ rest) = ground (arith, length-insert key s rest)

length-insert_known :
    (key : String) (s t : TopicStat) (es : List (String × TopicStat))
    → lookup key es ≡ some t
    → length (insert key s es) ≡ length es
unfolding insert lookup
length-insert_known key s t [] h = cc
length-insert_known key s t ((held, u) ∷ rest) h = elim (Bool-cases (str_eq held key)) [
  | inl b ↦ rw b refl
  | inr b ↦ rw b (omega (arith, length-insert_known key s t rest (rw b at h)))
]

-- An eviction removes one entry at least: the first of the sorted list.
length-delete_all_taken :
    (n : ℕ) (ks es : List (String × TopicStat))
    → 0 < length ks
    → All (λ e. present e.0 es ≡ true) ks
    → length (delete_all (take (suc n) ks) es) < length es
unfolding delete_all
length-delete_all_taken n [] es h ps = absurd (omega (arith, h))
length-delete_all_taken n (k ∷ ks) es h (p, ps) =
    omega (arith, length-delete_all (take n ks) (delete k.0 es), length-delete k.0 es p)

length-evict_oldest_topics :
    (n : ℕ) (es : List (String × TopicStat))
    → 0 < length es
    → length (evict_oldest_topics (suc n) es) < length es
unfolding evict_oldest_topics
length-evict_oldest_topics n es h =
    length-delete_all_taken n (sort_by older es) es (omega (arith, length-sort_by older es))
      (All-sort_by older _ es (All-present es))

-- At most 10000 topics are tracked.
pub length-record_topic_publish :
    (topic : String) (bytes now : ℕ) (es : List (String × TopicStat))
    → length es ≤ max_tracked_topics
    → length (record_topic_publish topic bytes now es) ≤ max_tracked_topics
unfolding record_topic_publish
length-record_topic_publish topic bytes now es h = elim (Option-cases (lookup topic es)) [
  | inl n ↦ elim (Bool-cases (leb max_tracked_topics (length es))) [
    | inl b ↦
        rw (record_topic_publish, n, b)
          (let made : TopicStat = record {
            topic = topic;
            count = 1;
            last_published = now;
            last_payload_bytes = bytes;
          } in
            ground (
              arith,
              length-insert topic made (evict_oldest_topics 1000 es),
              length-evict_oldest_topics 999 es (ground (arith, b)),
            ))
    | inr b ↦
        rw (record_topic_publish, n, b)
          (let made : TopicStat = record {
            topic = topic;
            count = 1;
            last_published = now;
            last_payload_bytes = bytes;
          } in
            ground (arith, b, length-insert topic made es))
  ]
  | inr (s, n) ↦
      rw (record_topic_publish, n)
        (omega (
          arith,
          length-insert_known topic
              (record s { count = s.count + 1; last_published = now; last_payload_bytes = bytes }) s
              es n,
        ))
]
