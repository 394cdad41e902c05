-- ===== src/Topics/Normal.antt =====
-- What the queue-prepend rule of topics/topics.go guarantees.
use gridappsd_go.Common.{
  Bytes, Bool, true, codes, Bool-cases, has_prefix-split, inl, inr, ◌≡◌, ◌⊎◌, ◌||◌, ◌++◌,
  has_prefix, has_prefix-append, arith,
}
use gridappsd_go.Topics.{normalize_destination, topic_prefix, queue_prefix, temp_queue_prefix}

abbrev pub is_qualified : Bytes → Bool
is_qualified d =
    has_prefix d topic_prefix || has_prefix d queue_prefix || has_prefix d temp_queue_prefix

normalize_destination_qualified : (d : Bytes) → is_qualified (normalize_destination d) ≡ true
unfolding normalize_destination
normalize_destination_qualified d = ground (arith, has_prefix-append queue_prefix d)

-- A normalized destination starts with one of the three prefixes, and normalizing it again changes
-- nothing.
pub normalize_destination_idem :
    (d : Bytes)
    → (is_qualified (normalize_destination d) ≡ true)
      × (normalize_destination (normalize_destination d) ≡ normalize_destination d)
unfolding normalize_destination
normalize_destination_idem d =
    (normalize_destination_qualified d, ground (arith, normalize_destination_qualified d))

-- Two destinations are normalized alike only if they are the same, or one is the other behind
-- "/queue/".
normalize_destination_eq :
    (a b : Bytes)
    → normalize_destination a ≡ normalize_destination b
    → (a ≡ b) ⊎ (a ≡ queue_prefix ++ b) ⊎ (b ≡ queue_prefix ++ a)
unfolding normalize_destination
normalize_destination_eq a b h = ground arith

-- A destination that names its kind: a text behind one of the three prefixes.
abbrev pub Qualified : Bytes → Type 0
Qualified d =
    (rest : Bytes) × ((d ≡ codes "/topic/" ++ rest)
      ⊎ (d ≡ codes "/queue/" ++ rest)
      ⊎ (d ≡ codes "/temp-queue/" ++ rest))

is_qualified-Qualified : (d : Bytes) → is_qualified d ≡ true → Qualified d
is_qualified-Qualified d h = elim (Bool-cases (has_prefix d topic_prefix)) [
  | inl e ↦ let (rest, q) = has_prefix-split d topic_prefix e in (rest, inl q)
  | inr e ↦ elim (Bool-cases (has_prefix d queue_prefix)) [
    | inl e' ↦ let (rest, q) = has_prefix-split d queue_prefix e' in (rest, inr (inl q))
    | inr e' ↦
        let (rest, q) = has_prefix-split d temp_queue_prefix (ground arith) in (rest, inr (inr q))
  ]
]

Qualified-is_qualified : (d : Bytes) → Qualified d → is_qualified d ≡ true
Qualified-is_qualified d (rest, inl e) = ground (arith, has_prefix-append topic_prefix rest)
Qualified-is_qualified d (rest, inr (inl e)) = ground (arith, has_prefix-append queue_prefix rest)
Qualified-is_qualified d (rest, inr (inr e)) =
    ground (arith, has_prefix-append temp_queue_prefix rest)

-- A destination is left alone if it is a text behind "/topic/", "/queue/" or "/temp-queue/"; any
-- other is put behind "/queue/". Normalizing it again changes nothing.
pub normalize_destination_lem :
    (d : Bytes)
    → ((Qualified d × (normalize_destination d ≡ d))
        ⊎ ((¬ Qualified d) × (normalize_destination d ≡ codes "/queue/" ++ d)))
      × (normalize_destination (normalize_destination d) ≡ normalize_destination d)
normalize_destination_lem d = (
  elim (Bool-cases (is_qualified d)) [
    | inl e ↦ inl (is_qualified-Qualified d e, (unfold normalize_destination in ground arith))
    | inr e ↦ inr (
      (λ q. ground (arith, Qualified-is_qualified d q, e)),
      (unfold normalize_destination in ground arith),
    )
  ],
  (normalize_destination_idem d).1,
)
