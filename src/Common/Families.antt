-- ===== src/Common/Families.antt =====
-- Families over ℕ with a change in one place, and their sums.
use gridappsd_go.Common.{
  ℕ, zero, suc, ◌+◌, ◌*◌, ◌≤◌, ◌<◌, ite, if_pos, if_neg, ℕ_discrete, ◌≡◌, ◌≢◌, refl, ◌⊎◌, inl, inr,
  arith, ap,
}

abbrev pub update {ℓ} : {A : Type ℓ} → (ℕ → A) → ℕ → A → ℕ → A
update f i a j = ite (ℕ_discrete i j) a (f j)

-- A function that is changed at one number.
pub update_rule {ℓ κ} :
    {A : Type ℓ} (P : A → Type κ) (f : ℕ → A) (i j : ℕ) (a : A)
    → (i ≡ j → P a)
    → (i ≢ j → P (f j))
    → P (update f i a j)
update_rule P f i j a here there = elim (ℕ_discrete i j) [
  | yes same ↦ rw (if_pos _ same) (here same)
  | no other ↦ rw (if_neg _ other) (there other)
]

abbrev pub total : ℕ → (ℕ → ℕ) → ℕ
total zero f = 0
total (suc n) f = f n + total n f

pub total-le : (n k : ℕ) (f : ℕ → ℕ) → ((i : ℕ) → f i ≤ k) → total n f ≤ k * n
total-le zero k f h = omega arith
total-le (suc n) k f h = grind (arith, total-le n k f h, h n)

-- A change in one place changes the sum by as much.
pub total_change :
    (n i : ℕ) (f g : ℕ → ℕ)
    → ((j : ℕ) → j ≢ i → g j ≡ f j)
    → ((n ≤ i) × (total n g ≡ total n f)) ⊎ ((i < n) × (total n g + f i ≡ total n f + g i))
total_change zero i f g keeps = inl (omega arith, refl)
total_change (suc n) i f g keeps = elim (ℕ_discrete n i) [
  | yes same ↦ elim (total_change n i f g keeps) [
    | inl (h, e) ↦ inr (omega arith, omega (arith, e, ap f same, ap g same))
    | inr (h, e) ↦ absurd (omega arith)
  ]
  | no other ↦ elim (total_change n i f g keeps) [
    | inl (h, e) ↦ inl (omega arith, omega (arith, e, keeps n other))
    | inr (h, e) ↦ inr (omega arith, omega (arith, e, keeps n other))
  ]
]

-- A sum that is not zero has a term that is not.
pub total-nonzero : (n : ℕ) (f : ℕ → ℕ) → total n f ≢ 0 → (i : ℕ) × (i < n) × (f i ≢ 0)
total-nonzero zero f h = absurd (h refl)
total-nonzero (suc n) f h = elim (ℕ_discrete (f n) 0) [
  | no nonzero ↦ (n, omega arith, nonzero)
  | yes e ↦
      let (i, lt, nonzero) = total-nonzero n f (λ z. h (omega arith)) in (i, omega arith, nonzero)
]

pub total-term : (n i : ℕ) (f : ℕ → ℕ) → i < n → f i ≤ total n f
total-term zero i f lt = absurd (omega arith)
total-term (suc n) i f lt = elim (ℕ_discrete i n) [
  | yes same ↦ omega (arith, ap f same)
  | no other ↦ omega (arith, total-term n i f (omega arith))
]
