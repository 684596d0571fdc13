-- ===== src/Phase1/Critical/Counts.antt =====
-- How many processes are at a place, after one of them has moved.
use small_os_simulator.Common.{
  ℕ, zero, suc, ◌+◌, ◌<◌, ◌≤◌, ◌≡◌, ◌≢◌, ◌⊎◌, inl, inr, refl, ap, arith, total,
}
use native.Mathlib.Decide.{ℕ_discrete}
use small_os_simulator.Phase1.Critical.{
  Place, outside, blocked, woken, inside, put, is_inside, is_woken,
}

module _ (f : ℕ → Place) (b : Place → ℕ) (q : ℕ) (p : Place) where
  total-put_out : (n : ℕ) → n ≤ q → total n (λ j. b (put f q p j)) ≡ total n (λ j. b (f j))
  unfolding total
  total-put_out zero h = refl
  total-put_out (suc n) h = ground (arith, total-put_out n)

  pub total-put :
      (n : ℕ) → q < n → total n (λ j. b (put f q p j)) + b (f q) ≡ total n (λ j. b (f j)) + b p
  unfolding total
  total-put zero h = absurd (omega arith)
  total-put (suc n) h = elim (ℕ_discrete q n) [
    | yes last ↦
        let same : b (f q) ≡ b (f n) = ap (λ k. b (f k)) last in
        ground (arith, total-put_out n, same, last)
    | no below ↦ ground (arith, total-put n)
  ]

is_inside_none : (p : Place) → p ≢ inside → is_inside p ≡ 0
is_inside_none outside ne = refl
is_inside_none blocked ne = refl
is_inside_none woken ne = refl
is_inside_none inside ne = absurd (ne refl)

woken-cases : (p : Place) → (p ≡ woken) ⊎ (is_woken p ≡ 0)
woken-cases outside = inr refl
woken-cases blocked = inr refl
woken-cases woken = inl refl
woken-cases inside = inr refl

module _ (f : ℕ → ℕ) where
  total-ge_one : (n q : ℕ) → q < n → f q ≤ total n f
  unfolding total
  total-ge_one zero q h = absurd (omega arith)
  total-ge_one (suc n) q h = elim (ℕ_discrete q n) [
    | yes last ↦ let same : f q ≡ f n = ap f last in omega (arith, same)
    | no below ↦ let rest = total-ge_one n q (ground arith) in omega (arith, rest)
  ]

  total-ge_two : (n q r : ℕ) → q < n → r < n → q ≢ r → f q + f r ≤ total n f
  unfolding total
  total-ge_two zero q r h h' ne = absurd (omega arith)
  total-ge_two (suc n) q r h h' ne = elim (ℕ_discrete q n) [
    | yes last ↦
        let same : f q ≡ f n = ap f last in
        let rest = total-ge_one n r (ground (arith, ne, last)) in omega (arith, same, rest)
    | no below ↦ elim (ℕ_discrete r n) [
      | yes last ↦
          let same : f r ≡ f n = ap f last in
          let rest = total-ge_one n q (ground arith) in omega (arith, same, rest)
      | no below' ↦
          let rest = total-ge_two n q r (ground arith) (ground arith) ne in omega (arith, rest)
    ]
  ]

  -- If the sum is at most 1, two terms of 1 are the same one.
  pub total_one : (n q r : ℕ) → total n f ≤ 1 → q < n → r < n → f q ≡ 1 → f r ≡ 1 → q ≡ r
  total_one n q r h lt lt' e e' = elim (ℕ_discrete q r) [
    | yes same ↦ same
    | no ne ↦ let two = total-ge_two n q r lt lt' ne in absurd (omega (arith, two))
  ]

module _ (f : ℕ → Place) where
  -- Where nobody is inside, the count is 0.
  pub total_none : (n : ℕ) → ((q : ℕ) → q < n → f q ≢ inside) → total n (λ j. is_inside (f j)) ≡ 0
  unfolding total
  total_none zero h = refl
  total_none (suc n) h =
      let rest = total_none n (λ q lt. h q (omega arith)) in
      let last = is_inside_none (f n) (h n (omega arith)) in omega (arith, rest, last)

  -- A count that is not 0 has a process.
  pub total-find : (n : ℕ) → 0 < total n (λ j. is_woken (f j)) → (r : ℕ) × (r < n) × (f r ≡ woken)
  unfolding total
  total-find zero h = absurd (omega arith)
  total-find (suc n) h = elim (woken-cases (f n)) [
    | inl at ↦ (n, omega arith, at)
    | inr none ↦
        let (r, lt, at) = total-find n (omega (arith, h, none)) in (r, omega (arith, lt), at)
  ]
