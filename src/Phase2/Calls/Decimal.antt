-- ===== src/Phase2/Calls/Decimal.antt =====
-- The digits of a number give the number back.
use small_os_simulator.Common.{
  ℕ, zero, suc, ◌+◌, ◌-◌, ◌*◌, ◌/◌, ◌<◌, ◌≡◌, refl, [], ◌∷◌, ◌++◌, arith, ltb, Bool-cases, inl, inr,
}
use small_os_simulator.Phase1.Types.{Name}
use small_os_simulator.Phase2.Calls.{digits, decimal}

-- The number that ASCII digits stand for, behind a number that is read already.
abbrev value : ℕ → Name → ℕ
value seen [] = seen
value seen (d ∷ ds) = value (seen * 10 + (d - 48)) ds

value-append :
    (seen : ℕ) (ds : Name) (d : ℕ) → value seen (ds ++ d ∷ []) ≡ value seen ds * 10 + (d - 48)
value-append seen [] d = refl
value-append seen (e ∷ ds) d = value-append (seen * 10 + (e - 48)) ds d

-- With fuel above the number, the digits are all there.
value-digits : (fuel n : ℕ) → n < fuel → value 0 (digits fuel n) ≡ n
unfolding digits
value-digits zero n h = absurd (omega arith)
value-digits (suc fuel) n h = elim (Bool-cases (ltb n 10)) [
  | inl small ↦ rw small (ground arith)
  | inr big ↦
      let ih = value-digits fuel (n / 10) (ground arith) in
      rw (big, value-append, ih) (ground arith)
]

-- The digits that `%d` writes for a number are the number's.
pub value-decimal : (n : ℕ) → value 0 (decimal n) ≡ n
unfolding decimal
value-decimal n = value-digits (suc n) n (omega arith)
