-- ===== src/Phase1/Procs/Best.antt =====
-- The loop of `P1Dispatch` over the entries behind the head.
use small_os_simulator.Common.{
  ℕ, suc, ◌+◌, ◌≤◌, ◌<◌, ◌≡◌, refl, sym, subst, true, false, ◌⊎◌, inl, inr, List, [], ◌∷◌, arith,
  length, get_or, All, All-map, ltb, Bool-cases, ltb→lt,
}
use small_os_simulator.Phase1.Types.{Node, blank_node}
use small_os_simulator.Phase1.Procs.{best_from, highest_index}

abbrev pub AtLeast : ℕ → List Node → Type 0
AtLeast p = All (λ n. p ≤ n.priority)

abbrev priority_at : List Node → ℕ → ℕ
priority_at q k = (get_or q k blank_node).priority

-- Either nothing in the rest is better, or the result points at the best of the rest.
abbrev Found : ℕ → ℕ → ℕ → List Node → ℕ → Type 0
Found i best p q r =
    ((r ≡ best) × AtLeast p q)
    ⊎ ((k : ℕ) × (r ≡ i + k) × (k < length q) × (priority_at q k < p) × AtLeast (priority_at q k) q)

AtLeast-le : {p r : ℕ} (q : List Node) → r ≤ p → AtLeast p q → AtLeast r q
AtLeast-le q h = All-map q (λ n k. omega arith)

best_from-Found : (i best p : ℕ) (q : List Node) → Found i best p q (best_from i best p q)
unfolding best_from
best_from-Found i best p [] = inl (refl, tt)
best_from-Found i best p (n ∷ q) = elim (Bool-cases (ltb n.priority p)) [
  | inl e ↦ rw e (better e (best_from-Found (suc i) i n.priority q))
  | inr e ↦ rw e (same e (best_from-Found (suc i) best p q))
]
  where
    better :
        ltb n.priority p ≡ true
        → Found (suc i) i n.priority q (best_from (suc i) i n.priority q)
        → Found i best p (n ∷ q) (best_from (suc i) i n.priority q)
    better e (inl (h, a)) =
        inr (0, omega (arith, h), omega arith, ltb→lt n.priority p e, (omega arith, a))
    better e (inr (k, h, lt, less, a)) =
        inr
          (suc k, omega arith, omega arith, omega (arith, ltb→lt n.priority p e), (omega arith, a))

    same :
        ltb n.priority p ≡ false
        → Found (suc i) best p q (best_from (suc i) best p q)
        → Found i best p (n ∷ q) (best_from (suc i) best p q)
    same e (inl (h, a)) = inl (h, (ground arith, a))
    same e (inr (k, h, lt, less, a)) =
        inr (suc k, omega arith, omega arith, omega arith, (ground arith, a))

-- An index behind the head, such that none there has a smaller number.
abbrev pub IsBest : List Node → ℕ → Type 0
IsBest [] r = ⊥
IsBest (n ∷ q) r = (0 < r) × (r < suc (length q)) × AtLeast (priority_at (n ∷ q) r) q

Found-IsBest :
    (n m : Node) (q : List Node) (r : ℕ) → Found 2 1 m.priority q r → IsBest (n ∷ m ∷ q) r
Found-IsBest n m q r (inl (e, a)) =
    subst (IsBest (n ∷ m ∷ q)) (sym e) (omega arith, omega arith, (omega arith, a))
Found-IsBest n m q r (inr (k, e, lt, less, a)) =
    subst (IsBest (n ∷ m ∷ q)) {x = suc (suc k)} (omega arith)
      (omega arith, omega arith, (omega arith, a))

-- The loop finds such an index where the queue has two entries or more.
pub highest_index-IsBest :
    (n m : Node) (q : List Node) → IsBest (n ∷ m ∷ q) (highest_index (n ∷ m ∷ q))
unfolding highest_index
highest_index-IsBest n m q = Found-IsBest n m q _ (best_from-Found 2 1 m.priority q)
