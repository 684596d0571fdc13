-- ===== src/Phase1/Critical/Guard.antt =====
-- The value and the waiting list of the semaphore against the places of the processes.
use small_os_simulator.Common.{
  ℕ, suc, ◌+◌, ◌-◌, ◌%◌, ◌^◌, ◌<◌, ◌≤◌, ◌≡◌, ◌≢◌, ◌⊎◌, inl, inr, refl, sym, ◌∙◌, ap, subst, true,
  List, [], ◌∷◌, ◌++◌, arith, total, All, All-map, All-append, ◌==◌, ℤ, pos, Bool-cases, ==→ne,
  ne→==, ==_refl,
}
use native.Mathlib.Decide.{ℕ_discrete}
use small_os_simulator.Phase1.Sems.{Sem, insert}
use small_os_simulator.Phase1.Sems.Laws.{insert_lem}
use small_os_simulator.Phase1.Critical.{
  Place, outside, blocked, woken, inside, put, is_inside, is_woken,
}
use small_os_simulator.Phase1.Critical.Counts.{total-put}

-- The entry of the waiting list is a process at the place blocked.
abbrev pub Waiter : ℕ → (ℕ → Place) → ℤ → Type 0
Waiter n f y = (r : ℕ) × (y ≡ pos r) × (r < n) × (f r ≡ blocked)

abbrev pub In : ℕ → List ℤ → Type 0
In r [] = ⊥
In r (y ∷ ys) = (y ≡ pos r) ⊎ In r ys

-- Of `n` processes, those inside and the value of the semaphore make up `size`; the waiting list holds
-- the processes that are blocked; and while somebody waits, there are as many woken processes as the
-- value lets in, or more.
pub record Guards (n size : ℕ) (x : Sem) (f : ℕ → Place) : Type 0 where
  pub used : x.is_being_used ≡ true
  pub balance : x.value + total n (λ j. is_inside (f j)) ≡ size
  pub queued : All (Waiter n f) x.head
  pub parked : (r : ℕ) → f r ≡ blocked → In r x.head
  pub awake : x.head ≢ [] → x.value ≤ total n (λ j. is_woken (f j))

pub put_ne : (f : ℕ → Place) (q : ℕ) (p : Place) (r : ℕ) → q ≢ r → put f q p r ≡ f r
put_ne f q p r ne = rw (ne→== q r ne) refl

-- A process that is not blocked moves; the waiters stay.
pub Waiter-put :
    (n : ℕ) (f : ℕ → Place) (q : ℕ) (p : Place)
    → f q ≢ blocked
    → (y : ℤ) → Waiter n f y
    → Waiter n (put f q p) y
Waiter-put n f q p free y (r, e, lt, at) =
    (r, e, lt, put_ne f q p r (λ same. free (ap f same ∙ at)) ∙ at)

-- A process that moves to another place than blocked is not among the blocked.
pub blocked_before :
    (f : ℕ → Place) (q : ℕ) (p : Place) (r : ℕ)
    → p ≢ blocked
    → put f q p r ≡ blocked
    → (q ≢ r) × (f r ≡ blocked)
blocked_before f q p r ne at = elim (Bool-cases (q == r)) [
  | inl e ↦ let at' : p ≡ blocked = rw e at at in absurd (ne at')
  | inr e ↦ (==→ne q r e, rw e at at)
]

In-append : (r : ℕ) (xs : List ℤ) (y : ℤ) → In r xs → In r (xs ++ y ∷ [])
In-append r [] y h = absurd h
In-append r (x ∷ xs) y (inl e) = inl e
In-append r (x ∷ xs) y (inr h) = inr (In-append r xs y h)

In-last : (r : ℕ) (xs : List ℤ) → In r (xs ++ pos r ∷ [])
In-last r [] = inl refl
In-last r (x ∷ xs) = inr (In-last r xs)

module _ (n size : ℕ) (x : Sem) (f : ℕ → Place) (g : Guards n size x f) (q : ℕ) (lt : q < n) where
  -- The process returns from `P1_P`.
  pub pass-Guards :
      0 < x.value
      → (f q ≡ outside) ⊎ (f q ≡ woken)
      → Guards n size (record x { value = x.value - 1 }) (put f q inside)
  pass-Guards some_value at =
      let free : f q ≢ blocked = λ e. elim at [ inl o ↦ cc (o, e) | inr o ↦ cc (o, e) ] in
      let ins : is_inside (f q) ≡ 0 = elim at [ inl o ↦ ap is_inside o | inr o ↦ ap is_inside o ] in
      let wok : is_woken (f q) ≤ 1 = elim at [
        | inl o ↦ rw o (omega arith)
        | inr o ↦ rw o (omega arith)
      ] in
      let counts = total-put f is_inside q inside n lt in
      let wakes = total-put f is_woken q inside n lt in
      record {
        used = g.used;
        balance = omega (arith, g.balance, counts, ins);
        queued = All-map x.head (Waiter-put n f q inside free) g.queued;
        parked = λ r e. g.parked r (blocked_before f q inside r (λ h. cc) e).1;
        awake = λ ne. let old = g.awake ne in omega (arith, old, wakes, wok);
      }

  -- The process is blocked.
  pub block-Guards :
      x.value ≡ 0
      → (f q ≡ outside) ⊎ (f q ≡ woken)
      → Guards n size (record x { head = insert (pos q) x.head }) (put f q blocked)
  block-Guards none at =
      let free : f q ≢ blocked = λ e. elim at [ inl o ↦ cc (o, e) | inr o ↦ cc (o, e) ] in
      let ins : is_inside (f q) ≡ 0 = elim at [ inl o ↦ ap is_inside o | inr o ↦ ap is_inside o ] in
      let counts = total-put f is_inside q blocked n lt in
      record {
        used = g.used;
        balance = omega (arith, g.balance, counts, ins);
        queued = rw insert_lem (
            All-append (Waiter n (put f q blocked)) x.head (pos q ∷ [])
              (All-map x.head (Waiter-put n f q blocked free) g.queued)
              ((q, refl, lt, rw (==_refl q) refl), tt));
        parked = λ r e. rw insert_lem (elim (ℕ_discrete q r) [
          | yes same ↦ subst (λ k. In k (x.head ++ pos q ∷ [])) same (In-last q x.head)
          | no ne ↦ In-append r x.head (pos q) (g.parked r (sym (put_ne f q blocked r ne) ∙ e))
        ]);
        awake = λ ne. rw none (omega arith);
      }

  -- The process calls `P1_V`, and nobody waits.
  pub leave-Guards :
      f q ≡ inside
      → size < 2 ^ 32
      → x.head ≡ []
      → Guards n size (record x { value = (x.value + 1) % 2 ^ 32 }) (put f q outside)
  leave-Guards at small none =
      let counts = total-put f is_inside q outside n lt in
      let ins : is_inside (f q) ≡ 1 = ap is_inside at in
      record {
        used = g.used;
        balance = omega (arith, g.balance, counts, ins);
        queued = rw none tt;
        parked = λ r e. g.parked r (blocked_before f q outside r (λ h. cc) e).1;
        awake = λ ne. absurd (ne none);
      }

module _ (n : ℕ) (f : ℕ → Place) (r : ℕ) where
  -- The woken process is not among the rest of the list.
  Waiter-woken :
      (y : ℤ) → Waiter n f y × ((k : ℕ) → y ≡ pos k → pos k ≢ pos r) → Waiter n (put f r woken) y
  Waiter-woken y ((k, e, lt, at), differ) =
      (k, e, lt, put_ne f r woken k (λ same. differ k e (ap pos (sym same))) ∙ at)

  All-both : (P Q : ℤ → Type 0) (xs : List ℤ) → All P xs → All Q xs → All (λ y. P y × Q y) xs
  All-both P Q [] h k = tt
  All-both P Q (x ∷ xs) h k = ((h.0, k.0), All-both P Q xs h.1 k.1)

  -- The first of the list is woken.
  pub wake-Guards :
      (size : ℕ) (x : Sem) (rest : List ℤ)
      → x.is_being_used ≡ true
      → r < n
      → f r ≡ blocked
      → x.value + total n (λ j. is_inside (f j)) ≡ size
      → All (Waiter n f) rest
      → ((k : ℕ) → f k ≡ blocked → In k (pos r ∷ rest))
      → x.value ≤ suc (total n (λ j. is_woken (f j)))
      → All (λ y. (k : ℕ) → y ≡ pos k → pos k ≢ pos r) rest
      → x.head ≡ rest
      → Guards n size x (put f r woken)
  wake-Guards size x rest used lt at balance queued parked awake differ same =
      let counts = total-put f is_inside r woken n lt in
      let wakes = total-put f is_woken r woken n lt in
      let ins : is_inside (f r) ≡ 0 = ap is_inside at in
      let wok : is_woken (f r) ≡ 0 = ap is_woken at in
      record {
        used = used;
        balance = omega (arith, balance, counts, ins);
        queued = rw same (All-map rest Waiter-woken (All-both (Waiter n f) _ rest queued differ));
        parked = λ k e. rw same (still_in k (blocked_before f r woken k (λ h. cc) e));
        awake = λ ne. omega (arith, awake, wakes, wok);
      }
    where
      still_in : (k : ℕ) → (r ≢ k) × (f k ≡ blocked) → In k rest
      still_in k (ne, e) = elim (parked k e) [
        | inl e' ↦ absurd (ne (ground (arith, e')))
        | inr h ↦ h
      ]
