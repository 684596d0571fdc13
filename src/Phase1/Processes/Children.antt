-- ===== src/Phase1/Processes/Children.antt =====
-- The array loop of `P1_Quit` over the parent's children.
use small_os_simulator.Common.{
  ℕ, zero, suc, true, ◌≡◌, ◌≢◌, refl, sym, ◌∙◌, ap, List, [], ◌∷◌, ◌++◌, arith, length,
  length-append, get_or, ne→==, ==_refl, All-append, ◌==◌, if◌then◌else◌, All,
}
use mathlib.Core.List.{append_assoc}
use small_os_simulator.Phase1.Processes.{shift_left, forget_loop, drop_end, forget_child}

abbrev Without : ℕ → List ℕ → Type 0
Without pid = All (λ k. k ≢ pid)

-- The last of `x ∷ xs`.
abbrev last : ℕ → List ℕ → ℕ
last x [] = x
last x (y ∷ ys) = last y ys

shift_left_front : (x : ℕ) (ys : List ℕ) → shift_left zero (x ∷ ys) ≡ ys ++ last x ys ∷ []
unfolding shift_left
shift_left_front x [] = refl
shift_left_front x (y ∷ ys) = ap (◌∷◌ y) (shift_left_front y ys)

shift_left_at :
    (xs : List ℕ) (x : ℕ) (ys : List ℕ)
    → shift_left (length xs) (xs ++ x ∷ ys) ≡ xs ++ (ys ++ last x ys ∷ [])
unfolding shift_left
shift_left_at [] x ys = shift_left_front x ys
shift_left_at (z ∷ []) x ys = ap (◌∷◌ z) (shift_left_front x ys)
shift_left_at (z ∷ w ∷ xs) x ys = ap (◌∷◌ z) (shift_left_at (w ∷ xs) x ys)

drop_end-append : (xs : List ℕ) (x : ℕ) → drop_end (xs ++ x ∷ []) ≡ xs
unfolding drop_end
drop_end-append [] x = refl
drop_end-append (y ∷ []) x = refl
drop_end-append (y ∷ z ∷ ys) x = ap (◌∷◌ y) (drop_end-append (z ∷ ys) x)

get_or-append : (xs : List ℕ) (x : ℕ) (ys : List ℕ) → get_or (xs ++ x ∷ ys) (length xs) 0 ≡ x
get_or-append [] x ys = refl
get_or-append (z ∷ xs) x ys = get_or-append xs x ys

append_snoc : (xs : List ℕ) (x : ℕ) (ys : List ℕ) → xs ++ x ∷ ys ≡ (xs ++ x ∷ []) ++ ys
append_snoc xs x ys = sym (append_assoc xs (x ∷ []) ys)

length-snoc : (xs : List ℕ) (x : ℕ) → length (xs ++ x ∷ []) ≡ suc (length xs)
length-snoc xs x = omega (arith, length-append xs (x ∷ []))

-- A round at an entry that is not the child.
forget_skip :
    (pid i rounds : ℕ) (xs : List ℕ)
    → get_or xs i 0 ≢ pid
    → forget_loop pid i (suc rounds) xs ≡ forget_loop pid (suc i) rounds xs
unfolding forget_loop
forget_skip pid i rounds xs h =
    ap (λ b. forget_loop pid (suc i) rounds (if b then shift_left i xs else xs))
      (ne→== (get_or xs i 0) pid h)

-- A round at the child.
forget_hit :
    (pid i rounds : ℕ) (xs : List ℕ)
    → get_or xs i 0 ≡ pid
    → forget_loop pid i (suc rounds) xs ≡ forget_loop pid (suc i) rounds (shift_left i xs)
unfolding forget_loop
forget_hit pid i rounds xs h =
    let same : (get_or xs i 0 == pid) ≡ true = rw h (==_refl pid) in
    ap (λ b. forget_loop pid (suc i) rounds (if b then shift_left i xs else xs)) same

-- Where the rest holds no such child, the loop changes nothing.
forget_loop_none :
    (pid : ℕ) (xs ys : List ℕ)
    → Without pid ys
    → forget_loop pid (length xs) (length ys) (xs ++ ys) ≡ xs ++ ys
forget_loop_none pid xs [] h = unfold forget_loop in refl
forget_loop_none pid xs (y ∷ ys) h =
    forget_skip pid (length xs) (length ys) (xs ++ y ∷ ys) (rw (get_or-append xs y ys) h.0)
    ∙ (rw (length-snoc, append_assoc) at (forget_loop_none pid (xs ++ y ∷ []) ys h.1))

last_ne : (pid y : ℕ) (ys : List ℕ) → Without pid (y ∷ ys) → last y ys ≢ pid
last_ne pid y [] h = h.0
last_ne pid y (z ∷ ys) h = last_ne pid z ys h.1

-- From the entry behind the one that the shift has filled, nothing is left to take out.
forget_loop_rest :
    (pid : ℕ) (xs ys : List ℕ)
    → Without pid ys
    → forget_loop pid (suc (length xs)) (length ys) (xs ++ (ys ++ last pid ys ∷ []))
      ≡ xs ++ (ys ++ last pid ys ∷ [])
forget_loop_rest pid xs [] h = unfold forget_loop in refl
forget_loop_rest pid xs (y ∷ ys) h =
    rw (length-snoc, append_assoc, length-snoc) at
      (forget_loop_none pid (xs ++ y ∷ []) (ys ++ last y ys ∷ [])
        (All-append _ ys _ h.1 (last_ne pid y ys h, tt)))

forget_loop_at :
    (pid : ℕ) (xs mid ys : List ℕ)
    → Without pid mid
    → Without pid ys
    → forget_loop pid (length xs) (length (mid ++ pid ∷ ys)) (xs ++ (mid ++ pid ∷ ys))
      ≡ xs ++ (mid ++ (ys ++ last pid ys ∷ []))
forget_loop_at pid xs [] ys h k =
    forget_hit pid (length xs) (length ys) (xs ++ pid ∷ ys) (get_or-append xs pid ys)
    ∙ rw (shift_left_at xs pid ys) (forget_loop_rest pid xs ys k)
forget_loop_at pid xs (m ∷ mid) ys h k =
    forget_skip pid (length xs) (length (mid ++ pid ∷ ys)) (xs ++ m ∷ (mid ++ pid ∷ ys))
      (rw (get_or-append xs m (mid ++ pid ∷ ys)) h.0)
    ∙ (rw (length-snoc, append_assoc, append_assoc) at
        (forget_loop_at pid (xs ++ m ∷ []) mid ys h.1 k))

-- The loop of `P1_Quit` over the parent's children takes the quitting process out where it stands
-- once, and keeps the others in their order.
pub forget_child_lem :
    (pid : ℕ) (xs ys : List ℕ)
    → Without pid xs
    → Without pid ys
    → forget_child pid (xs ++ pid ∷ ys) ≡ xs ++ ys
unfolding forget_child
forget_child_lem pid xs ys h k =
    ap drop_end (forget_loop_at pid [] xs ys h k ∙ sym (append_assoc xs ys (last pid ys ∷ [])))
    ∙ drop_end-append (xs ++ ys) (last pid ys)
