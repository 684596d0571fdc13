-- ===== src/Phase1/Join/Status.antt =====
-- What `P1GetChildStatus` finds and takes off the list of the children that have quit.
use small_os_simulator.Common.{
  ℕ, ◌<◌, ◌≡◌, ◌≢◌, refl, sym, ◌∙◌, ap, Bool, true, false, some, List, [], ◌∷◌, ◌++◌, arith, length,
  length-set, subst, lt→ltb, ne→==, get_or, ltb, ◌==◌, if_true, if_false, find_index, All, ℤ,
  get_or-set_self, get_or-set_ne,
}
use small_os_simulator.Phase1.Types.{Code, State, Sched, blank}
use small_os_simulator.Phase1.Procs.{proc, put_proc, current}
use small_os_simulator.Phase1.Contexts.{Contexts}
use small_os_simulator.Phase1.Processes.{bad_tag, has_tag, remove_at, reap, get_child_status}

module _ {ℓ} {A : Type ℓ} (test : A → Bool) where
  find_index-append :
      (xs : List A) (y : A) (ys : List A)
      → All (λ x. test x ≡ false) xs
      → test y ≡ true
      → find_index test (xs ++ y ∷ ys) ≡ length xs
  unfolding find_index
  find_index-append [] y ys h e = ground arith
  find_index-append (x ∷ xs) y ys h e = ground (arith, h.0, find_index-append xs y ys h.1 e)

get_or-append_at {ℓ} :
    {A : Type ℓ} (xs : List A) (y : A) (ys : List A) (d : A)
    → get_or (xs ++ y ∷ ys) (length xs) d ≡ y
get_or-append_at [] y ys d = refl
get_or-append_at (x ∷ xs) y ys d = get_or-append_at xs y ys d

length-lt-append {ℓ} :
    {A : Type ℓ} (xs : List A) (y : A) (ys : List A) → length xs < length (xs ++ y ∷ ys)
length-lt-append [] y ys = omega arith
length-lt-append (x ∷ xs) y ys = omega (arith, length-lt-append xs y ys)

remove_at-append :
    (xs : List ℕ) (y : ℕ) (ys : List ℕ) → remove_at (length xs) (xs ++ y ∷ ys) ≡ xs ++ ys
unfolding remove_at
remove_at-append [] y ys = refl
remove_at-append (x ∷ xs) y ys = ap (◌∷◌ x) (remove_at-append xs y ys)

-- The statics after child `k` is reaped, with these children left.
pub record Reaped (s : Sched) (k : ℕ) (left : List ℕ) (t : Sched) : Type 0 where
  pub freed : (proc t k).is_being_used ≡ false
  pub left_lem : (proc t (current s)).quit_children ≡ left
  pub queue : t.queue ≡ s.queue
  pub others : (j : ℕ) → j ≢ k → j ≢ current s → proc t j ≡ proc s j

-- The statics that `reap` leaves when the child at index `i` is `k`.
abbrev without_child : ℕ → ℕ → Sched → Sched
without_child i k s =
    let t = put_proc s k (record (proc s k) { is_being_used = false; state = State.free }) in
    put_proc t (current s) (record (proc t (current s)) {
      quit_children = remove_at i (proc t (current s)).quit_children;
    })

module _ (s : Sched) (ks : List ℕ) (k : ℕ) (rest : List ℕ)
    (e : (proc s (current s)).quit_children ≡ ks ++ k ∷ rest) (ne : k ≢ current s)
    (lt : k < length s.procs) (here : current s < length s.procs) where
  at_k : get_or (proc s (current s)).quit_children (length ks) 0 ≡ k
  at_k = ap (λ l. get_or l (length ks) 0) e ∙ get_or-append_at ks k rest 0

  without_child-Reaped : Reaped s k (ks ++ rest) (without_child (length ks) k s)
  without_child-Reaped =
      let freed = record (proc s k) { is_being_used = false; state = State.free } in
      let t = put_proc s k freed in
      let same : proc t (current s) ≡ proc s (current s) =
        get_or-set_ne s.procs k (current s) freed blank ne in
      let final = record (proc t (current s)) {
        quit_children = remove_at (length ks) (proc t (current s)).quit_children;
      } in
      record {
        freed =
            ap (λ p. p.is_being_used)
              (get_or-set_ne t.procs (current s) k final blank (λ eq. ne (sym eq))
                ∙ get_or-set_self s.procs k freed blank lt);
        left_lem =
            ap (λ p. p.quit_children)
              (get_or-set_self t.procs (current s) final blank (rw length-set here))
            ∙ ap (λ p. remove_at (length ks) p.quit_children) same
            ∙ ap (remove_at (length ks)) e
            ∙ remove_at-append ks k rest;
        queue = refl;
        others = λ j nk nc.
            get_or-set_ne t.procs (current s) j final blank (λ eq. nc (sym eq))
            ∙ get_or-set_ne s.procs k j freed blank (λ eq. nk (sym eq));
      }

  reap-Reaped : (x : Contexts) → Reaped s k (ks ++ rest) (reap (length ks) s x).0
  unfolding reap
  reap-Reaped x =
      subst (Reaped s k (ks ++ rest)) (sym (ap (λ j. without_child (length ks) j s) at_k))
        without_child-Reaped

-- With a valid tag, let `k` be the first quit child of the running process that has it, another
-- process than the running one, and both in the table. `P1GetChildStatus` succeeds with `k` and its
-- status; `k` is no longer in use, it alone is taken off the quit children and their order stays,
-- and the queue and all other processes are as before.
pub get_child_status_lem :
    (tag : ℤ) (s : Sched) (x : Contexts) (ks : List ℕ) (k : ℕ) (rest : List ℕ)
    → bad_tag tag ≡ false
    → (proc s (current s)).quit_children ≡ ks ++ k ∷ rest
    → All (λ j. has_tag tag s j ≡ false) ks
    → has_tag tag s k ≡ true
    → k ≢ current s
    → k < length s.procs
    → current s < length s.procs
    → let (code, child, t, y) = get_child_status tag s x in
      (code ≡ Code.success) × (child ≡ some (k, (proc s k).status)) × Reaped s k (ks ++ rest) t
unfolding get_child_status
get_child_status_lem tag s x ks k rest ok e before tagged ne lt here =
    let quits = (proc s (current s)).quit_children in
    let at : find_index (has_tag tag s) quits ≡ length ks =
      ap (find_index (has_tag tag s)) e
      ∙ find_index-append (has_tag tag s) ks k rest before tagged in
    let size : length ks < length quits =
      subst (λ l. length ks < length l) (sym e) (length-lt-append ks k rest) in
    let found : ltb (find_index (has_tag tag s) quits) (length quits) ≡ true =
      lt→ltb _ _ (subst (λ i. i < length quits) (sym at) size) in
    let some_there : (length quits == 0) ≡ false =
      ne→== (length quits) 0 (λ z. absurd (omega (arith, size))) in
    let result : get_child_status tag s x ≡ (
      Code.success,
      some (get_or quits (length ks) 0, (proc s (get_or quits (length ks) 0)).status),
      (reap (length ks) s x).0,
      (reap (length ks) s x).1,
    ) =
      if_false _ _ ok
      ∙ if_false _ _ some_there
      ∙ if_true _ _ found
      ∙ ap
          (λ i. (
            Code.success,
            some (get_or quits i 0, (proc s (get_or quits i 0)).status),
            (reap i s x).0,
            (reap i s x).1,
          ))
          at in
    (
      ap (λ r. r.0) result,
      ap (λ r. r.1) result ∙ ap (λ j. some (j, (proc s j).status)) (at_k s ks k rest e ne lt here),
      subst (Reaped s k (ks ++ rest)) (sym (ap (λ r. r.2) result))
          (reap-Reaped s ks k rest e ne lt here x),
    )
