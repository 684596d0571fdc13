-- ===== src/Phase1/Processes/Family/Reap.antt =====
-- What `P1GetChildStatus` does to the lists of quit children and to the processes that wait on a
-- semaphore.
use small_os_simulator.Common.{
  ℕ, zero, suc, ◌<◌, ◌≡◌, ◌≢◌, inl, inr, refl, sym, ◌∙◌, ap, subst, true, false, List, [], ◌∷◌,
  arith, length, get_or, get_or-set_self, get_or-set_ne, get_or_out, length-set, ltb, ◌==◌, ltb→lt,
  if◌then◌else◌, ℤ, Bool-cases, ==→eq, ==→ne, find_index,
}
use native.Mathlib.Decide.{dec_lt}
use small_os_simulator.Phase1.Types.{State, Sched, blank}
use small_os_simulator.Phase1.Procs.{proc, put_proc, current}
use small_os_simulator.Phase1.Procs.Keeps.{
  Gone, Holds, proc-put_proc, put_proc-Gone, put_proc-Stuck,
}
use small_os_simulator.Phase1.Processes.{reap, remove_at, get_child_status, has_tag}
use small_os_simulator.Phase1.Processes.Family.{Family, entries, entry}
use small_os_simulator.Phase1.Processes.Family.Quit.{Goes}
use small_os_simulator.Phase1.Contexts.{Contexts}

-- Where an entry stood before entry `i` was taken out.
abbrev back : ℕ → ℕ → ℕ
back i a = if ltb a i then a else suc a

get_or-remove_at :
    (i : ℕ) (xs : List ℕ) (a : ℕ) → get_or (remove_at i xs) a 0 ≡ get_or xs (back i a) 0
unfolding remove_at
get_or-remove_at i [] a = refl
get_or-remove_at zero (x ∷ xs) a = ground arith
get_or-remove_at (suc i) (x ∷ xs) zero = ground arith
get_or-remove_at (suc i) (x ∷ xs) (suc a) = ground (arith, get_or-remove_at i xs a)

length-remove_at : (i : ℕ) (xs : List ℕ) → i < length xs → suc (length (remove_at i xs)) ≡ length xs
unfolding remove_at
length-remove_at i [] lt = absurd (omega arith)
length-remove_at zero (x ∷ xs) lt = refl
length-remove_at (suc i) (x ∷ xs) lt = ap suc (length-remove_at i xs (omega arith))

module _ (i : ℕ) (s : Sched) (x : Contexts) (lt : i < length (entries s (current s))) where
  abbrev target : ℕ
  target = entry s (current s) i

  abbrev freed : Sched
  freed = put_proc s target (record (proc s target) { is_being_used = false; state = State.free })

  abbrev after : Sched
  after = (reap i s x).0

  entries-freed : (j : ℕ) → entries freed j ≡ entries s j
  entries-freed j = elim (proc-put_proc s target _ j) [
    | inl e ↦ ap (λ p. p.quit_children) e
    | inr (same, e) ↦ ap (λ p. p.quit_children) e ∙ ap (entries s) same
  ]

  -- The caller is in the table, as its list is not empty.
  known : current s < length freed.procs
  known = rw length-set (elim (dec_lt (current s) (length s.procs)) [
    | yes there ↦ there
    | no out ↦
        let lt' : i < 0 =
          subst (λ p. i < length p.quit_children)
            (get_or_out s.procs (current s) blank (omega arith)) lt in
        absurd (omega (arith, lt'))
  ])

  entries-reap :
      (j : ℕ)
      → entries after j ≡ (if current s == j then remove_at i (entries s j) else entries s j)
  unfolding reap
  entries-reap j = elim (Bool-cases (current s == j)) [
    | inl e ↦ rw e (
        subst (λ k. entries after k ≡ remove_at i (entries s k)) (==→eq _ j e)
          (ap (λ p. p.quit_children) (get_or-set_self freed.procs (current s) _ blank known)
            ∙ ap (remove_at i) (entries-freed (current s))))
    | inr e ↦ rw e (
        ap (λ p. p.quit_children) (get_or-set_ne freed.procs (current s) j _ blank (==→ne _ j e))
        ∙ entries-freed j)
  ]

  Gone-reap : (j : ℕ) → target ≢ j → Gone (proc s j) → Gone (proc after j)
  unfolding reap
  Gone-reap j ne g =
      put_proc-Gone freed (current s) _ (λ h. h) j
        (rw (get_or-set_ne s.procs target j _ blank ne) g)

  reap-Holds : Gone (proc s target) → Holds s after
  unfolding reap
  reap-Holds g k j h =
      put_proc-Stuck freed (current s) _ k j (λ e m. m)
        (put_proc-Stuck s target _ k j (λ e m. absurd cc) h)

  abbrev from : ℕ → ℕ → ℕ
  from j a = if current s == j then back i a else a

  from_lem :
      (j a : ℕ)
      → a < length (entries after j)
      → (from j a < length (entries s j))
        × (entry after j a ≡ entry s j (from j a))
        × ((current s ≡ j) → from j a ≢ i)
  from_lem j a below = elim (Bool-cases (current s == j)) [
    | inl e ↦
        let same : entries after j ≡ remove_at i (entries s j) =
          entries-reap j ∙ ap (λ b. if b then remove_at i (entries s j) else entries s j) e in
        let below' : a < length (remove_at i (entries s j)) = rw same at below in
        let lt' : i < length (entries s j) =
          subst (λ k. i < length (entries s k)) (==→eq _ j e) lt in
        let size = length-remove_at i (entries s j) lt' in
        rw e (
          ground (arith, size, below', lt'),
          ap (λ xs. get_or xs a 0) same ∙ get_or-remove_at i (entries s j) a,
          λ here. λ at. ground (arith, at),
        )
    | inr e ↦
        let same : entries after j ≡ entries s j =
          entries-reap j ∙ ap (λ b. if b then remove_at i (entries s j) else entries s j) e in
        rw e (rw same at below, ap (λ xs. get_or xs a 0) same, λ here. absurd (==→ne _ j e here))
  ]

  from-injective : (j a b : ℕ) → from j a ≡ from j b → a ≡ b
  from-injective j a b e = ground (arith, e)

  reap-Family : Family s → Family after
  reap-Family f = record {
    quits = λ j a below.
        let (lt', e, other) = from_lem j a below in
        rw e (
          Gone-reap _
            (λ same.
              let (here, at) = f.once (current s) i j (from j a) lt lt' same in other here (sym at))
            (f.quits j (from j a) lt'));
    once = λ j a k b below below' same.
        let (lt', e, other) = from_lem j a below in
        let (lt'', e', other') = from_lem k b below' in
        let (here, at) = f.once j (from j a) k (from k b) lt' lt'' (sym e ∙ same ∙ e') in
        (here, from-injective k a b (subst (λ m. from m a ≡ from k b) here at));
  }

  pub reap-Goes : Family s → Goes s (reap i s x).0
  reap-Goes f = record { family = reap-Family f; holds = reap-Holds (f.quits (current s) i lt) }

pub get_child_status-Goes :
    (tag : ℤ) (s : Sched) (x : Contexts) → Family s → Goes s (get_child_status tag s x).2
unfolding get_child_status
get_child_status-Goes tag s x f =
    let same : Goes s s = record { family = f; holds = λ i j h. h } in
    let i = find_index (has_tag tag s) (proc s (current s)).quit_children in
    ground (arith, same, reaped i)
  where
    reaped : (i : ℕ) → ltb i (length (entries s (current s))) ≡ true → Goes s (reap i s x).0
    reaped i found = reap-Goes i s x (ltb→lt i _ found) f
