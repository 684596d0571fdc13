-- ===== src/Phase1/Processes/Family.antt =====
-- The lists of quit children: who stands in them, and how often.
pub mod Quit
pub mod Reap
use small_os_simulator.Common.{
  ℕ, zero, suc, ◌<◌, ◌≤◌, ◌≡◌, ◌≢◌, ◌⊎◌, inl, inr, refl, sym, ◌∙◌, ap, subst, true, false, List, [],
  ◌∷◌, ◌++◌, arith, length, length-append, get_or, get_or-set_self, get_or-set_ne, get_or_out, ltb,
  ◌==◌, if◌then◌else◌, ℤ, ne→==, ==_refl,
}
use native.Mathlib.Decide.{dec_lt, ℕ_discrete}
use small_os_simulator.Phase1.Types.{State, Pcb, Sched, blank}
use small_os_simulator.Phase1.Procs.{proc, put_proc, current}
use small_os_simulator.Phase1.Procs.Keeps.{Gone, Keeps, proc-put_proc, put_proc-Gone}
use small_os_simulator.Phase1.Processes.{reap, remove_at}
use small_os_simulator.Phase1.Contexts.{Contexts}

abbrev pub entries : Sched → ℕ → List ℕ
entries s i = (proc s i).quit_children

abbrev pub entry : Sched → ℕ → ℕ → ℕ
entry s i a = get_or (entries s i) a 0

-- Every entry of a list of quit children is a process that has quit and waits to be joined, and no
-- process is in two places.
pub record Family (s : Sched) : Type 0 where
  pub quits : (i a : ℕ) → a < length (entries s i) → Gone (proc s (entry s i a))
  pub once :
      (i a j b : ℕ)
      → a < length (entries s i)
      → b < length (entries s j)
      → entry s i a ≡ entry s j b
      → (i ≡ j) × (a ≡ b)

-- The process is in no list of quit children.
abbrev pub Fresh : ℕ → Sched → Type 0
Fresh pid s = (i a : ℕ) → a < length (entries s i) → entry s i a ≢ pid

pub Gone-Fresh : {s : Sched} (pid : ℕ) → Family s → ¬ Gone (proc s pid) → Fresh pid s
Gone-Fresh {s} pid f n i a lt e = n (subst (λ k. Gone (proc s k)) e (f.quits i a lt))

module _ {but : ℤ} {s t : Sched} (k : Keeps but s t) where
  kept_list : (i a : ℕ) → a < length (entries t i) → entries t i ≡ entries s i
  kept_list i a lt = elim (k.lists i) [
    | inl e ↦ e
    | inr e ↦ let lt' : a < 0 = rw e at lt in absurd (omega (arith, lt'))
  ]

  pub Keeps-Family : Family s → Family t
  Keeps-Family f = record {
    quits = λ i a lt. let e = kept_list i a lt in rw e (k.gone _ (f.quits i a (rw e at lt)));
    once = λ i a j b lti ltj same.
        let e = kept_list i a lti in
        let e' = kept_list j b ltj in
        f.once i a j b (rw e at lti) (rw e' at ltj)
          (ap (λ xs. get_or xs a 0) (sym e) ∙ same ∙ ap (λ xs. get_or xs b 0) e');
  }

  pub Keeps-Fresh : {pid : ℕ} → Fresh pid s → Fresh pid t
  Keeps-Fresh n i a lt same =
      let e = kept_list i a lt in n i a (rw e at lt) (ap (λ xs. get_or xs a 0) (sym e) ∙ same)

-- An entry of a list with one more at its end is an old one, or the new one.
get_or-snoc :
    (xs : List ℕ) (x a : ℕ)
    → a < length (xs ++ x ∷ [])
    → ((a < length xs) × (get_or (xs ++ x ∷ []) a 0 ≡ get_or xs a 0))
      ⊎ ((a ≡ length xs) × (get_or (xs ++ x ∷ []) a 0 ≡ x))
get_or-snoc [] x zero lt = inr (refl, refl)
get_or-snoc [] x (suc a) lt = absurd (omega arith)
get_or-snoc (y ∷ xs) x zero lt = inl (omega arith, refl)
get_or-snoc (y ∷ xs) x (suc a) lt = elim (get_or-snoc xs x a (omega arith)) [
  | inl (below, e) ↦ inl (omega arith, e)
  | inr (at, e) ↦ inr (ap suc at, e)
]

module _ {s : Sched} (parent pid : ℕ) (p : Pcb) (f : Family s)
    (list : p.quit_children ≡ entries s parent ++ pid ∷ []) (gone : Gone (proc s parent) → Gone p)
    (quit : Gone (proc s pid)) (fresh : Fresh pid s) where
  abbrev appended : Sched
  appended = put_proc s parent p

  -- An entry of the lists after the write is an old one, or the new one.
  place :
      (i a : ℕ)
      → a < length (entries appended i)
      → ((a < length (entries s i)) × (entry appended i a ≡ entry s i a))
        ⊎ ((parent ≡ i) × (a ≡ length (entries s parent)) × (entry appended i a ≡ pid))
  place i a lt = elim (proc-put_proc s parent p i) [
    | inl e ↦
        let same : entries appended i ≡ entries s i = ap (λ p. p.quit_children) e in
        inl (rw same at lt, ap (λ xs. get_or xs a 0) same)
    | inr (here, e) ↦
        let same : entries appended i ≡ entries s parent ++ pid ∷ [] =
          ap (λ p. p.quit_children) e ∙ list in
        elim (get_or-snoc (entries s parent) pid a (rw same at lt)) [
          | inl (below, v) ↦ inl (
            subst (λ k. a < length (entries s k)) here below,
            ap (λ xs. get_or xs a 0) same ∙ v ∙ ap (λ k. entry s k a) here,
          )
          | inr (at, v) ↦ inr (here, at, ap (λ xs. get_or xs a 0) same ∙ v)
        ]
  ]

  pub append-Family : Family appended
  append-Family = record {
    quits = λ i a lt. put_proc-Gone s parent p gone _ (elim (place i a lt) [
      | inl (lt', e) ↦ rw e (f.quits i a lt')
      | inr (here, at, e) ↦ rw e quit
    ]);
    once = λ i a j b lti ltj same. elim (place i a lti) [
      | inl (lt, e) ↦ elim (place j b ltj) [
        | inl (lt', e') ↦ f.once i a j b lt lt' (sym e ∙ same ∙ e')
        | inr (here, at, e') ↦ absurd (fresh i a lt (sym e ∙ same ∙ e'))
      ]
      | inr (here, at, e) ↦ elim (place j b ltj) [
        | inl (lt', e') ↦ absurd (fresh j b lt' (sym e' ∙ sym same ∙ e))
        | inr (here', at', e') ↦ (sym here ∙ here', at ∙ sym at')
      ]
    ];
  }
