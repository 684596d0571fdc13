-- ===== src/Phase2/Clock/Start/Clear.antt =====
-- The loop of `P2ClockShutdown` on semaphores that nobody waits on.
use small_os_simulator.Common.{
  ℕ, ◌<◌, ◌≡◌, ◌≢◌, refl, sym, ◌∙◌, ap, subst, Bool, true, false, ◌||◌, some, List, [], ◌∷◌, arith,
  length, set, length-set, get_or-set_self, get_or-set_ne, All, ◌==◌, ==→ne, ==→eq, pos, Bool-cases,
  inl, inr,
}
use small_os_simulator.Phase1.Types.{Code}
use small_os_simulator.Phase1.Sems.{Sem, sem, blank_sem, sem_free, valid_sid}
use small_os_simulator.Phase2.Clock.{Sleeper, clear_sleepers}

-- Whether the semaphore is one of these.
abbrev pub among : ℕ → List ℕ → Bool
among i [] = false
among i (k ∷ ks) = (k == i) || among i ks

-- The semaphores of the sleepers.
abbrev pub Owns : List Sleeper → List ℕ → Type 0
Owns [] [] = Unit
Owns (x ∷ xs) (k ∷ ks) = (x.sem_id ≡ pos k) × Owns xs ks
Owns _ _ = ⊥

abbrev pub NoTwice : List ℕ → Type 0
NoTwice [] = Unit
NoTwice (k ∷ ks) = (among k ks ≡ false) × NoTwice ks

-- A semaphore of the table that is in use, with nobody waiting.
abbrev pub Quiet : List Sem → ℕ → Type 0
Quiet t k = (k < length t) × ((sem t k).is_being_used ≡ true) × ((sem t k).head ≡ [])

pub freed_at :
    (sems : List Sem) (k : ℕ)
    → Quiet sems k
    → (t : List Sem) × (sem_free (pos k) sems ≡ (Code.success, t))
      × ((sem t k).is_being_used ≡ false)
      × ((i : ℕ) → k ≢ i → sem t i ≡ sem sems i)
      × (length t ≡ length sems)
unfolding sem_free valid_sid
freed_at sems k (lt, used, nobody) = (
  set sems k (record (sem sems k) { is_being_used = false }),
  ground (arith, used, nobody, lt),
  ap (λ x. x.is_being_used) (get_or-set_self sems k _ blank_sem lt),
  λ i ne. get_or-set_ne sems k i _ blank_sem ne,
  length-set sems k _,
)

pub Quiet-same :
    (sems t : List Sem) (k : ℕ)
    → sem t k ≡ sem sems k
    → length t ≡ length sems
    → Quiet sems k
    → Quiet t k
Quiet-same sems t k e size q = rw (e, size) q

-- What freeing the semaphores of the sleepers leaves.
pub record Cleared (ks : List ℕ) (sems t : List Sem) : Type 0 where
  pub gone : (i : ℕ) → among i ks ≡ true → (sem t i).is_being_used ≡ false
  pub others : (i : ℕ) → among i ks ≡ false → sem t i ≡ sem sems i
  pub size : length t ≡ length sems

module _ (sems t : List Sem) (k : ℕ) (others : (i : ℕ) → k ≢ i → sem t i ≡ sem sems i)
    (size : length t ≡ length sems) where
  pub Quiet-others : (ks : List ℕ) → among k ks ≡ false → All (Quiet sems) ks → All (Quiet t) ks
  Quiet-others [] off q = tt
  Quiet-others (j ∷ ks) off q = (
    Quiet-same sems t j (others j (λ e. ==→ne j k (ground arith) (sym e))) size q.0,
    Quiet-others ks (ground arith) q.1,
  )

clear_step :
    (x : Sleeper) (xs : List Sleeper) (sems next : List Sem) {ys : List Sleeper} {t : List Sem}
    → sem_free x.sem_id sems ≡ (Code.success, next)
    → clear_sleepers xs next ≡ some (ys, t)
    → clear_sleepers (x ∷ xs) sems ≡ some (record x { is_being_used = false } ∷ ys, t)
unfolding clear_sleepers
clear_step x xs sems next freed e =
    let e' = ap (λ (r : Code × List Sem). clear_sleepers xs r.1) freed ∙ e in
    rw (clear_sleepers, ap (λ (r : Code × List Sem). r.0) freed, e') refl

pub clear_sleepers-Cleared :
    (xs : List Sleeper) (ks : List ℕ) (sems : List Sem)
    → Owns xs ks
    → NoTwice ks
    → All (Quiet sems) ks
    → (ys : List Sleeper) × (t : List Sem) × (clear_sleepers xs sems ≡ some (ys, t))
      × Cleared ks sems t
unfolding clear_sleepers
clear_sleepers-Cleared [] [] sems owns once quiet =
    ([], sems, refl, record { gone = λ i e. cc; others = λ i e. refl; size = refl })
clear_sleepers-Cleared [] (k ∷ ks) sems owns once quiet = absurd owns
clear_sleepers-Cleared (x ∷ xs) [] sems owns once quiet = absurd owns
clear_sleepers-Cleared (x ∷ xs) (k ∷ ks) sems owns once quiet =
    let (next, freed, gone, others, size) = freed_at sems k quiet.0 in
    let (ys, t, e, ih) =
      clear_sleepers-Cleared xs ks next owns.1 once.1
        (Quiet-others sems next k others size ks once.0 quiet.1) in
    (
      record x { is_being_used = false } ∷ ys,
      t,
      clear_step x xs sems next (ap (λ z. sem_free z sems) owns.0 ∙ freed) e,
      record {
        gone = λ i at. elim (Bool-cases (among i ks)) [
          | inl later ↦ ih.gone i later
          | inr not_later ↦
              let here : k ≡ i = ==→eq k i (ground arith) in
              ap (λ x. x.is_being_used) (ih.others i not_later)
              ∙ subst (λ j. (sem next j).is_being_used ≡ false) here gone
        ];
        others = λ i at. ih.others i (ground arith) ∙ others i (==→ne k i (ground arith));
        size = ih.size ∙ size;
      },
    )
