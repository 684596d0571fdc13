-- ===== src/Phase2/Clock/Start/Stop.antt =====
-- The start of the clock's data and its stop.
use small_os_simulator.Common.{
  ℕ, suc, ◌≡◌, ◌≢◌, refl, sym, ◌∙◌, ap, subst, true, false, Option, none, some, List, [], ◌∷◌,
  arith, length, length-set, get_or-set_self, get_or-set_ne, All, ne→==, ==→ne, pos, Option-cases,
  Bool-cases, inl, inr,
}
use mathlib.Core.Option.{some-injective}
use native.Mathlib.Decide.{ℕ_discrete}
use small_os_simulator.Phase1.Types.{Config, Code, Name}
use small_os_simulator.Phase1.Sems.{Sem, sem, blank_sem, sem_create, sem_free}
use small_os_simulator.Phase1.Sems.Create.{Created, sem_create-Created}
use small_os_simulator.Phase2.Clock.{Sleeper}
use small_os_simulator.Phase2.Calls.{make, asserted, unmake}
use small_os_simulator.Phase2.Clock.Start.{
  clock_sems, clock_data, clock_stop, Clock, sleeper_name, table_name,
}
use small_os_simulator.Phase2.Clock.Start.Clear.{
  among, Owns, NoTwice, Quiet, freed_at, Quiet-same, Quiet-others, clear_sleepers-Cleared,
}

asserted_lem :
    (r : Code × Option ℕ × List Sem) {k : ℕ} {t : List Sem}
    → asserted r ≡ some (k, t)
    → r ≡ (Code.success, some k, t)
unfolding asserted
asserted_lem (Code.success, some i, u) e = let e' = some-injective _ _ e in ground arith
asserted_lem (Code.success, none, u) e = cc
asserted_lem (code, sid, u) e = cc

make-Created :
    {c : Config} (name : Name) (value : ℕ) (sems : List Sem) {k : ℕ} {t : List Sem}
    → make c name value sems ≡ some (k, t)
    → Created c name value sems k t
unfolding make
make-Created {c} name value sems e =
    sem_create-Created name value sems (asserted_lem (sem_create c (some name) value sems) e)

-- What creating the semaphores of the sleepers leaves.
record Started (ks : List ℕ) (sems t : List Sem) : Type 0 where
  pub once : NoTwice ks
  pub quiet : All (Quiet t) ks
  pub idle : (i : ℕ) → among i ks ≡ true → (sem sems i).is_being_used ≡ false
  pub others : (i : ℕ) → among i ks ≡ false → sem t i ≡ sem sems i
  pub size : length t ≡ length sems

module _ (c : Config) (name : Name) (value : ℕ) (sems : List Sem) (k : ℕ) (next : List Sem)
    (made : Created c name value sems k next) where
  new_at : sem next k ≡ record { name = name; value = value; is_being_used = true; head = [] }
  new_at = rw made.table (get_or-set_self sems k _ blank_sem made.slot)

  old_at : (i : ℕ) → k ≢ i → sem next i ≡ sem sems i
  old_at i ne = rw made.table (get_or-set_ne sems k i _ blank_sem ne)

  size_at : length next ≡ length sems
  size_at = rw made.table (length-set sems k _)

  cons-Started : (ks : List ℕ) (t : List Sem) → Started ks next t → Started (k ∷ ks) sems t
  cons-Started ks t h = record {
    once = (apart, h.once);
    quiet = (
      Quiet-same next t k (h.others k apart) h.size (ground (arith, made.slot, size_at, new_at)),
      h.quiet,
    );
    idle = λ i at. elim (ℕ_discrete k i) [
      | yes here ↦ subst (λ j. (sem sems j).is_being_used ≡ false) here made.was_idle
      | no ne ↦
          ap (λ x. x.is_being_used) (sym (old_at i ne)) ∙ h.idle i (ground (arith, ne→== k i ne))
    ];
    others = λ i at. h.others i (ground arith) ∙ old_at i (==→ne k i (ground arith));
    size = h.size ∙ size_at;
  }
    where
      apart : among k ks ≡ false
      apart = elim (Bool-cases (among k ks)) [
        | inl at ↦ let e = h.idle k at in cc (e, new_at)
        | inr off ↦ off
      ]

clock_sems-Started :
    (c : Config) (i : ℕ) (xs : List Sleeper) (sems : List Sem) {ys : List Sleeper} {t : List Sem}
    → clock_sems c i xs sems ≡ some (ys, t)
    → (ks : List ℕ) × Owns ys ks × Started ks sems t
unfolding clock_sems
clock_sems-Started c i [] sems {ys} {t} e =
    let same : ([], sems) ≡ (ys, t) = some-injective _ _ e in
    (
      [],
      subst (λ (p : List Sleeper × List Sem). Owns p.0 []) same tt,
      subst (λ (p : List Sleeper × List Sem). Started [] sems p.1) same empty-Started,
    )
  where
    empty-Started : Started [] sems sems
    empty-Started = record {
      once = tt;
      quiet = tt;
      idle = λ i e. cc;
      others = λ i e. refl;
      size = refl;
    }
clock_sems-Started c i (x ∷ xs) sems {ys} {t} e =
    elim (Option-cases (make c (sleeper_name i) 0 sems)) [
      | inl none_made ↦ let e' = rw none_made at e in cc (e')
      | inr ((k, next), made) ↦
          let e1 = rw made at e in
          elim (Option-cases (clock_sems c (suc i) xs next)) [
            | inl none_made ↦ let e' = rw none_made at e1 in cc (e')
            | inr ((rest, all), more) ↦
                let e2 = rw more at e1 in
                let (ks, owns, h) = clock_sems-Started c (suc i) xs next more in
                let made' = make-Created (sleeper_name i) 0 sems made in
                let x' = record x { is_being_used = false; sem_id = pos k } in
                let same : (x' ∷ rest, all) ≡ (ys, t) = some-injective _ _ e2 in
                (
                  k ∷ ks,
                  subst (λ (p : List Sleeper × List Sem). Owns p.0 (k ∷ ks)) same (refl, owns),
                  subst (λ (p : List Sleeper × List Sem). Started (k ∷ ks) sems p.1) same
                      (cons-Started c (sleeper_name i) 0 sems k next made' ks all h),
                )
          ]
    ]

unmade :
    (sems t : List Sem) (k : ℕ)
    → sem_free (pos k) sems ≡ (Code.success, t)
    → unmake (pos k) sems ≡ some t
unfolding unmake
unmade sems t k e = rw (unmake, e) refl

-- Freeing what was created, the semaphores of the sleepers and then the mutex.
module _ (c : Config) (table : List Sleeper) (sems : List Sem) (xs : List Sleeper) (made : List Sem)
    (mutex : ℕ) (all : List Sem) (ks : List ℕ) (owns : Owns xs ks) (h : Started ks sems made)
    (last : Created c table_name 1 made mutex all) where
  mutex_apart : among mutex ks ≡ false
  mutex_apart = elim (Bool-cases (among mutex ks)) [
    | inl at ↦ let used = in_use ks h.quiet at in cc (used, last.was_idle)
    | inr off ↦ off
  ]
    where
      in_use :
          (js : List ℕ)
          → All (Quiet made) js
          → among mutex js ≡ true
          → (sem made mutex).is_being_used ≡ true
      in_use [] q at = cc
      in_use (j ∷ js) q at = elim (ℕ_discrete j mutex) [
        | yes here ↦ subst (λ k. (sem made k).is_being_used ≡ true) here (q.0.1)
        | no ne ↦ in_use js q.1 (ground (arith, ne→== j mutex ne))
      ]

  stops :
      (l : Clock) × (u : List Sem) × (clock_stop (record { table = xs; mutex = mutex }) all
        ≡ some (l, u))
      × ((i : ℕ) → (sem u i).is_being_used ≡ (sem sems i).is_being_used)
  unfolding clock_stop
  stops =
      let old = old_at c table_name 1 made mutex all last in
      let quiet =
        Quiet-others made all mutex old (size_at c table_name 1 made mutex all last) ks mutex_apart
          h.quiet in
      let (ys, freed, e, cleared) = clear_sleepers-Cleared xs ks all owns h.once quiet in
      let new = cleared.others mutex mutex_apart ∙ new_at c table_name 1 made mutex all last in
      let size = cleared.size ∙ size_at c table_name 1 made mutex all last in
      let (u, free, gone, others, same) =
        freed_at freed mutex (ground (arith, new, size, last.slot)) in
      (
        record { table = ys; mutex = mutex },
        u,
        rw (clock_stop, e, unmade freed u mutex free) refl,
        λ i. elim (ℕ_discrete mutex i) [
          | yes here ↦
              subst (λ j. (sem u j).is_being_used ≡ (sem sems j).is_being_used) here
                (gone ∙ sym last.was_idle ∙ ap (λ x. x.is_being_used) (h.others mutex mutex_apart))
          | no ne ↦ ap (λ x. x.is_being_used) (others i ne) ∙ elim (Bool-cases (among i ks)) [
            | inl at ↦ cleared.gone i at ∙ sym (h.idle i at)
            | inr off ↦ ap (λ x. x.is_being_used) (cleared.others i off ∙ old i ne ∙ h.others i off)
          ]
        ],
      )

-- Whatever the tables hold: when the start of the clock's data in `P2ClockInit` passes its
-- assertions, `P2ClockShutdown` from its loop on passes its own on what that leaves, and afterwards
-- exactly the semaphores are in use that were before the start.
pub clock_data-clock_stop :
    (c : Config) {k : Clock} {t : List Sem} (table : List Sleeper) (sems : List Sem)
    → clock_data c table sems ≡ some (k, t)
    → (l : Clock) × (u : List Sem) × (clock_stop k t ≡ some (l, u))
      × ((i : ℕ) → (sem u i).is_being_used ≡ (sem sems i).is_being_used)
unfolding clock_data clock_stop
clock_data-clock_stop c {k} {t} table sems e = elim (Option-cases (clock_sems c 0 table sems)) [
  | inl none_made ↦ let e' = rw none_made at e in cc (e')
  | inr ((xs, made), started) ↦
      let e1 = rw started at e in
      elim (Option-cases (make c table_name 1 made)) [
        | inl none_made ↦ let e' = rw none_made at e1 in cc (e')
        | inr ((mutex, all), last) ↦
            let (ks, owns, h) = clock_sems-Started c 0 table sems started in
            subst
              (λ (p : Clock × List Sem).
                (l : Clock) × (u : List Sem) × (clock_stop p.0 p.1 ≡ some (l, u))
                × ((i : ℕ) → (sem u i).is_being_used ≡ (sem sems i).is_being_used))
              (some-injective _ _ (rw last at e1))
              (stops c table sems xs made mutex all ks owns h (make-Created table_name 1 made last))
      ]
]
