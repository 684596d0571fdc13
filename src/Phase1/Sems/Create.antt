-- ===== src/Phase1/Sems/Create.antt =====
-- `P1_SemCreate`: the slot that it takes, and the names in use.
use small_os_simulator.Common.{
  ℕ, suc, ◌+◌, ◌<◌, ◌≤◌, ◌≡◌, ◌≢◌, refl, sym, ◌∙◌, ap, subst, Bool, true, false, not, ◌&&◌, Option,
  none, some, List, [], ◌∷◌, ltb, ◌==◌, if◌then◌else◌, length, set, find_index, find_index-fails,
  find_index-holds, All, All-get_or, Bool-cases, inl, inr, arith, get_or-set, if_true, if_false,
  length-set, ==→eq,
}
use small_os_simulator.Phase1.Types.{Config, Code, Name, same_name}
use small_os_simulator.Phase1.Sems.{Sem, blank_sem, sem, sem_scan, sem_claim, sem_create}

abbrev pub idle : Sem → Bool
idle x = not x.is_being_used

-- The semaphore does not stand in the way of the name.
abbrev pub Clear : Name → Sem → Type 0
Clear name x = (x.is_being_used && same_name name x.name) ≡ false

abbrev or_first : Option ℕ → ℕ → List Sem → Option ℕ
or_first (some k) i xs = some k
or_first none i xs =
    if ltb (find_index idle xs) (length xs) then some (i + find_index idle xs) else none

abbrev next_idle : Sem → ℕ → Option ℕ → Option ℕ
next_idle x i j = elim j [ none ↦ (if x.is_being_used then none else some i) | some k ↦ some k ]

or_first_step :
    (x : Sem) (i : ℕ) (j : Option ℕ) (xs : List Sem)
    → or_first (next_idle x i j) (suc i) xs ≡ or_first j i (x ∷ xs)
unfolding find_index
or_first_step x i (some k) xs = refl
or_first_step x i none xs = elim (Bool-cases x.is_being_used) [
  | inl u ↦ rw u (ground arith)
  | inr u ↦ rw u (ground arith)
]

sem_scan_success :
    (name : Name) (i : ℕ) (code : Code) (j : Option ℕ) (xs : List Sem) (r : Option ℕ)
    → sem_scan name i code j xs ≡ (Code.success, r)
    → (code ≡ Code.success) × All (Clear name) xs × (r ≡ or_first j i xs)
unfolding sem_scan find_index
sem_scan_success name i code none [] r e = (ap (λ p. p.0) e, tt, ground arith)
sem_scan_success name i code (some k) [] r e = (ap (λ p. p.0) e, tt, ground arith)
sem_scan_success name i code j (x ∷ xs) r e =
    let ih = sem_scan_success name (suc i) _ (next_idle x i j) xs r e in
    elim (Bool-cases (x.is_being_used && same_name name x.name)) [
      | inl clash ↦ let e' = rw clash at ih.0 in absurd (ground arith)
      | inr clear ↦ (rw clear at ih.0, (clear, ih.1), ih.2 ∙ or_first_step x i j xs)
    ]

-- No two semaphores in use have the same name.
abbrev pub UniqueNames : List Sem → Type 0
UniqueNames sems =
    (i j : ℕ)
    → i ≢ j
    → i < length sems
    → j < length sems
    → (sem sems i).is_being_used ≡ true
    → Clear (sem sems i).name (sem sems j)

abbrev new_sem : Name → ℕ → Sem
new_sem name value = record { name = name; value = value; is_being_used = true; head = [] }

-- What a creation with this name that succeeds in slot `j` has established, and what it leaves.
pub record Created (c : Config) (name : Name) (value : ℕ) (sems : List Sem) (j : ℕ) (t : List Sem)
    : Type 0 where
  pub slot : j < length sems
  pub was_idle : (sem sems j).is_being_used ≡ false
  pub lowest : (i : ℕ) → i < j → (sem sems i).is_being_used ≡ true
  pub fits : length name ≤ c.max_name
  pub fresh : All (Clear name) sems
  pub table : t ≡ set sems j (new_sem name value)

sem_claim_success :
    (name : Name) (value : ℕ) (sems : List Sem) (r : Code × Option ℕ) {j : ℕ} {t : List Sem}
    → sem_claim name value sems r ≡ (Code.success, some j, t)
    → (r ≡ (Code.success, some j)) × (t ≡ set sems j (new_sem name value))
unfolding sem_claim
sem_claim_success name value sems (Code.success, some k) e = (ground arith, ground arith)
sem_claim_success name value sems (Code.success, none) e = cc
sem_claim_success name value sems (code, none) e = cc
sem_claim_success name value sems (code, some k) e = cc

or_first_slot :
    (sems : List Sem) (j : ℕ)
    → some j ≡ or_first none 0 sems
    → (j ≡ find_index idle sems) × (j < length sems)
or_first_slot sems j e = ground arith

pub sem_create-Created :
    {c : Config} (name : Name) (value : ℕ) (sems : List Sem) {j : ℕ} {t : List Sem}
    → sem_create c (some name) value sems ≡ (Code.success, some j, t)
    → Created c name value sems j t
unfolding sem_create
sem_create-Created {c} name value sems {j} {t} e =
    elim (Bool-cases (ltb c.max_name (length name))) [
      | inl long ↦ let e' = rw long at e in absurd (ground arith)
      | inr fits ↦
          let claimed = sem_claim_success name value sems _ (rw fits at e) in
          let found = sem_scan_success name 0 Code.success none sems (some j) claimed.0 in
          let at = or_first_slot sems j found.2 in
          record {
            slot = at.1;
            was_idle =
                rw at.0 (ground (arith, find_index-holds idle sems blank_sem (rw at.0 at at.1)));
            lowest =
                λ i lt. ground (arith, find_index-fails idle sems i blank_sem (rw (← at.0) lt));
            fits = ground arith;
            fresh = found.1;
            table = claimed.1;
          }
    ]

same_name-sym : (a b : Name) → same_name a b ≡ same_name b a
unfolding same_name
same_name-sym [] [] = refl
same_name-sym [] (y ∷ b) = refl
same_name-sym (x ∷ a) [] = refl
same_name-sym (x ∷ a) (y ∷ b) = ground (arith, same_name-sym a b)

module _ (name : Name) (value : ℕ) (sems : List Sem) (j : ℕ) (lt : j < length sems)
    (fresh : All (Clear name) sems) where
  abbrev table_with : List Sem
  table_with = set sems j (new_sem name value)

  at_new : (i : ℕ) → (j == i) ≡ true → sem table_with i ≡ new_sem name value
  at_new i e = get_or-set sems j i _ blank_sem lt ∙ if_true _ _ e

  at_old : (i : ℕ) → (j == i) ≡ false → sem table_with i ≡ sem sems i
  at_old i e = get_or-set sems j i _ blank_sem lt ∙ if_false _ _ e

  fresh_at : (i : ℕ) → i < length sems → Clear name (sem sems i)
  fresh_at i lti = All-get_or (Clear name) sems i blank_sem fresh lti

  Clear-sym : (x : Sem) → x.is_being_used ≡ true → Clear name x → Clear x.name (new_sem name value)
  Clear-sym x used clear = same_name-sym x.name name ∙ ground arith

  set-UniqueNames : UniqueNames sems → UniqueNames table_with
  set-UniqueNames unique i k ne lti ltk used = elim (Bool-cases (j == i)) [
    | inl at_i ↦ elim (Bool-cases (j == k)) [
      | inl at_k ↦ absurd (ne (sym (==→eq j i at_i) ∙ ==→eq j k at_k))
      | inr off_k ↦ rw (at_new i at_i, at_old k off_k) (fresh_at k (rw length-set at ltk))
    ]
    | inr off_i ↦ elim (Bool-cases (j == k)) [
      | inl at_k ↦
          rw (at_old i off_i, at_new k at_k)
            (Clear-sym (sem sems i) (rw (at_old i off_i) at used)
              (fresh_at i (rw length-set at lti)))
      | inr off_k ↦
          rw (at_old i off_i, at_old k off_k)
            (unique i k ne (rw length-set at lti) (rw length-set at ltk)
              (rw (at_old i off_i) at used))
    ]
  ]

-- From a table of semaphores in which no two in use have the same name, when `P1_SemCreate` with a
-- name succeeds, the slot that it gives is the first one that is not in use, the name is not too
-- long and no name in use, the slot holds the new semaphore, with nobody waiting, and all others
-- are as before. Again no two in use have the same name.
pub sem_create-UniqueNames :
    {c : Config} (name : Name) (value : ℕ) (sems : List Sem) {j : ℕ} {t : List Sem}
    → UniqueNames sems
    → sem_create c (some name) value sems ≡ (Code.success, some j, t)
    → Created c name value sems j t × UniqueNames t
sem_create-UniqueNames name value sems {j} {t} unique e =
    let r = sem_create-Created name value sems e in
    (r, subst UniqueNames (sym r.table) (set-UniqueNames name value sems j r.slot r.fresh unique))
