-- ===== src/Phase3/Start/Forks.antt =====
-- The page tables of the pagers, from the forks of `P3PagerInit` to the loop of `P3_VmShutdown`.
use small_os_simulator.Common.{
  zero, suc, ◌<◌, ◌≤◌, ◌≢◌, Option, List, ◌∷◌, ltb, set, length-set, get_or-set_self, get_or-set_ne,
  Bool-cases, Option-cases, inl, inr, get_or-set-cases, ℕ, ◌≡◌, refl, sym, ◌∙◌, ap, true, none,
  some, [], arith, get_or, replicate, length, pos,
}
use mathlib.Core.Option.{some-injective}
use small_os_simulator.Phase3.Types.{Table, empty_pte}
use small_os_simulator.Phase3.Tables.{Vm, allocate_page_table, allocate_empty}
use small_os_simulator.Phase3.Start.{fork_pagers, free_tables}

pub get_or-free_tables :
    (ts : List (Option Table)) (pid : ℕ) → get_or (free_tables ts) pid none ≡ none
unfolding free_tables
get_or-free_tables [] pid = refl
get_or-free_tables (t ∷ ts) zero = refl
get_or-free_tables (t ∷ ts) (suc pid) = get_or-free_tables ts pid

-- Among the processes of the first `n` forks.
abbrev pub IsPager : (ℕ → Option ℕ) → ℕ → ℕ → Type 0
IsPager pager_of n pid = (i : ℕ) × (i < n) × (pager_of i ≡ some pid)

-- The page tables `after` the forks of the pagers.
pub record Forked (pager_of : ℕ → Option ℕ) (n : ℕ) (vm : Vm) (after : List (Option Table))
    : Type 0 where
  pub sized : length after ≡ length vm.tables
  pub own :
      (pid : ℕ)
      → IsPager pager_of n pid
      → pid < length vm.tables
      → get_or after pid none ≡ some (replicate vm.num_pages empty_pte)
  pub keeps :
      (pid : ℕ)
      → get_or vm.tables pid none ≡ some (replicate vm.num_pages empty_pte)
      → get_or after pid none ≡ some (replicate vm.num_pages empty_pte)
  pub others :
      (pid : ℕ) → ¬ IsPager pager_of n pid → get_or after pid none ≡ get_or vm.tables pid none

set_out : (ts : List (Option Table)) (i : ℕ) (t : Option Table) → length ts ≤ i → set ts i t ≡ ts
set_out [] i t le = refl
set_out (x ∷ ts) zero t le = absurd (omega arith)
set_out (x ∷ ts) (suc i) t le = ap (◌∷◌ x) (set_out ts i t (omega arith))

abbrev given : ℕ → Vm → Vm
given pid vm = record vm { tables = set vm.tables pid (some (replicate vm.num_pages empty_pte)) }

allocates :
    (pid : ℕ) (vm : Vm)
    → vm.initialized ≡ true
    → (allocate_page_table (pos pid) vm).1 ≡ given pid vm
unfolding allocate_page_table allocate_empty
allocates pid vm ready = elim (Bool-cases (ltb pid (length vm.tables))) [
  | inl lt ↦ rw (lt, allocate_page_table, ready) refl
  | inr out ↦
      let same = set_out vm.tables pid (some (replicate vm.num_pages empty_pte)) (ground arith) in
      rw (out, allocate_page_table) (ap (λ ts. record vm { tables = ts }) (sym same))
]

Forked-next :
    (pager_of : ℕ → Option ℕ) (n pid : ℕ) (vm : Vm) (after : List (Option Table))
    → pager_of 0 ≡ some pid
    → Forked (λ i. pager_of (suc i)) n (given pid vm) after
    → Forked pager_of (suc n) vm after
Forked-next pager_of n pid vm after first f = record {
  sized = f.sized ∙ length-set vm.tables pid _;
  own = own;
  keeps = λ q e. f.keeps q (kept q e);
  others = λ q out.
      f.others q (λ (i, lt, at). out (suc i, omega arith, at))
      ∙ get_or-set_ne vm.tables pid q _ none (λ e. out (0, omega arith, first ∙ ap some e));
}
  where
    kept :
        (q : ℕ)
        → get_or vm.tables q none ≡ some (replicate vm.num_pages empty_pte)
        → get_or (given pid vm).tables q none ≡ some (replicate vm.num_pages empty_pte)
    kept q e = elim (get_or-set-cases vm.tables pid q _ none) [
      | inl same ↦ same ∙ e
      | inr (at, written) ↦ written
    ]

    own :
        (q : ℕ)
        → IsPager pager_of (suc n) q
        → q < length vm.tables
        → get_or after q none ≡ some (replicate vm.num_pages empty_pte)
    own q (zero, lt, at) below =
        let same : pid ≡ q = some-injective _ _ (sym first ∙ at) in
        f.keeps q (
          ap (λ j. get_or (given j vm).tables q none) same
          ∙ get_or-set_self vm.tables q _ none below)
    own q (suc i, lt, at) below = f.own q (i, omega arith, at) (rw length-set below)

-- The forks of the pagers, where none fails.
pub forks_lem :
    (pager_of : ℕ → Option ℕ) (n : ℕ) (vm : Vm)
    → vm.initialized ≡ true
    → ((i : ℕ) → i < n → pager_of i ≢ none)
    → (after : List (Option Table)) × (fork_pagers pager_of n vm
        ≡ some (record vm { tables = after }))
      × Forked pager_of n vm after
unfolding fork_pagers
forks_lem pager_of zero vm ready all = (
  vm.tables,
  refl,
  record {
    sized = refl;
    own = λ pid (i, lt, at) below. absurd (omega (arith, lt));
    keeps = λ pid e. e;
    others = λ pid out. refl;
  },
)
forks_lem pager_of (suc n) vm ready all = elim (Option-cases (pager_of 0)) [
  | inl e ↦ absurd (all 0 (omega arith) e)
  | inr (pid, e) ↦
      let (after, forked, f) =
        forks_lem (λ i. pager_of (suc i)) n (given pid vm) ready
          (λ i lt. all (suc i) (omega arith)) in
      (
        after,
        rw (e, fork_pagers, allocates pid vm ready) forked,
        Forked-next pager_of n pid vm after e f,
      )
]
