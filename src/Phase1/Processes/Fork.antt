-- ===== src/Phase1/Processes/Fork.antt =====
-- `P1_Fork`: its checks, the slot that it takes, and the queue and the table that it leaves.
use small_os_simulator.Common.{
  ℕ, subst, if_intro, get_or-set_self, find_index-holds, find_index-fails, not, ◌&&◌, ltb,
  find_index, if◌then◌else◌, suc, ◌<◌, ◌≡◌, ◌≢◌, refl, sym, ◌∙◌, ap, List, [], ◌∷◌, arith, length,
  set, All, All-append, ltb, Bool-cases, inl, inr, get_or-set, length-set, if◌then◌else◌, pos_part,
  ◌++◌, ◌≤◌, Option, none, some, true, false, Bool, ◌+◌,
}
use small_os_simulator.Phase1.Types.{Config, Pcb, Sched, Node, blank, Name, Code, same_name}
use small_os_simulator.Phase1.Queue.{count, insert}
use small_os_simulator.Phase1.Queue.Counts.{insert_absent, count-append}
use small_os_simulator.Phase1.Procs.{proc}
use small_os_simulator.Phase1.Procs.Valid.{IsValid, room, Priced}
use small_os_simulator.Phase1.Processes.{
  ForkArgs, created, scan, check_name, fork_check, fork, start, admit, enlist, forked, settle,
  name_of, wants_cpu,
}
use small_os_simulator.Phase1.Processes.Keep.{add_child-IsValid}
use small_os_simulator.Phase1.Contexts.{Contexts, context_create}

abbrev pub unused : Pcb → Bool
unused p = not p.is_being_used

-- What the loop over the table leaves in `j` when it finds no duplicate.
abbrev or_first : Option ℕ → ℕ → List Pcb → Option ℕ
or_first (some k) i ps = some k
or_first none i ps =
    if ltb (find_index unused ps) (length ps) then some (i + find_index unused ps) else none

abbrev pub Differs : Name → Pcb → Type 0
Differs name p = (p.is_being_used && same_name p.name name) ≡ false

abbrev next_free : Pcb → ℕ → Option ℕ → Option ℕ
next_free p i j = if p.is_being_used then j else elim j [ none ↦ some i | some k ↦ some k ]

or_first_step :
    (p : Pcb) (i : ℕ) (j : Option ℕ) (ps : List Pcb)
    → or_first (next_free p i j) (suc i) ps ≡ or_first j i (p ∷ ps)
unfolding find_index
or_first_step p i (some k) ps = elim (Bool-cases p.is_being_used) [ inl u ↦ rw u | inr u ↦ rw u ]
or_first_step p i none ps = elim (Bool-cases p.is_being_used) [
  | inl u ↦ rw u (ground arith)
  | inr u ↦ rw u (ground arith)
]

scan_success :
    (name : Name) (i : ℕ) (j : Option ℕ) (procs : List Pcb) (r : Option ℕ)
    → scan name i j procs ≡ (Code.success, r)
    → All (Differs name) procs × (r ≡ or_first j i procs)
unfolding scan find_index
scan_success name i none [] r e = (tt, ground arith)
scan_success name i (some k) [] r e = (tt, ground arith)
scan_success name i j (p ∷ ps) r e = elim (Bool-cases (p.is_being_used && same_name p.name name)) [
  | inl m ↦ let e' = rw m at e in absurd (ground arith)
  | inr m ↦
      let ih = scan_success name (suc i) (next_free p i j) ps r (rw m at e) in
      ((m, ih.0), ih.1 ∙ or_first_step p i j ps)
]

-- What the checks of `P1_Fork` have established when they let it go on with slot `j`.
pub record Admits (c : Config) (a : ForkArgs) (s : Sched) (j : ℕ) : Type 0 where
  pub slot : j < length s.procs
  pub is_free : (proc s j).is_being_used ≡ false
  pub lowest : (i : ℕ) → i < j → (proc s i).is_being_used ≡ true
  pub given : a.name ≢ none
  pub fits : length (name_of a.name) ≤ c.max_name
  pub fresh : All (Differs (name_of a.name)) s.procs

settle_success :
    (r : Code × Option ℕ) (j : ℕ) {code : Code}
    → settle r ≡ (code, some j)
    → r ≡ (Code.success, some j)
settle_success (Code.success, none) j e = cc
settle_success (Code.success, some k) j e = cc
settle_success (code, none) j e = cc
settle_success (code, some k) j e = cc

-- The values of `or_first none 0`, if it is a slot.
or_first_slot :
    (procs : List Pcb) (j : ℕ)
    → some j ≡ or_first none 0 procs
    → (j ≡ find_index unused procs) × (j < length procs)
or_first_slot procs j e = ground arith

check_name-Admits :
    (c : Config) (a : ForkArgs) (s : Sched) (j : ℕ) (name : Option Name) {code : Code}
    → a.name ≡ name
    → check_name c s.procs name ≡ (code, some j)
    → Admits c a s j
unfolding check_name
check_name-Admits c a s j none named e = absurd (ground arith)
check_name-Admits c a s j (some name) named e = elim (Bool-cases (ltb c.max_name (length name))) [
  | inl long ↦ let e' = rw long at e in absurd (ground arith)
  | inr fits ↦
      let found = scan_success name 0 none s.procs (some j) (settle_success _ j (rw fits at e)) in
      let at = or_first_slot s.procs j found.1 in
      record {
        slot = at.1;
        is_free =
            rw at.0 (ground (arith, find_index-holds unused s.procs blank (rw (← at.0) at.1)));
        lowest = λ i lt. ground (arith, find_index-fails unused s.procs i blank (rw (← at.0) lt));
        given = λ n. absurd (ground arith);
        fits = rw named (ground arith);
        fresh = rw named found.0;
      }
]

fork_check-check_name :
    (c : Config) (a : ForkArgs) (s : Sched) (j : ℕ) {code : Code}
    → fork_check c a s ≡ (code, some j)
    → check_name c s.procs a.name ≡ (code, some j)
unfolding fork_check
fork_check-check_name c a s j e = ground arith

pub fork_check-Admits :
    (c : Config) (a : ForkArgs) (s : Sched) (j : ℕ) {code : Code}
    → fork_check c a s ≡ (code, some j)
    → Admits c a s j
fork_check-Admits c a s j e =
    check_name-Admits c a s j a.name refl (fork_check-check_name c a s j e)

Priced-set_absent :
    (procs : List Pcb) (j : ℕ) (p : Pcb) (q : List Node)
    → j < length procs
    → count j q ≡ 0
    → All (Priced procs) q
    → All (Priced (set procs j p)) q
unfolding count
Priced-set_absent procs j p [] lt e h = tt
Priced-set_absent procs j p (n ∷ q) lt e h = (
  ground (arith, get_or-set procs j n.pid p blank lt),
  Priced-set_absent procs j p q lt (ground arith) h.1,
)

module _ {c : Config} {s : Sched} (v : IsValid c s) (j : ℕ) where
  module _ (lt : j < c.max_proc) (free : (proc s j).is_being_used ≡ false) where
    absent : count j s.queue ≡ 0
    absent = ground (arith, v.listed j)

    queued-IsValid :
        (a : ForkArgs) (cid : ℕ)
        → IsValid c (record s {
          procs = set s.procs j (forked a cid s (proc s j));
          queue = (insert c.max_proc j (pos_part a.priority) s.queue).1;
        })
    unfolding count
    queued-IsValid a cid = rw inserted (record {
      sized = length-set s.procs j _ ∙ v.sized;
      listed = λ i.
          rw (get_or-set s.procs j i _ blank (rw v.sized lt), count-append)
            (ground (arith, v.listed i, absent));
      priced =
          All-append _ s.queue _
            (Priced-set_absent s.procs j _ s.queue (rw v.sized lt) absent v.priced)
            (ap (λ p. p.priority) (get_or-set_self s.procs j _ blank (rw v.sized lt)), tt);
    })
      where
        inserted :
            (insert c.max_proc j (pos_part a.priority) s.queue).1
            ≡ s.queue ++ record { pid = j; priority = pos_part a.priority } ∷ []
        inserted =
            ap (λ r. r.1)
              (insert_absent c.max_proc j _ s.queue absent
                (room v j lt (sym (v.listed j) ∙ absent)))

    pub enlist-IsValid : (a : ForkArgs) (cid : ℕ) → IsValid c (enlist c a cid j s)
    unfolding enlist
    enlist-IsValid a cid =
        if_intro (IsValid c) s.is_first (queued-IsValid a cid)
          (add_child-IsValid _ j (queued-IsValid a cid))

first-IsValid :
    {c : Config} {s : Sched} (b : Bool) → IsValid c s → IsValid c (record s { is_first = b })
first-IsValid b v = record { sized = v.sized; listed = v.listed; priced = v.priced }

-- What a fork that goes through has established, and what it leaves.
pub record ForkedWell (c : Config) (a : ForkArgs) (s : Sched) (j : ℕ) (t : Sched) : Type 0 where
  pub admits : Admits c a s j
  pub valid : IsValid c t

admit-IsValid :
    {c : Config} {s t : Sched} (a : ForkArgs) (j : ℕ) (r : Code × Option ℕ × Contexts) {i : ℕ}
    {d : Bool} {y : Contexts}
    → IsValid c s
    → Admits c a s j
    → admit c a j s r ≡ created i d t y
    → (i ≡ j) × IsValid c t
unfolding admit
admit-IsValid a j (code, none, x) v ok e = cc
admit-IsValid {c} {s} {t} a j (code, some cid, x) v ok e =
    let u = enlist c a cid j s in
    let left = record u { is_first = u.is_first && not (wants_cpu a u) } in
    let same : left ≡ t = cc in
    (
      cc,
      subst (IsValid c) same
          (first-IsValid _ (enlist-IsValid v j (omega (arith, ok.slot, v.sized)) ok.is_free a cid)),
    )

start-ForkedWell :
    {c : Config} {s t : Sched} (wrapper : ℕ) (a : ForkArgs) (x : Contexts) (r : Code × Option ℕ)
    {i : ℕ} {d : Bool} {y : Contexts}
    → IsValid c s
    → fork_check c a s ≡ r
    → start c wrapper a s x r ≡ created i d t y
    → ForkedWell c a s i t
unfolding start
start-ForkedWell wrapper a x (code, none) v k e = cc
start-ForkedWell {c} {s} {t} wrapper a x (code, some j) v k e =
    let ok = fork_check-Admits c a s j k in
    let r = admit-IsValid a j (context_create c wrapper a.arg a.stacksize x) v ok e in
    subst (λ n. ForkedWell c a s n t) (sym r.0) (record { admits = ok; valid = r.1 })

-- From a scheduler whose queue and table agree, when `P1_Fork` creates a process, its slot is the
-- first one that is not in use, the name is given, not too long and no name of a process in use,
-- and what `P1_Fork` leaves before it dispatches agrees again.
pub fork-ForkedWell :
    {c : Config} {s t : Sched} (wrapper : ℕ) (a : ForkArgs) (x : Contexts) {i : ℕ} {d : Bool}
    {y : Contexts}
    → IsValid c s
    → fork c wrapper a s x ≡ created i d t y
    → ForkedWell c a s i t
unfolding fork
fork-ForkedWell {c} {s} wrapper a x v e = start-ForkedWell wrapper a x (fork_check c a s) v refl e
