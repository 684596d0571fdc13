-- ===== src/Phase1/Contexts.antt =====
-- phase1a.c: the context table (`P1ContextInit`, `P1ContextCreate`, `P1ContextSwitch`,
-- `P1ContextFree`, `launch`), as it stands with interrupts off. What the functions ask of USLOSS, of
-- the page tables and of the C heap is a log of calls, newest first.
pub mod Laws
use small_os_simulator.Common.{
  ℕ, Bool, true, false, not, Option, none, some, List, [], ◌∷◌, ltb, if◌then◌else◌, length, get_or,
  set, find_index, ℤ, pos, minus_one, index, ltb_ℤ, eqb_ℤ, pos_part,
}
use small_os_simulator.Phase1.Types.{Config, Code}

-- `Context`, with the size of the stack; functions and arguments are known by their addresses.
pub record Context : Type 0 where
  pub start_func : ℕ
  pub start_arg : ℕ
  pub is_being_used : Bool
  pub stack : ℤ

abbrev pub blank_context : Context
blank_context = record { start_func = 0; start_arg = 0; is_being_used = false; stack = pos 0 }

-- `P3_AllocatePageTable`, `USLOSS_ContextInit` (with the stack size), `USLOSS_ContextSwitch` (none for
-- NULL), `P3_FreePageTable` and the `free` of a stack.
pub data Call : Type 0 where
  allocate_page_table : ℕ → Call
  context_init : ℕ → ℤ → Call
  context_switch : Option ℕ → ℕ → Call
  free_page_table : ℕ → Call
  free_stack : ℕ → Call

-- The statics `contexts` and `CID`, and the calls made.
pub record Contexts : Type 0 where
  pub slots : List Context
  pub cid : ℤ
  pub calls : List Call

abbrev pub context : Contexts → ℕ → Context
context s i = get_or s.slots i blank_context

abbrev pub is_free : Context → Bool
is_free x = not x.is_being_used

-- The function and argument that `launch` calls.
unfoldable pub launch : Contexts → ℕ × ℕ
launch s = let x = context s (pos_part s.cid) in (x.start_func, x.start_arg)

unfoldable pub clear_slots : List Context → List Context
clear_slots [] = []
clear_slots (x ∷ xs) = record x { is_being_used = false } ∷ clear_slots xs

-- `P1ContextInit`. `CID` keeps its value.
unfoldable pub context_table_init : Contexts → Contexts
unfolding clear_slots
context_table_init s = record s { slots = clear_slots s.slots }

-- The part of `P1ContextCreate` that takes slot `id`.
unfoldable pub take_slot : ℕ → ℕ → ℤ → ℕ → Contexts → Contexts
take_slot func arg stacksize id s = record s {
  slots =
      set s.slots id
        (record { start_func = func; start_arg = arg; is_being_used = true; stack = stacksize });
  calls = context_init id stacksize ∷ allocate_page_table id ∷ s.calls;
}

-- `P1ContextCreate`: the code, what goes through `cid`, and the table.
unfoldable pub context_create : Config → ℕ → ℕ → ℤ → Contexts → Code × Option ℕ × Contexts
unfolding take_slot
context_create c func arg stacksize s =
    let id = find_index is_free s.slots in
    if ltb_ℤ stacksize (pos c.min_stack)
    then (Code.invalid_stack, none, s)
    else if ltb id (length s.slots)
    then (Code.success, some id, take_slot func arg stacksize id s)
    else (Code.too_many_contexts, none, s)

-- `P1ContextSwitch`
unfoldable pub switch_to : ℤ → Contexts → Code × Contexts
switch_to cid s = elim (index (length s.slots) cid) [
  | none ↦ (Code.invalid_cid, s)
  | some i ↦
      if (context s i).is_being_used
      then (
        Code.success,
        record s {
          cid = pos i;
          calls =
              context_switch (if eqb_ℤ s.cid minus_one then none else some (pos_part s.cid)) i
              ∷ s.calls;
        },
      )
      else (Code.invalid_cid, s)
]

-- `P1ContextFree`
unfoldable pub context_free : ℤ → Contexts → Code × Contexts
context_free cid s = elim (index (length s.slots) cid) [
  | none ↦ (Code.invalid_cid, s)
  | some i ↦
      if (context s i).is_being_used
      then (
        Code.success,
        record s {
          slots = set s.slots i (record (context s i) { is_being_used = false });
          calls = free_stack i ∷ free_page_table i ∷ s.calls;
        },
      )
      else (Code.invalid_cid, s)
]
