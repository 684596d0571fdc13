-- ===== src/Phase1/Contexts/Laws.antt =====
-- What the operations of the context table do on each of their branches.
use small_os_simulator.Common.{
  ℕ, ◌<◌, ◌≡◌, ◌≢◌, refl, sym, subst, true, false, none, some, ◌∷◌, arith, length, find_index,
  find_index-holds, find_index-fails, find_index-le, get_or-set_self, get_or-set_ne, length-set, ℤ,
  pos, negsuc, ltb_ℤ, ltb, Bool-cases, inl, inr, ◌⊎◌,
}
use small_os_simulator.Phase1.Types.{Config, Code}
use small_os_simulator.Phase1.Contexts.{
  Contexts, context, is_free, take_slot, context_create, context_free, blank_context,
  allocate_page_table, context_init,
}

-- The lowest slot that is not in use.
pub record IsLowestFree (s : Contexts) (i : ℕ) : Type 0 where
  pub in_table : i < length s.slots
  pub is_unused : (context s i).is_being_used ≡ false
  pub lowest : (j : ℕ) → j < i → (context s j).is_being_used ≡ true

-- What `P1ContextCreate` leaves of the table when it takes slot `i`.
pub record Creates (func arg : ℕ) (stacksize : ℤ) (s : Contexts) (i : ℕ) (t : Contexts)
    : Type 0 where
  pub slot : IsLowestFree s i
  pub entry :
      context t i
      ≡ record { start_func = func; start_arg = arg; is_being_used = true; stack = stacksize }
  pub others : (j : ℕ) → j ≢ i → context t j ≡ context s j
  pub calls : t.calls ≡ context_init i stacksize ∷ allocate_page_table i ∷ s.calls
  pub cid : t.cid ≡ s.cid

take_slot-Creates :
    (func arg : ℕ) (stacksize : ℤ) (s : Contexts)
    → find_index is_free s.slots < length s.slots
    → Creates func arg stacksize s
        (find_index is_free s.slots)
        (take_slot func arg stacksize (find_index is_free s.slots) s)
unfolding take_slot
take_slot-Creates func arg stacksize s lt = record {
  slot = record {
    in_table = lt;
    is_unused = ground (arith, find_index-holds is_free s.slots blank_context lt);
    lowest = λ j h. ground (arith, find_index-fails is_free s.slots j blank_context h);
  };
  entry = get_or-set_self s.slots _ _ blank_context lt;
  others = λ j ne. get_or-set_ne s.slots _ j _ blank_context (λ e. ne (sym e));
  calls = refl;
  cid = refl;
}

-- `P1ContextCreate` that yields a context takes the first slot that is not in use, fills it with
-- the given function, argument and stack size, allocates the page table before it initialises the
-- context, and changes no other slot and not the current context.
pub context_create-Creates :
    (c : Config) (func arg : ℕ) (stacksize : ℤ) (s : Contexts) {i : ℕ} {t : Contexts} {code : Code}
    → context_create c func arg stacksize s ≡ (code, some i, t)
    → Creates func arg stacksize s i t
unfolding context_create
context_create-Creates c func arg stacksize s {i} {t} e =
    elim (Bool-cases (ltb_ℤ stacksize (pos c.min_stack))) [
      | inl small ↦ let e' = rw small at e in absurd (ground arith)
      | inr fits ↦ elim (Bool-cases (ltb (find_index is_free s.slots) (length s.slots))) [
        | inl lt ↦
            let e' = rw (fits, lt) at e in
            let at : find_index is_free s.slots ≡ i = ground arith in
            let left : take_slot func arg stacksize (find_index is_free s.slots) s ≡ t =
              ground arith in
            subst (λ k. Creates func arg stacksize s k t) at
              (subst (Creates func arg stacksize s _) left
                (take_slot-Creates func arg stacksize s (ground arith)))
        | inr full ↦ let e' = rw (fits, full) at e in absurd (ground arith)
      ]
    ]

-- When `P1ContextCreate` yields no context it changes nothing, and either the stack is too small,
-- with the code P1_INVALID_STACK, or every slot is in use, with the code P1_TOO_MANY_CONTEXTS.
pub context_create_fails :
    (c : Config) (func arg : ℕ) (stacksize : ℤ) (s : Contexts) {code : Code} {t : Contexts}
    → context_create c func arg stacksize s ≡ (code, none, t)
    → (t ≡ s)
      × (((code ≡ Code.invalid_stack) × (ltb_ℤ stacksize (pos c.min_stack) ≡ true))
          ⊎ ((code ≡ Code.too_many_contexts)
              × ((j : ℕ) → j < length s.slots → (context s j).is_being_used ≡ true)))
unfolding context_create
context_create_fails c func arg stacksize s e =
    elim (Bool-cases (ltb_ℤ stacksize (pos c.min_stack))) [
      | inl small ↦ let e' = rw small at e in (ground arith, inl (ground arith, small))
      | inr fits ↦ elim (Bool-cases (ltb (find_index is_free s.slots) (length s.slots))) [
        | inl lt ↦ let e' = rw (fits, lt) at e in absurd (ground arith)
        | inr full ↦
            let e' = rw (fits, full) at e in
            (
              ground arith,
              inr (
                ground arith,
                λ j h. ground (
                  arith,
                  find_index-le is_free s.slots,
                  find_index-fails is_free s.slots j blank_context
                      (ground (arith, find_index-le is_free s.slots)),
                ),
              ),
            )
      ]
    ]

-- A second `P1ContextFree` of the same cid, as `P1GetChildStatus` makes it, returns P1_INVALID_CID
-- and changes nothing, whatever the first one returned.
pub context_free_twice :
    (cid : ℤ) (s : Contexts)
    → context_free cid (context_free cid s).1 ≡ (Code.invalid_cid, (context_free cid s).1)
unfolding context_free
context_free_twice (negsuc n) s = refl
context_free_twice (pos n) s = ground (
  arith,
  length-set s.slots n (record (context s n) { is_being_used = false }),
  get_or-set_self s.slots n (record (context s n) { is_being_used = false }) blank_context,
)
