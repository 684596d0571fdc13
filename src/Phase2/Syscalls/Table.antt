-- ===== src/Phase2/Syscalls/Table.antt =====
-- The table of system call handlers.
use small_os_simulator.Common.{
  ℕ, zero, suc, ◌<◌, ◌≤◌, ◌≡◌, refl, ◌∙◌, ap, ◌==◌, Option, none, some, List, [], ◌∷◌,
  if◌then◌else◌, pos, length, get_or, set, length-set, get_or-set, All, arith,
}
use small_os_simulator.Phase2.Syscalls.{
  clear_handlers, set_handler, install, Dispatched, calls, invalid_syscall, syscall_handler,
}

module _ {A : Type 0} where
  -- The handler that was set for a number last.
  abbrev pub latest : ℕ → Option A → List (ℕ × A) → Option A
  latest n h [] = h
  latest n h (e ∷ es) = latest n (if e.0 == n then some e.1 else h) es

  abbrev pub InRange : ℕ → ℕ × A → Type 0
  InRange most e = (0 < e.0) × (e.0 ≤ most)

  abbrev pub answer : Option A → Dispatched A
  answer none = invalid_syscall
  answer (some h) = calls h

  length-clear_handlers : (table : List (Option A)) → length (clear_handlers table) ≡ length table
  unfolding clear_handlers
  length-clear_handlers [] = refl
  length-clear_handlers (h ∷ hs) = ap suc (length-clear_handlers hs)

  get_or-clear_handlers :
      (table : List (Option A)) (n : ℕ) → get_or (clear_handlers table) n none ≡ none
  unfolding clear_handlers
  get_or-clear_handlers [] n = refl
  get_or-clear_handlers (h ∷ hs) zero = refl
  get_or-clear_handlers (h ∷ hs) (suc n) = get_or-clear_handlers hs n

  -- A table of the right length with the latest handlers.
  abbrev Installed : ℕ → List (ℕ × A) → List (Option A) → List (Option A) → Type 0
  Installed most es table t =
      (length t ≡ suc most) × ((n : ℕ) → get_or t n none ≡ latest n (get_or table n none) es)

  install-Installed :
      (most : ℕ) (es : List (ℕ × A)) (table : List (Option A))
      → length table ≡ suc most
      → All (InRange most) es
      → (t : List (Option A)) × (install most es table ≡ some t) × Installed most es table t
  unfolding install set_handler
  install-Installed most [] table sized ok = (table, refl, (sized, λ n. refl))
  install-Installed most (e ∷ es) table sized ok =
      let next = set table e.0 (some e.1) in
      let ih = install-Installed most es next (length-set table e.0 _ ∙ sized) ok.1 in
      (
        ih.0,
        ground (arith, ih.1),
        (
          ih.2.0,
          λ n.
              ih.2.1 n
              ∙ ap (λ h. latest n h es)
                  (get_or-set table e.0 n (some e.1) none (omega (arith, ok.0, sized))),
        ),
      )

  syscall_handler-get_or :
      (t : List (Option A)) (n : ℕ) (o : Option A)
      → n < length t
      → get_or t n none ≡ o
      → syscall_handler t (pos n) ≡ answer o
  unfolding syscall_handler
  syscall_handler-get_or t n none lt e = ground arith
  syscall_handler-get_or t n (some h) lt e = ground arith

  -- On a table of USLOSS_MAX_SYSCALLS + 1 entries that is cleared first, a row of calls of
  -- `P2_SetSyscallHandler` whose numbers are positive and not above the maximum meets no failed
  -- assertion. Of the table that is left, each system call number up to the maximum calls the
  -- handler that was set for it last, and is answered with P2_INVALID_SYSCALL where none was set.
  pub syscall_handler-install :
      (most : ℕ) (es : List (ℕ × A)) (table : List (Option A))
      → length table ≡ suc most
      → All (InRange most) es
      → (t : List (Option A)) × (install most es (clear_handlers table) ≡ some t)
        × ((n : ℕ) → n ≤ most → syscall_handler t (pos n) ≡ answer (latest n none es))
  unfolding syscall_handler
  syscall_handler-install most es table sized ok =
      let r =
        install-Installed most es (clear_handlers table) (length-clear_handlers table ∙ sized) ok in
      (
        r.0,
        r.1,
        λ n le.
            syscall_handler-get_or r.0 n _ (omega (arith, le, r.2.0))
              (r.2.1 n ∙ ap (λ h. latest n h es) (get_or-clear_handlers table n)),
      )
