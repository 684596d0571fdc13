-- ===== src/Phase3/Swap/Clock.antt =====
-- The clock hand of `P3SwapOut`.
use small_os_simulator.Common.{
  ℕ, zero, suc, ◌+◌, ◌*◌, ◌%◌, ◌-◌, ◌<◌, ◌≡◌, ◌≢◌, sym, ◌∙◌, ap, subst, false, none, some, List,
  arith, ◌==◌, Bool-cases, inl, inr, ==→eq, ==→ne,
}
use native.Mathlib.Decide.{dec_lt}
use native.Mathlib.Nat.{mod-lt, mod-eq_of_lt, mod-add-mod, mod-eq-sub-mod}
use small_os_simulator.Phase3.Swap.{Mmu, Info, info, clock, unreference}

module _ (mmu : Mmu) (frames : ℕ) (infos : List Info) where
  open mmu use {Bits, get_access, set_access, get-set_self, get-set_ne}

  -- Clearing a reference bit clears no bit of another frame and sets none.
  unreference_keeps :
      (f g : ℕ) (m : Bits)
      → (get_access m g).referenced ≡ false
      → (get_access (unreference mmu f m) g).referenced ≡ false
  unreference_keeps f g m h = elim (Bool-cases (f == g)) [
    | inl e ↦
        subst (λ k. (get_access (unreference mmu f m) k).referenced ≡ false) (==→eq f g e)
          (ap (λ a. a.referenced) (get-set_self m f _))
    | inr n ↦ ap (λ a. a.referenced) (get-set_ne m f g _ (==→ne f g n)) ∙ h
  ]

  -- The hand after a step is one step nearer.
  nearer : (next d x : ℕ) → (next + suc d) % frames ≡ x → (suc (next % frames) + d) % frames ≡ x
  nearer next d x at = ap (λ k. k % frames) (omega arith) ∙ mod-add-mod next frames (suc d) ∙ at

  here : (next x : ℕ) → (next + 0) % frames ≡ x → next % frames ≡ x
  here next x at = ap (λ k. k % frames) (omega arith) ∙ at

  -- With the bit of a frame clear and the hand `d` steps before it, the clock stops.
  clock_reaches :
      (d fuel next x : ℕ) (m : Bits)
      → d < fuel
      → (next + d) % frames ≡ x
      → (info infos x).is_busy ≡ false
      → (get_access m x).referenced ≡ false
      → clock mmu fuel frames next infos m ≢ none
  unfolding clock
  clock_reaches d zero next x m more at idle clear = absurd (omega arith)
  clock_reaches zero (suc fuel) next x m more at idle clear =
      let e = here next x at in rw (e, idle, clear) (λ p. cc)
  clock_reaches (suc d) (suc fuel) next x m more at idle clear =
      let near = nearer next d x at in
      let less : d < fuel = omega arith in
      let hand = next % frames in
      ground (
        arith,
        clock_reaches d fuel (suc hand) x m less near idle clear,
        clock_reaches d fuel (suc hand) x (unreference mmu hand m) less near idle
            (unreference_keeps hand x m clear),
      )

  past : (x : ℕ) → x < frames → (x + frames) % frames ≡ x
  past x lt = omega (
    arith,
    mod-eq-sub-mod {n = x + frames} {m = frames} (omega arith),
    mod-eq_of_lt {n = x + frames - frames} {m = frames} (omega arith),
  )

  -- A whole round brings the hand back.
  round : (x : ℕ) → x < frames → (suc x + (frames - 1)) % frames ≡ x
  round x lt = ap (λ k. k % frames) (omega arith) ∙ past x lt

  -- Two rounds of the hand are enough if one frame is not busy.
  clock_meets :
      (d fuel next x : ℕ) (m : Bits)
      → d + frames < fuel
      → (next + d) % frames ≡ x
      → x < frames
      → (info infos x).is_busy ≡ false
      → clock mmu fuel frames next infos m ≢ none
  unfolding clock
  clock_meets d zero next x m more at lt idle = absurd (omega arith)
  clock_meets zero (suc fuel) next x m more at lt idle =
      let e = here next x at in
      rw (e, idle)
        (elim (Bool-cases (get_access m x).referenced) [
          | inl set ↦ rw set (
              clock_reaches (frames - 1) fuel (suc x) x (unreference mmu x m) (omega arith)
                (round x lt) idle (ap (λ a. a.referenced) (get-set_self m x _)))
          | inr clear ↦ rw clear (λ p. cc)
        ])
  clock_meets (suc d) (suc fuel) next x m more at lt idle =
      let near = nearer next d x at in
      let less : d + frames < fuel = omega arith in
      let hand = next % frames in
      ground (
        arith,
        clock_meets d fuel (suc hand) x m less near lt idle,
        clock_meets d fuel (suc hand) x (unreference mmu hand m) less near lt idle,
      )

  distance : (next x : ℕ) → x < frames → (d : ℕ) × (d < frames) × ((next + d) % frames ≡ x)
  distance next x lt = elim (dec_lt x (next % frames)) [
    | yes behind ↦ (
      x + frames - next % frames,
      omega arith,
      sym (mod-add-mod next frames _) ∙ ap (λ k. k % frames) (omega (arith, bound)) ∙ past x lt,
    )
    | no ahead ↦ (
      x - next % frames,
      omega arith,
      sym (mod-add-mod next frames _) ∙ ap (λ k. k % frames) (omega arith) ∙ mod-eq_of_lt lt,
    )
  ]
    where
      bound : next % frames < frames
      bound = mod-lt next (omega arith)

  -- If a frame of the table is not busy, the clock of `P3SwapOut` finds its target within two
  -- rounds of the hand, from wherever the hand is and whatever the reference bits are.
  pub clock_total :
      (next x : ℕ) (m : Bits)
      → x < frames
      → (info infos x).is_busy ≡ false
      → clock mmu (2 * frames) frames next infos m ≢ none
  clock_total next x m lt idle =
      let (d, short, at) = distance next x lt in
      clock_meets d (2 * frames) next x m (omega arith) at lt idle

  -- What the clock of `P3SwapOut` stops at is a frame of the table, if there is one, that is not
  -- busy and is not referenced.
  pub clock_sound :
      (fuel next target : ℕ) (m m' : Bits)
      → 0 < frames
      → clock mmu fuel frames next infos m ≡ some (target, m')
      → (target < frames)
        × ((info infos target).is_busy ≡ false)
        × ((get_access m' target).referenced ≡ false)
  unfolding clock
  clock_sound zero next target m m' pos e = cc
  clock_sound (suc fuel) next target m m' pos e =
      elim (Bool-cases (info infos (next % frames)).is_busy) [
        | inl busy ↦ clock_sound fuel (suc (next % frames)) target m m' pos (rw busy at e)
        | inr idle ↦ elim (Bool-cases (get_access m (next % frames)).referenced) [
          | inl set ↦ clock_sound fuel (suc (next % frames)) target _ m' pos (rw (idle, set) at e)
          | inr clear ↦
              let e' = rw (idle, clear) at e in
              let at : next % frames ≡ target = cc in
              let left : m ≡ m' = cc in
              (rw (← at) (mod-lt next pos), rw (← at) idle, rw (← at, ← left) clear)
        ]
      ]
