-- ===== src/Phase1/Interrupts.antt =====
-- The interrupt bit of the processor status word: `P1EnableInterrupts` and `P1DisableInterrupts` of
-- phase1a.c, and the bracket of the two that the operations of phase 1 stand in.
use small_os_simulator.Common.{Bool, true, false, Option, none, some, if◌then◌else◌}

-- The bits USLOSS_PSR_CURRENT_MODE and USLOSS_PSR_CURRENT_INT of the word, which `USLOSS_PsrSet`
-- accepts in kernel mode.
pub record Psr : Type 0 where
  pub kernel_mode : Bool
  pub interrupts : Bool

-- `P1EnableInterrupts`; none where it is an illegal instruction.
unfoldable pub enable_interrupts : Psr → Option Psr
enable_interrupts w = if w.kernel_mode then some (record w { interrupts = true }) else none

-- `P1DisableInterrupts`, with whether they were enabled.
unfoldable pub disable_interrupts : Psr → Option (Bool × Psr)
disable_interrupts w =
    if w.kernel_mode then some (w.interrupts, record w { interrupts = false }) else none

-- `enable(previous)`
unfoldable pub restore : Bool → Psr → Option Psr
unfolding enable_interrupts
restore true w = enable_interrupts w
restore false w = some w
