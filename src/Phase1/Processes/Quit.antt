-- ===== src/Phase1/Processes/Quit.antt =====
-- `P1_Quit`: the queue and the table on its ways out.
use small_os_simulator.Common.{ℕ, zero, suc, refl, if_intro, ℤ, pos, negsuc}
use small_os_simulator.Phase1.Types.{Config, Sched, State}
use small_os_simulator.Phase1.Procs.{proc}
use small_os_simulator.Phase1.Procs.Valid.{IsValid}
use small_os_simulator.Phase1.Procs.SetState.{set_state-IsValid}
use small_os_simulator.Phase1.Processes.{quit, leaves, halts, retire, notify, Quitting, undefined}
use small_os_simulator.Phase1.Processes.Keep.{put_proc-IsValid, reparent-IsValid}

retire-IsValid :
    {c : Config} {s : Sched} (pid : ℕ) (status : ℤ)
    → IsValid c s
    → IsValid c (retire c pid status s)
unfolding retire
retire-IsValid pid status v =
    put_proc-IsValid pid _ (set_state-IsValid (pos pid) State.quit (pos 0) v) refl refl

notify-IsValid :
    {c : Config} {s : Sched} (pid parent : ℕ) → IsValid c s → IsValid c (notify c pid parent s)
unfolding notify
notify-IsValid {c} pid parent v =
    let u = put_proc-IsValid parent _ v refl refl in
    if_intro (IsValid c) _ (set_state-IsValid (pos parent) State.ready (pos 0) u) u

-- A way out of `P1_Quit`, with a valid scheduler where there is one.
pub data QuitsWell (c : Config) : Quitting → Type 0 where
  halting : {t : Sched} → IsValid c t → QuitsWell c (halts t)
  leaving : {t : Sched} → IsValid c t → QuitsWell c (leaves t)
  before_table : QuitsWell c undefined

quit_parent :
    {c : Config} {u : Sched} (pid : ℕ) (parent : ℤ)
    → IsValid c u
    → QuitsWell c (elim parent [ pos p ↦ leaves (notify c pid p u) | negsuc n ↦ undefined ])
quit_parent pid (pos p) v = leaving (notify-IsValid pid p v)
quit_parent pid (negsuc n) v = before_table

-- On every way out of `P1_Quit` that stays within the table, up to its dispatch or halt, the queue
-- and the table agree if they did before.
pub quit-QuitsWell :
    {c : Config} {s : Sched} (pid status : ℤ) → IsValid c s → QuitsWell c (quit c pid status s)
unfolding quit
quit-QuitsWell (negsuc n) status v = before_table
quit-QuitsWell {c} (pos zero) status v =
    if_intro (QuitsWell c) _ (halting (retire-IsValid 0 status v))
      (leaving (retire-IsValid 0 status v))
quit-QuitsWell {c} {s} (pos (suc pid)) status v = quit_parent (suc pid) _ (
    reparent-IsValid (proc (retire c (suc pid) status s) (suc pid)).children
      (retire-IsValid (suc pid) status v))
