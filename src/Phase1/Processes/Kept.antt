-- ===== src/Phase1/Processes/Kept.antt =====
-- What `P1_Fork` and the first part of `P1_Quit` keep of the processes that have quit or wait on a
-- semaphore.
use small_os_simulator.Common.{
  ℕ, ◌≡◌, refl, subst, if_intro, Bool, false, not, ◌&&◌, Option, none, some, List, [], ◌∷◌, inl,
  inr, ℤ, pos, arith,
}
use small_os_simulator.Phase1.Types.{Config, Code, State, Pcb, Sched}
use small_os_simulator.Phase1.Procs.{proc, put_proc}
use small_os_simulator.Phase1.Procs.Keeps.{
  Keeps, Keeps-refl, Keeps-same, Keeps-trans, put_proc-Keeps, set_state-Keeps, Movable,
}
use small_os_simulator.Phase1.Contexts.{Contexts, context_create}
use small_os_simulator.Phase1.Processes.{
  ForkArgs, created, fork, fork_check, start, admit, enlist, forked, add_child, wants_cpu, retire,
  reparent,
}
use small_os_simulator.Phase1.Processes.Fork.{fork_check-Admits}

-- A write that leaves the state, the semaphore and the quit children.
same_put :
    {but : ℤ} {s : Sched} (i : ℕ) (p : Pcb)
    → p.is_being_used ≡ (proc s i).is_being_used
    → p.state ≡ (proc s i).state
    → p.sid ≡ (proc s i).sid
    → p.quit_children ≡ (proc s i).quit_children
    → Keeps but s (put_proc s i p)
same_put i p used state sid lists =
    put_proc-Keeps i p (inl lists) (λ g. rw (used, state) g) (λ k n h. rw (used, state, sid) h)

add_child-Keeps : {but : ℤ} {s : Sched} (parent child : ℕ) → Keeps but s (add_child s parent child)
add_child-Keeps parent child = same_put parent _ refl refl refl refl

pub reparent-Keeps : {but : ℤ} (ks : List ℕ) (s : Sched) → Keeps but s (reparent ks s)
unfolding reparent
reparent-Keeps [] s = Keeps-refl s
reparent-Keeps (k ∷ ks) s =
    Keeps-trans (Keeps-trans (same_put k _ refl refl refl refl) (add_child-Keeps 0 k))
      (reparent-Keeps ks _)

pub retire-Keeps :
    {but : ℤ} (c : Config) (pid : ℕ) (status : ℤ) (s : Sched)
    → Movable but pid (proc s pid)
    → Keeps but s (retire c pid status s)
unfolding retire
retire-Keeps {but} c pid status s m =
    Keeps-trans
      (set_state-Keeps c (pos pid) State.quit (pos 0) s
        (λ q e. subst (λ k. Movable but k (proc s k)) (ground (arith, e)) m))
      (same_put pid _ refl refl refl refl)

queued-Keeps :
    {but : ℤ} (a : ForkArgs) (j cid : ℕ) (s : Sched)
    → (proc s j).is_being_used ≡ false
    → Keeps but s (put_proc s j (forked a cid s (proc s j)))
queued-Keeps a j cid s unused = put_proc-Keeps j _ (inr refl) (λ g. cc) (λ k n h. cc)

module _ {but : ℤ} (c : Config) (a : ForkArgs) (j : ℕ) where
  enlist-Keeps :
      (cid : ℕ) (s : Sched) → (proc s j).is_being_used ≡ false → Keeps but s (enlist c a cid j s)
  unfolding enlist
  enlist-Keeps cid s unused =
      let queued = Keeps-trans (queued-Keeps a j cid s unused) (Keeps-same refl) in
      if_intro (Keeps but s) _ queued (Keeps-trans queued (add_child-Keeps _ j))

  admit-Keeps :
      {s t : Sched} (r : Code × Option ℕ × Contexts) {i : ℕ} {d : Bool} {y : Contexts}
      → (proc s j).is_being_used ≡ false
      → admit c a j s r ≡ created i d t y
      → Keeps but s t
  unfolding admit
  admit-Keeps (code, none, x) unused e = cc
  admit-Keeps {s} {t} (code, some cid, x) unused e =
      let u = enlist c a cid j s in
      let left = record u { is_first = u.is_first && not (wants_cpu a u) } in
      let same : left ≡ t = cc in
      subst (Keeps but s) same (Keeps-trans (enlist-Keeps cid s unused) (Keeps-same refl))

start-Keeps :
    {but : ℤ} (c : Config) {s t : Sched} (wrapper : ℕ) (a : ForkArgs) (x : Contexts)
    (r : Code × Option ℕ) {i : ℕ} {d : Bool} {y : Contexts}
    → fork_check c a s ≡ r
    → start c wrapper a s x r ≡ created i d t y
    → Keeps but s t
unfolding start
start-Keeps c wrapper a x (code, none) k e = cc
start-Keeps c {s} wrapper a x (code, some j) k e =
    admit-Keeps c a j (context_create c wrapper a.arg a.stacksize x)
      ((fork_check-Admits c a s j k).is_free) e

-- A fork keeps the processes that have quit or wait on a semaphore.
pub fork-Keeps :
    {but : ℤ} (c : Config) {s t : Sched} (wrapper : ℕ) (a : ForkArgs) (x : Contexts) {i : ℕ}
    {d : Bool} {y : Contexts}
    → fork c wrapper a s x ≡ created i d t y
    → Keeps but s t
unfolding fork
fork-Keeps c {s} wrapper a x e = start-Keeps c wrapper a x (fork_check c a s) refl e
