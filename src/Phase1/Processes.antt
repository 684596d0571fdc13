-- ===== src/Phase1/Processes.antt =====
-- The life of a process in phase1b.c: `P1_Fork`, `P1_Quit` and `P1GetChildStatus`, on the statics of
-- phase1b.c and phase1a.c as they stand with interrupts off. The mode check, the interrupt switches and
-- the context switch that ends `P1_Fork` and `P1_Quit` are not in the model.
pub mod Keep
pub mod Fork
pub mod Quit
pub mod Gone
pub mod Children
pub mod Kept
pub mod Family
use small_os_simulator.Common.{
  ℕ, zero, suc, Bool, true, false, not, ◌&&◌, ◌||◌, Option, none, some, List, [], ◌∷◌, ◌++◌, ltb,
  ◌==◌, if◌then◌else◌, length, get_or, find_index, ℤ, pos, negsuc, minus_one, ltb_ℤ, eqb_ℤ,
  pos_part,
}
use small_os_simulator.Phase1.Types.{
  Config, Code, State, Pcb, Sched, Name, same_name, is_success, is_joining,
}
use small_os_simulator.Phase1.Queue.{insert}
use small_os_simulator.Phase1.Procs.{proc, put_proc, current, set_state}
use small_os_simulator.Phase1.Contexts.{Contexts, context_create, context_free}

-- The arguments of `P1_Fork`; none is the NULL name.
pub record ForkArgs : Type 0 where
  pub name : Option Name
  pub func : ℕ
  pub arg : ℕ
  pub stacksize : ℤ
  pub priority : ℤ
  pub tag : ℤ

abbrev pub bad_tag : ℤ → Bool
bad_tag tag = not (eqb_ℤ tag (pos 0)) && not (eqb_ℤ tag (pos 1))

-- The loop over the table: the code so far and the first slot that is not in use.
unfoldable pub scan : Name → ℕ → Option ℕ → List Pcb → Code × Option ℕ
scan name i j [] = (Code.success, j)
scan name i j (p ∷ ps) =
    let rest =
      scan name (suc i) (if p.is_being_used then j else elim j [ none ↦ some i | some k ↦ some k ])
        ps in
    if p.is_being_used && same_name p.name name then (Code.duplicate_name, j) else rest

-- What the loop leaves in `result` and `j`, with the test for a full table behind it.
abbrev pub settle : Code × Option ℕ → Code × Option ℕ
settle (code, j) =
    if is_success code
    then elim j [ none ↦ (Code.too_many_processes, none) | some k ↦ (code, some k) ]
    else (code, none)

-- The checks of `P1_Fork` from the name on.
unfoldable pub check_name : Config → List Pcb → Option Name → Code × Option ℕ
unfolding scan
check_name c procs none = (Code.name_is_null, none)
check_name c procs (some name) =
    if ltb c.max_name (length name)
    then (Code.name_too_long, none)
    else settle (scan name 0 none procs)

-- The checks of `P1_Fork`: the code, and the slot on success.
unfoldable pub fork_check : Config → ForkArgs → Sched → Code × Option ℕ
unfolding check_name
fork_check c a s =
    if bad_tag a.tag
    then (Code.invalid_tag, none)
    else if ltb_ℤ a.priority (pos 1)
        || ltb_ℤ (pos 6) a.priority
        || (not s.is_first && eqb_ℤ a.priority (pos 6))
    then (Code.invalid_priority, none)
    else if ltb_ℤ a.stacksize (pos c.min_stack)
    then (Code.invalid_stack, none)
    else check_name c s.procs a.name

abbrev pub name_of : Option Name → Name
name_of none = []
name_of (some name) = name

-- The PCB that `P1_Fork` writes over the old one. The priority and the tag have passed the checks.
abbrev pub forked : ForkArgs → ℕ → Sched → Pcb → Pcb
forked a cid s old = record old {
  cid = cid;
  cpu_time = 0;
  name = name_of a.name;
  priority = pos_part a.priority;
  tag = pos_part a.tag;
  func = a.func;
  is_being_used = true;
  children = [];
  quit_children = [];
  sid = minus_one;
  state = State.running;
  parent = if s.is_first then minus_one else pos (current s);
}

abbrev pub add_child : Sched → ℕ → ℕ → Sched
add_child s parent child =
    put_proc s parent (record (proc s parent) { children = (proc s parent).children ++ child ∷ [] })

-- The new process in slot `j`: written, queued, and listed with its parent.
unfoldable pub enlist : Config → ForkArgs → ℕ → ℕ → Sched → Sched
enlist c a cid j s =
    let written = put_proc s j (forked a cid s (proc s j)) in
    let queued = record written {
      queue = (insert c.max_proc j (pos_part a.priority) written.queue).1;
    } in
    if s.is_first then queued else add_child queued (current queued) j

-- `isTheFirstProcess == TRUE || priority < processTable[dispatchQueue[0].pid].priority`
abbrev pub wants_cpu : ForkArgs → Sched → Bool
wants_cpu a s = s.is_first || ltb_ℤ a.priority (pos (proc s (current s)).priority)

-- What `P1_Fork` has done before its call of `P1Dispatch`.
pub data Forked : Type 0 where
  refused : Code → Forked
  assert_failed : Forked
  -- the slot, whether `P1Dispatch(FALSE)` follows, and the statics
  created : ℕ → Bool → Sched → Contexts → Forked

-- The part of `P1_Fork` behind `P1ContextCreate`, whose result is given.
unfoldable pub admit : Config → ForkArgs → ℕ → Sched → Code × Option ℕ × Contexts → Forked
unfolding enlist
admit c a j s (code, none, x) = assert_failed
admit c a j s (code, some cid, x) =
    let t = enlist c a cid j s in
    created j (wants_cpu a t) (record t { is_first = t.is_first && not (wants_cpu a t) }) x

-- The part of `P1_Fork` behind the checks, whose result is given.
unfoldable pub start : Config → ℕ → ForkArgs → Sched → Contexts → Code × Option ℕ → Forked
unfolding admit
start c wrapper a s x (code, none) = refused code
start c wrapper a s x (code, some j) = admit c a j s (context_create c wrapper a.arg a.stacksize x)

-- `P1_Fork` up to the dispatch. `wrapper` is the function that every context starts with.
unfoldable pub fork : Config → ℕ → ForkArgs → Sched → Contexts → Forked
unfolding fork_check start
fork c wrapper a s x = start c wrapper a s x (fork_check c a s)

-- The loop that gives the children of a process to process 0.
unfoldable pub reparent : List ℕ → Sched → Sched
reparent [] s = s
reparent (k ∷ ks) s =
    reparent ks (add_child (put_proc s k (record (proc s k) { parent = pos 0 })) 0 k)

-- `for (k = i + 1; k < n; k++) a[k - 1] = a[k];` on the first `n` entries
unfoldable pub shift_left : ℕ → List ℕ → List ℕ
shift_left i [] = []
shift_left i (x ∷ []) = x ∷ []
shift_left zero (x ∷ y ∷ ys) = y ∷ shift_left zero (y ∷ ys)
shift_left (suc i) (x ∷ y ∷ ys) = x ∷ shift_left i (y ∷ ys)

-- The loop of `P1_Quit` over the parent's children, with `rounds` entries left from index `i` on.
unfoldable pub forget_loop : ℕ → ℕ → ℕ → List ℕ → List ℕ
unfolding shift_left
forget_loop pid i zero xs = xs
forget_loop pid i (suc rounds) xs =
    forget_loop pid (suc i) rounds (if get_or xs i 0 == pid then shift_left i xs else xs)

unfoldable pub drop_end : List ℕ → List ℕ
drop_end [] = []
drop_end (x ∷ []) = []
drop_end (x ∷ y ∷ ys) = x ∷ drop_end (y ∷ ys)

-- The loop and `parent->numChildren -= 1`.
unfoldable pub forget_child : ℕ → List ℕ → List ℕ
unfolding forget_loop drop_end
forget_child pid xs = drop_end (forget_loop pid 0 (length xs) xs)

-- The state quit and the exit status of process `pid`.
unfoldable pub retire : Config → ℕ → ℤ → Sched → Sched
retire c pid status s =
    let t = (set_state c (pos pid) State.quit (pos 0) s).1 in
    put_proc t pid (record (proc t pid) { status = status })

-- The parent of a quitting process takes it off its children and on its quit children, and is made
-- ready if it was joining.
unfoldable pub notify : Config → ℕ → ℕ → Sched → Sched
notify c pid parent s =
    let p = proc s parent in
    let t = put_proc s parent (record p {
      quit_children = p.quit_children ++ pid ∷ [];
      children = forget_child pid p.children;
    }) in
    if is_joining (proc t parent).state
    then (set_state c (pos parent) State.ready (pos 0) t).1
    else t

-- What `P1_Quit` has done before its call of `P1Dispatch`.
pub data Quitting : Type 0 where
  -- the first process quits with children
  halts : Sched → Quitting
  leaves : Sched → Quitting
  -- the pid or the parent is -1: the code writes before the table
  undefined : Quitting

-- `P1_Quit` of the process that `P1_GetPid` returned.
unfoldable pub quit : Config → ℤ → ℤ → Sched → Quitting
unfolding retire notify reparent forget_child
quit c (negsuc n) status s = undefined
quit c (pos zero) status s =
    let t = retire c 0 status s in
    if ltb 0 (length (proc t 0).children) || ltb 0 (length (proc t 0).quit_children)
    then halts t
    else leaves t
quit c (pos (suc pid)) status s =
    let t = retire c (suc pid) status s in
    let u = reparent (proc t (suc pid)).children t in
    elim (proc u (suc pid)).parent [
      | pos parent ↦ leaves (notify c (suc pid) parent u)
      | negsuc n ↦ undefined
    ]

unfoldable pub remove_at : ℕ → List ℕ → List ℕ
remove_at i [] = []
remove_at zero (x ∷ xs) = xs
remove_at (suc i) (x ∷ xs) = x ∷ remove_at i xs

abbrev pub has_tag : ℤ → Sched → ℕ → Bool
has_tag tag s pid = eqb_ℤ (pos (proc s pid).tag) tag

-- The branch of `P1GetChildStatus` that frees the quit child at index `i` of the list.
unfoldable pub reap : ℕ → Sched → Contexts → Sched × Contexts
unfolding remove_at
reap i s x =
    let parent = current s in
    let target = get_or (proc s parent).quit_children i 0 in
    let t =
      put_proc s target (record (proc s target) { is_being_used = false; state = State.free }) in
    let y = (context_free (pos (proc t target).cid) x).1 in
    let u =
      put_proc t parent
        (record (proc t parent) { quit_children = remove_at i (proc t parent).quit_children }) in
    (u, (context_free (pos (proc u target).cid) y).1)

-- `P1GetChildStatus`: the code, what goes through `cpid` and `status`, and the statics.
unfoldable pub get_child_status : ℤ → Sched → Contexts → Code × Option (ℕ × ℤ) × Sched × Contexts
unfolding reap
get_child_status tag s x =
    let quits = (proc s (current s)).quit_children in
    let i = find_index (has_tag tag s) quits in
    if bad_tag tag
    then (Code.invalid_tag, none, s, x)
    else if length quits == 0
    then (Code.no_quit, none, s, x)
    else if ltb i (length quits)
    then (
      Code.success,
      some (get_or quits i 0, (proc s (get_or quits i 0)).status),
      (reap i s x).0,
      (reap i s x).1,
    )
    else (Code.no_children, none, s, x)
