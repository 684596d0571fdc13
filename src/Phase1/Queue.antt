-- ===== src/Phase1/Queue.antt =====
-- The dispatch queue of phase1b.c: `dispatchQueueInsert`, `dispatchQueueRemove`,
-- `dispatchQueueSwap`, `dispatchQueueShift` and `dispatchQueueRemoveByPID`, on the live part of the
-- array, whose length is `queueSize`.
pub mod Counts
pub mod Room
use small_os_simulator.Common.{
  ℕ, zero, suc, ◌+◌, List, [], ◌∷◌, ◌++◌, ltb, ◌==◌, if◌then◌else◌, length, get_or, set, find_index,
}
use small_os_simulator.Phase1.Types.{Node, blank_node}

-- Entries with this pid.
unfoldable pub count : ℕ → List Node → ℕ
count pid [] = 0
count pid (n ∷ q) = (if n.pid == pid then 1 else 0) + count pid q

-- The index of the first entry with this pid, or the size.
unfoldable pub position : ℕ → List Node → ℕ
unfolding find_index
position pid q = find_index (λ n. n.pid == pid) q

-- `dispatchQueueInsert`: the result is its return value beside the queue.
unfoldable pub insert : ℕ → ℕ → ℕ → List Node → ℕ × List Node
insert max_proc pid priority q =
    if length q == max_proc
    then (0, q)
    else if ltb (position pid q) (length q)
    then (1, q)
    else (1, q ++ record { pid = pid; priority = priority } ∷ [])

-- `dispatchQueueRemove`, on a queue that is not empty.
unfoldable pub remove : List Node → ℕ × List Node
remove [] = (blank_node.pid, [])
remove (n ∷ q) = (n.pid, q)

-- `dispatchQueueSwap`
unfoldable pub swap : ℕ → ℕ → List Node → List Node
swap i j q = if i == j then q else set (set q i (get_or q j blank_node)) j (get_or q i blank_node)

-- `dispatchQueueShift`: the loop moves the later entries down by one, and entry `i` goes last.
unfoldable pub shift : ℕ → List Node → List Node
shift i [] = []
shift zero (n ∷ q) = q ++ n ∷ []
shift (suc i) (n ∷ q) = n ∷ shift i q

-- `queueSize -= 1`
unfoldable pub drop_last : List Node → List Node
drop_last [] = []
drop_last (n ∷ []) = []
drop_last (n ∷ m ∷ q) = n ∷ drop_last (m ∷ q)

-- `dispatchQueueRemoveByPID`
unfoldable pub remove_by_pid : ℕ → List Node → List Node
unfolding position shift drop_last
remove_by_pid pid q =
    let i = position pid q in if ltb i (length q) then drop_last (shift i q) else q
