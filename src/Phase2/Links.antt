-- ===== src/Phase2/Links.antt =====
-- The linked queue that phase2c.c keeps for disk requests (`diskRequestQueueInsert`,
-- `diskRequestQueueRemove`, `freeAllRequestQueue`) and phase3c.c, with the same text, for page faults:
-- nodes on the heap, and the pointers to the first and the last. The semaphores around the functions
-- are not in the model.
pub mod Cells
pub mod Fifo
pub mod Free
use small_os_simulator.Common.{
  ℕ, zero, suc, Bool, true, false, not, ◌&&◌, ◌||◌, Option, none, some, ◌==◌, if◌then◌else◌,
}

-- An address; NULL is 0.
abbrev pub Ptr : Type 0
Ptr = ℕ

abbrev pub null : Ptr
null = 0

abbrev pub is_null : Ptr → Bool
is_null p = p == null

-- `diskRequestQueueNode`: a request and the next node.
pub record Node {ℓ} (A : Type ℓ) : Type ℓ where
  pub info : A
  pub next : Ptr

-- The nodes that are allocated, and `*head` and `*tail`.
pub record Links {ℓ} (A : Type ℓ) : Type ℓ where
  pub heap : Ptr → Option (Node A)
  pub head : Ptr
  pub tail : Ptr

module _ {ℓ} {A : Type ℓ} where
  -- What the heap holds after address `p` is set, or freed by none.
  abbrev pub write : (Ptr → Option (Node A)) → Ptr → Option (Node A) → Ptr → Option (Node A)
  write heap p n q = if q == p then n else heap q

  abbrev pub node : A → Ptr → Node A
  node info next = record { info = info; next = next }

  -- The branches of `diskRequestQueueInsert` once the new node is on the heap. None where the code
  -- follows a pointer to no node.
  unfoldable pub link : Ptr → Links A → Option (Bool × Links A)
  link fresh q =
      if (is_null q.head && not (is_null q.tail)) || (not (is_null q.head) && is_null q.tail)
      then some (false, q)
      else if is_null q.head
      then some (true, record q { head = fresh; tail = fresh })
      else elim (q.heap q.tail) [
        | none ↦ none
        | some n ↦ some (
          true,
          record q { heap = write q.heap q.tail (some (record n { next = fresh })); tail = fresh },
        )
      ]

  -- `diskRequestQueueInsert`, with the address that `malloc` gives; none is the NULL request.
  unfoldable pub insert : Ptr → Option A → Links A → Option (Bool × Links A)
  unfolding link
  insert fresh none q = some (false, q)
  insert fresh (some info) q =
      link fresh (record q { heap = write q.heap fresh (some (node info null)) })

  -- `diskRequestQueueRemove`: its return value, what goes through `info`, and the queue.
  unfoldable pub remove : Links A → Option (Bool × Option A × Links A)
  remove q =
      if (is_null q.head && is_null q.tail)
        || (is_null q.head && not (is_null q.tail))
        || (not (is_null q.head) && is_null q.tail)
      then some (false, none, q)
      else elim (q.heap q.head) [
        | none ↦ none
        | some n ↦ some (
          true,
          some n.info,
          record {
            heap = write q.heap q.head none;
            head = if q.head == q.tail then null else n.next;
            tail = if q.head == q.tail then null else q.tail;
          },
        )
      ]

  -- The loop of `freeAllRequestQueue`. None where the fuel runs out or a pointer points to no node.
  unfoldable pub free_loop : ℕ → Ptr → (Ptr → Option (Node A)) → Option (Ptr → Option (Node A))
  free_loop zero walker heap = if is_null walker then some heap else none
  free_loop (suc fuel) walker heap = if is_null walker then some heap else elim (heap walker) [
    | none ↦ none
    | some n ↦ free_loop fuel n.next (write heap walker none)
  ]

  -- `freeAllRequestQueue`, with fuel for as many nodes as are linked.
  unfoldable pub free_all : ℕ → Links A → Option (Links A)
  unfolding free_loop
  free_all fuel q =
      if is_null q.head || is_null q.tail then some q else elim (free_loop fuel q.head q.heap) [
        | none ↦ none
        | some heap ↦ some (record { heap = heap; head = null; tail = null })
      ]
