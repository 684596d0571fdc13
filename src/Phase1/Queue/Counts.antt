-- ===== src/Phase1/Queue/Counts.antt =====
-- How often a pid stands in the dispatch queue after each operation, and what removal leaves.
use small_os_simulator.Common.{
  ℕ, zero, suc, ◌+◌, ◌≤◌, ◌<◌, ◌≡◌, refl, ap, inl, inr, List, [], ◌∷◌, ◌++◌, arith, ◌==◌,
  if◌then◌else◌, length, get_or, set, find_index, length-append, length-set, get_or-set_ne, ==→ne,
  Bool-cases,
}
use small_os_simulator.Phase1.Types.{Node, blank_node}
use small_os_simulator.Phase1.Queue.{count, position, insert, swap, shift, drop_last, remove_by_pid}

pub count-append : (j : ℕ) (p q : List Node) → count j (p ++ q) ≡ count j p + count j q
unfolding count
count-append j [] q = omega arith
count-append j (n ∷ p) q = omega (arith, count-append j p q)

pub count-le-length : (j : ℕ) (q : List Node) → count j q ≤ length q
unfolding count
count-le-length j [] = omega arith
count-le-length j (n ∷ q) = ground (arith, count-le-length j q)

pub position_present : (j : ℕ) (q : List Node) → 1 ≤ count j q → position j q < length q
unfolding position count
position_present j [] h = absurd (omega arith)
position_present j (n ∷ q) h = ground (arith, position_present j q)

pub position_absent : (j : ℕ) (q : List Node) → count j q ≡ 0 → position j q ≡ length q
unfolding position count
position_absent j [] h = refl
position_absent j (n ∷ q) h = ground (arith, position_absent j q)

-- A pid that is queued is not queued again.
pub insert_present :
    (m pid priority : ℕ) (q : List Node) → 1 ≤ count pid q → (insert m pid priority q).1 ≡ q
unfolding insert
insert_present m pid priority q h = ground (arith, position_present pid q h)

-- A new pid goes to the end while there is room.
pub insert_absent :
    (m pid priority : ℕ) (q : List Node)
    → count pid q ≡ 0
    → length q < m
    → insert m pid priority q ≡ (1, q ++ record { pid = pid; priority = priority } ∷ [])
unfolding insert
insert_absent m pid priority q h lt = ground (arith, position_absent pid q h)

pub count-shift : (j i : ℕ) (q : List Node) → count j (shift i q) ≡ count j q
unfolding shift count
count-shift j i [] = refl
count-shift j zero (n ∷ q) = ground (arith, count-append j q (n ∷ []))
count-shift j (suc i) (n ∷ q) = ground (arith, count-shift j i q)

pub length-shift : (i : ℕ) (q : List Node) → length (shift i q) ≡ length q
unfolding shift
length-shift i [] = refl
length-shift zero (n ∷ q) = omega (arith, length-append q (n ∷ []))
length-shift (suc i) (n ∷ q) = ap suc (length-shift i q)

count-set :
    (j i : ℕ) (n : Node) (q : List Node)
    → i < length q
    → count j (set q i n) + (if (get_or q i blank_node).pid == j then 1 else 0)
      ≡ count j q + (if n.pid == j then 1 else 0)
unfolding count
count-set j i n [] h = absurd (omega arith)
count-set j zero n (m ∷ q) h = ground arith
count-set j (suc i) n (m ∷ q) h = ground (arith, count-set j i n q)

-- The list without the first entry of a pid, the others in their order.
abbrev pub without : ℕ → List Node → List Node
without pid [] = []
without pid (n ∷ q) = if n.pid == pid then q else n ∷ without pid q

drop_last-append : (q : List Node) (n : Node) → drop_last (q ++ n ∷ []) ≡ q
unfolding drop_last
drop_last-append [] n = refl
drop_last-append (m ∷ []) n = refl
drop_last-append (m ∷ k ∷ q) n = ap (◌∷◌ m) (drop_last-append (k ∷ q) n)

pub count-without :
    (j pid : ℕ) (q : List Node)
    → count j (without pid q) + (if pid == j then (if 0 == count pid q then 0 else 1) else 0)
      ≡ count j q
unfolding count
count-without j pid [] = ground arith
count-without j pid (n ∷ q) = ground (arith, count-without j pid q)

drop_last-cons : (n : Node) (q : List Node) → 0 < length q → drop_last (n ∷ q) ≡ n ∷ drop_last q
unfolding drop_last
drop_last-cons n [] h = absurd (omega arith)
drop_last-cons n (m ∷ q) h = refl

-- `dispatchQueueRemoveByPID` takes out the first entry with the pid, if there is one, and keeps the
-- order of the others.
pub remove_by_pid_lem : (pid : ℕ) (q : List Node) → remove_by_pid pid q ≡ without pid q
unfolding remove_by_pid find_index
remove_by_pid_lem pid [] = refl
remove_by_pid_lem pid (n ∷ q) = ground (
  arith,
  drop_last-append q n,
  remove_by_pid_lem pid q,
  length-shift (position pid q) q,
  drop_last-cons n (shift (position pid q) q),
)

pub count-remove_by_pid :
    (j pid : ℕ) (q : List Node)
    → count j (remove_by_pid pid q) + (if pid == j then (if 0 == count pid q then 0 else 1) else 0)
      ≡ count j q
count-remove_by_pid j pid q = rw remove_by_pid_lem (count-without j pid q)

pub count-swap :
    (x i j : ℕ) (q : List Node) → i < length q → j < length q → count x (swap i j q) ≡ count x q
unfolding swap
count-swap x i j q hi hj = elim (Bool-cases (i == j)) [
  | inl e ↦ rw e
  | inr n ↦ rw n (
      ground (
        arith,
        length-set q i (get_or q j blank_node),
        get_or-set_ne q i j (get_or q j blank_node) blank_node (==→ne i j n),
        count-set x i (get_or q j blank_node) q hi,
        count-set x j (get_or q i blank_node) (set q i (get_or q j blank_node)),
      ))
]

pub length-swap : (i j : ℕ) (q : List Node) → length (swap i j q) ≡ length q
unfolding swap
length-swap i j q = elim (Bool-cases (i == j)) [
  | inl e ↦ rw e
  | inr n ↦ rw (n, length-set, length-set)
]
