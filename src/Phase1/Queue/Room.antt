-- ===== src/Phase1/Queue/Room.antt =====
-- The room in a queue of pids below a bound.
use small_os_simulator.Common.{
  ℕ, ◌≤◌, ◌<◌, ◌≡◌, sym, List, [], ◌∷◌, arith, length, total, total-add, total_delta, total_zero,
  total-lt, ◌==◌, if◌then◌else◌,
}
use small_os_simulator.Phase1.Types.{Node}
use small_os_simulator.Phase1.Queue.{count}

length-total :
    (m : ℕ) (q : List Node)
    → ((j : ℕ) → m ≤ j → count j q ≡ 0)
    → length q ≡ total m (λ j. count j q)
unfolding count
length-total m [] h = sym (total_zero m)
length-total m (n ∷ q) h = omega (
  arith,
  total-add m (λ j. if n.pid == j then 1 else 0) (λ j. count j q),
  total_delta m n.pid (ground (arith, h n.pid)),
  length-total m q (λ j le. ground (arith, h j le)),
)

pub length-lt :
    (m pid : ℕ) (q : List Node)
    → ((j : ℕ) → m ≤ j → count j q ≡ 0)
    → ((j : ℕ) → count j q ≤ 1)
    → pid < m
    → count pid q ≡ 0
    → length q < m
length-lt m pid q out once lt e =
    omega (arith, length-total m q out, total-lt m pid (λ j. count j q) once lt e)
