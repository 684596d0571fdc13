-- ===== src/Phase2/Calls.antt =====
-- Calls of phase 1 with an assertion on their code behind them, as the starts and the stops of the drivers
-- in phase2b.c and phase2c.c make them, and the numbers that `sprintf` writes into names.
pub mod Decimal
use small_os_simulator.Common.{
  ℕ, zero, suc, ◌+◌, ◌/◌, ◌%◌, Option, none, some, List, [], ◌∷◌, ◌++◌, ltb, if◌then◌else◌, ℤ,
}
use small_os_simulator.Phase1.Types.{Config, Code, Name, is_success}
use small_os_simulator.Phase1.Sems.{Sem, sem_create, sem_free}

-- The rest of a function behind an assertion; none where it fails.
infixl 5 ◌>>=◌
abbrev pub ◌>>=◌ {ℓ κ} : {A : Type ℓ} {B : Type κ} → Option A → (A → Option B) → Option B
o >>= f = elim o [ none ↦ none | some a ↦ f a ]

-- The semaphore and the table where `P1_SemCreate` returned P1_SUCCESS.
unfoldable pub asserted : Code × Option ℕ × List Sem → Option (ℕ × List Sem)
asserted (Code.success, some i, t) = some (i, t)
asserted (code, sid, t) = none

-- `P1_SemCreate`: the semaphore and the table.
unfoldable pub make : Config → Name → ℕ → List Sem → Option (ℕ × List Sem)
unfolding asserted
make c name value sems = asserted (sem_create c (some name) value sems)

-- `P1_SemFree`: the table.
unfoldable pub unmake : ℤ → List Sem → Option (List Sem)
unmake sid sems = let (code, t) = sem_free sid sems in if is_success code then some t else none

-- The digits that `%d` writes for a number, with fuel for them.
unfoldable pub digits : ℕ → ℕ → Name
digits zero n = []
digits (suc fuel) n =
    let rest = digits fuel (n / 10) in (if ltb n 10 then [] else rest) ++ (48 + n % 10) ∷ []

unfoldable pub decimal : ℕ → Name
unfolding digits
decimal n = digits (suc n) n
