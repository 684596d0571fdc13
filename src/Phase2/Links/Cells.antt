-- ===== src/Phase2/Links/Cells.antt =====
-- Chains of nodes on the heap of a linked queue.
use small_os_simulator.Common.{
  ◌≡◌, ◌≢◌, refl, ap, Option, none, some, List, [], ◌∷◌, ◌++◌, All, ne→==,
}
use small_os_simulator.Phase2.Links.{Ptr, null, Node, node, write}

-- Addresses with what is stored there, in the order of the links.
abbrev pub Cells {ℓ} : Type ℓ → Type ℓ
Cells A = List (Ptr × A)

module _ {ℓ} {A : Type ℓ} where
  abbrev pub start : Cells A → Ptr
  start [] = null
  start ((p, a) ∷ r) = p

  abbrev pub last : Cells A → Ptr
  last [] = null
  last ((p, a) ∷ []) = p
  last ((p, a) ∷ c ∷ r) = last (c ∷ r)

  abbrev pub Absent : Ptr → Cells A → Type 0
  Absent p = All (λ (c : Ptr × A). c.0 ≢ p)

  abbrev pub Distinct : Cells A → Type 0
  Distinct [] = Unit
  Distinct ((p, a) ∷ r) = Absent p r × Distinct r

  -- Each cell is on the heap and links to the next.
  abbrev pub Stored : (Ptr → Option (Node A)) → Cells A → Type ℓ
  Stored heap [] = Unit
  Stored heap ((p, a) ∷ r) = (p ≢ null) × (heap p ≡ some (node a (start r))) × Stored heap r

  -- A write elsewhere leaves a chain.
  pub Stored-write :
      (heap : Ptr → Option (Node A)) (p : Ptr) (n : Option (Node A)) (cells : Cells A)
      → Absent p cells
      → Stored heap cells
      → Stored (write heap p n) cells
  Stored-write heap p n [] h s = tt
  Stored-write heap p n ((q, a) ∷ r) h s =
      (s.0, rw (ne→== q p h.0) (s.1), Stored-write heap p n r h.1 s.2)

  -- An address without a node is in no chain.
  pub Absent-fresh :
      (heap : Ptr → Option (Node A)) (fresh : Ptr) (cells : Cells A)
      → heap fresh ≡ none
      → Stored heap cells
      → Absent fresh cells
  Absent-fresh heap fresh [] e s = tt
  Absent-fresh heap fresh ((q, a) ∷ r) e s =
      (λ same. cc (e, s.1, ap heap same), Absent-fresh heap fresh r e s.2)

  pub last-append : (cells : Cells A) (p : Ptr) (a : A) → last (cells ++ (p, a) ∷ []) ≡ p
  last-append [] p a = refl
  last-append ((q, b) ∷ []) p a = refl
  last-append ((q, b) ∷ c ∷ r) p a = last-append (c ∷ r) p a
