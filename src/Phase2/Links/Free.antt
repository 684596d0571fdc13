-- ===== src/Phase2/Links/Free.antt =====
-- `freeAllRequestQueue`: with fuel for the linked nodes it ends, and no node is left.
use small_os_simulator.Common.{
  ℕ, zero, suc, ◌≤◌, ◌≡◌, refl, sym, ap, ◌∙◌, false, Option, none, some, List, [], ◌∷◌, map, arith,
  ◌==◌, All, ne→==, ==_refl, length,
}
use small_os_simulator.Phase2.Links.{Ptr, null, Node, Links, write, free_loop, free_all}
use small_os_simulator.Phase2.Links.Cells.{Cells, start, Absent, Distinct, Stored, Stored-write}
use small_os_simulator.Phase2.Links.Fifo.{Holds, Represents, last_there}

module _ {ℓ} {A : Type ℓ} where
  -- What freeing a chain leaves of the heap.
  pub record Freed (heap : Ptr → Option (Node A)) (cells : Cells A) (h : Ptr → Option (Node A))
      : Type ℓ where
    pub gone : All (λ (c : Ptr × A). h c.0 ≡ none) cells
    pub others : (p : Ptr) → Absent p cells → h p ≡ heap p

  free_loop-Freed :
      (fuel : ℕ) (heap : Ptr → Option (Node A)) (cells : Cells A)
      → length cells ≤ fuel
      → Distinct cells
      → Stored heap cells
      → (h : Ptr → Option (Node A)) × (free_loop fuel (start cells) heap ≡ some h)
        × Freed heap cells h
  unfolding free_loop
  free_loop-Freed zero heap [] le d s = (heap, refl, record { gone = tt; others = λ p a. refl })
  free_loop-Freed (suc fuel) heap [] le d s =
      (heap, refl, record { gone = tt; others = λ p a. refl })
  free_loop-Freed zero heap ((p, a) ∷ r) le d s = absurd (omega arith)
  free_loop-Freed (suc fuel) heap ((p, a) ∷ r) le d s =
      let ih =
        free_loop-Freed fuel (write heap p none) r (omega arith) d.1
          (Stored-write heap p none r d.0 s.2) in
      (
        ih.0,
        rw (ne→== p null s.0, s.1) ih.1,
        record {
          gone = (ih.2.others p d.0 ∙ rw (==_refl p) refl, ih.2.gone);
          others = λ q absent. ih.2.others q absent.1 ∙ rw (ne→== q p (λ e. absent.0 (sym e))) refl;
        },
      )

  length-infos : (cells : Cells A) → length (map (λ (c : Ptr × A). c.1) cells) ≡ length cells
  length-infos [] = refl
  length-infos (c ∷ r) = ap suc (length-infos r)

  free_all-Holds :
      (fuel : ℕ) (q : Links A) (cells : Cells A)
      → Holds q cells
      → length cells ≤ fuel
      → (q' : Links A) × (free_all fuel q ≡ some q') × Represents q' [] × Freed q.heap cells q'.heap
  unfolding free_all
  free_all-Holds fuel q [] h le = (
    q,
    rw h.head refl,
    record { cells = []; holds = h; items_lem = refl },
    record { gone = tt; others = λ p a. refl },
  )
  free_all-Holds fuel q ((p, a) ∷ r) h le =
      let (heap, e, freed) = free_loop-Freed fuel q.heap ((p, a) ∷ r) le h.distinct h.stored in
      let q' : Links A = record { heap = heap; head = null; tail = null } in
      let head_set : (q.head == null) ≡ false =
        ne→== q.head null (λ n. h.stored.0 (sym h.head ∙ n)) in
      let tail_set : (q.tail == null) ≡ false =
        ne→== q.tail null (λ n. (last_there q.heap (p, a) r h.stored).0 (sym h.tail ∙ n)) in
      let freed_loop : free_loop fuel q.head q.heap ≡ some heap =
        ap (λ w. free_loop fuel w q.heap) h.head ∙ e in
      (
        q',
        rw (head_set, tail_set, freed_loop) refl,
        record {
          cells = [];
          holds = record { distinct = tt; stored = tt; head = refl; tail = refl };
          items_lem = refl;
        },
        freed,
      )

  -- With fuel for the requests of the list that a queue of linked nodes represents,
  -- `freeAllRequestQueue` ends and follows no dangling pointer. It leaves an empty queue; the
  -- address of each linked node holds nothing any more, and every other address what it held.
  pub free_all-Freed :
      {q : Links A} {items : List A} (fuel : ℕ) (r : Represents q items)
      → length items ≤ fuel
      → (q' : Links A) × (free_all fuel q ≡ some q')
        × Represents q' []
        × Freed q.heap r.cells q'.heap
  free_all-Freed {q} fuel r le =
      free_all-Holds fuel q r.cells r.holds
        (omega (arith, le, length-infos r.cells, ap length r.items_lem))
