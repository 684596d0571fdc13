-- ===== src/Phase2/Links/Fifo.antt =====
-- The linked queue against a list: first in, first out.
use small_os_simulator.Common.{
  arith, ◌≡◌, ◌≢◌, refl, sym, ap, ◌∙◌, subst, Bool, true, false, Option, none, some, List, [], ◌∷◌,
  ◌++◌, map, ◌==◌, if◌then◌else◌, All-append, ne→==, ==_refl,
}
use small_os_simulator.Phase2.Links.{Ptr, null, Node, Links, node, write, insert, remove}
use small_os_simulator.Phase2.Links.Cells.{
  Cells, start, last, Absent, Distinct, Stored, Stored-write, Absent-fresh, last-append,
}

module _ {ℓ} {A : Type ℓ} where
  -- The queue links these cells.
  pub record Holds (q : Links A) (cells : Cells A) : Type ℓ where
    pub distinct : Distinct cells
    pub stored : Stored q.heap cells
    pub head : q.head ≡ start cells
    pub tail : q.tail ≡ last cells

  -- The queue holds these requests, the first one in front.
  pub record Represents (q : Links A) (items : List A) : Type ℓ where
    pub cells : Cells A
    pub holds : Holds q cells
    pub items_lem : map (λ (c : Ptr × A). c.1) cells ≡ items

  Absent-last : (p : Ptr) (c : Ptr × A) (r : Cells A) → Absent p (c ∷ r) → last (c ∷ r) ≢ p
  Absent-last p (q, a) [] h = h.0
  Absent-last p (q, a) (d ∷ r) h = Absent-last p d r h.1

  pub last_there :
      (heap : Ptr → Option (Node A)) (c : Ptr × A) (r : Cells A)
      → Stored heap (c ∷ r)
      → (last (c ∷ r) ≢ null) × (x : A) × (heap (last (c ∷ r)) ≡ some (node x null))
  last_there heap (p, a) [] s = (s.0, a, s.1)
  last_there heap (p, a) (d ∷ r) s = last_there heap d r s.2

  -- Linking a stored node behind the last cell.
  link_end :
      (heap : Ptr → Option (Node A)) (fresh : Ptr) (a x : A) (c : Ptr × A) (r : Cells A)
      → fresh ≢ null
      → heap fresh ≡ some (node a null)
      → heap (last (c ∷ r)) ≡ some (node x null)
      → Absent fresh (c ∷ r)
      → Distinct (c ∷ r)
      → Stored heap (c ∷ r)
      → Stored (write heap (last (c ∷ r)) (some (node x fresh))) ((c ∷ r) ++ (fresh, a) ∷ [])
  link_end heap fresh a x (p, b) [] nn at there away d s = (
    s.0,
    rw (==_refl p) (ap (λ y. some (node y fresh)) (cc (there, s.1))),
    (nn, rw (ne→== fresh p (λ e. away.0 (sym e))) at, tt),
  )
  link_end heap fresh a x (p, b) (c ∷ r) nn at there away d s = (
    s.0,
    rw (ne→== p (last (c ∷ r)) (λ e. Absent-last p c r d.0 (sym e))) (s.1),
    link_end heap fresh a x c r nn at there away.1 d.1 s.2,
  )

  Distinct-append :
      (fresh : Ptr) (a : A) (cells : Cells A)
      → Absent fresh cells
      → Distinct cells
      → Distinct (cells ++ (fresh, a) ∷ [])
  Distinct-append fresh a [] h d = (tt, tt)
  Distinct-append fresh a ((p, b) ∷ r) h d = (
    All-append _ r ((fresh, a) ∷ []) d.0 ((λ e. h.0 (sym e)), tt),
    Distinct-append fresh a r h.1 d.1,
  )

  map-snoc :
      (fresh : Ptr) (a : A) (cells : Cells A)
      → map (λ (c : Ptr × A). c.1) (cells ++ (fresh, a) ∷ [])
        ≡ map (λ (c : Ptr × A). c.1) cells ++ a ∷ []
  map-snoc fresh a [] = refl
  map-snoc fresh a ((p, b) ∷ r) = ap (◌∷◌ b) (map-snoc fresh a r)

  insert_empty :
      (q : Links A) (fresh : Ptr) (a : A)
      → Holds q []
      → fresh ≢ null
      → let q' : Links A = record {
        heap = write q.heap fresh (some (node a null));
        head = fresh;
        tail = fresh;
      } in
        (insert fresh (some a) q ≡ some (true, q')) × Holds q' ((fresh, a) ∷ [])
  unfolding insert
  insert_empty q fresh a h nn = (
    rw (h.head, h.tail, insert) refl,
    record { distinct = (tt, tt); stored = (nn, rw (==_refl fresh), tt); head = refl; tail = refl },
  )

  insert_more :
      (q : Links A) (fresh : Ptr) (a x : A) (c : Ptr × A) (r : Cells A)
      → Holds q (c ∷ r)
      → fresh ≢ null
      → q.heap fresh ≡ none
      → last (c ∷ r) ≢ null
      → q.heap (last (c ∷ r)) ≡ some (node x null)
      → let heap = write q.heap fresh (some (node a null)) in
        let q' : Links A = record {
          heap = write heap q.tail (some (node x fresh));
          head = q.head;
          tail = fresh;
        } in
        (insert fresh (some a) q ≡ some (true, q')) × Holds q' ((c ∷ r) ++ (fresh, a) ∷ [])
  unfolding insert
  insert_more q fresh a x c r h nn free lnn there =
      let away = Absent-fresh q.heap fresh (c ∷ r) free h.stored in
      let heap = write q.heap fresh (some (node a null)) in
      let head_set : (q.head == null) ≡ false =
        ne→== q.head null (λ e. h.stored.0 (sym h.head ∙ e)) in
      let tail_set : (q.tail == null) ≡ false = ne→== q.tail null (λ e. lnn (sym h.tail ∙ e)) in
      let at : heap (last (c ∷ r)) ≡ some (node x null) =
        rw (ne→== (last (c ∷ r)) fresh (Absent-last fresh c r away)) there in
      (
        rw (head_set, tail_set, ap heap h.tail ∙ at) refl,
        record {
          distinct = Distinct-append fresh a (c ∷ r) away h.distinct;
          stored =
              subst (λ t. Stored (write heap t (some (node x fresh))) ((c ∷ r) ++ (fresh, a) ∷ []))
                (sym h.tail)
                (link_end heap fresh a x c r nn (rw (==_refl fresh) refl) at away h.distinct
                  (Stored-write q.heap fresh _ (c ∷ r) away h.stored));
          head = h.head;
          tail = sym (last-append (c ∷ r) fresh a);
        },
      )

  insert-Holds :
      (q : Links A) (fresh : Ptr) (a : A) (cells : Cells A)
      → Holds q cells
      → fresh ≢ null
      → q.heap fresh ≡ none
      → (q' : Links A) × (insert fresh (some a) q ≡ some (true, q'))
        × Holds q' (cells ++ (fresh, a) ∷ [])
  insert-Holds q fresh a [] h nn free = let r = insert_empty q fresh a h nn in (_, r.0, r.1)
  insert-Holds q fresh a (c ∷ r) h nn free =
      let (lnn, x, there) = last_there q.heap c r h.stored in
      let r = insert_more q fresh a x c r h nn free lnn there in (_, r.0, r.1)

  -- From a queue of linked nodes that represents a list, with an address that is not NULL and
  -- holds no node, the insertion of a request returns TRUE, follows no dangling pointer, and
  -- leaves a queue that represents the list with the request at its end.
  pub insert-Represents :
      {q : Links A} {items : List A} (fresh : Ptr) (a : A)
      → Represents q items
      → fresh ≢ null
      → q.heap fresh ≡ none
      → (q' : Links A) × (insert fresh (some a) q ≡ some (true, q'))
        × Represents q' (items ++ a ∷ [])
  insert-Represents {q} fresh a r nn free =
      let (q', e, h) = insert-Holds q fresh a r.cells r.holds nn free in
      (
        q',
        e,
        record {
          cells = r.cells ++ (fresh, a) ∷ [];
          holds = h;
          items_lem = map-snoc fresh a r.cells ∙ ap (λ l. l ++ a ∷ []) r.items_lem;
        },
      )

  -- What `diskRequestQueueRemove` gives of the queue `before` with these requests.
  pub data Removed (before : Links A) : List A → Option (Bool × Option A × Links A) → Type ℓ where
    nothing : Represents before [] → Removed before [] (some (false, none, before))
    front :
        {x : A} {rest : List A} {q : Links A}
        → Represents q rest
        → Removed before (x ∷ rest) (some (true, some x, q))

  left : Links A → Ptr → Links A
  left q next = record {
    heap = write q.heap q.head none;
    head = if q.head == q.tail then null else next;
    tail = if q.head == q.tail then null else q.tail;
  }

  remove_first :
      (q : Links A) (p : Ptr) (a : A) (r : Cells A)
      → Holds q ((p, a) ∷ r)
      → remove q ≡ some (true, some a, left q (start r))
  unfolding remove left
  remove_first q p a r h =
      let (lnn, x, there) = last_there q.heap (p, a) r h.stored in
      let head_set : (q.head == null) ≡ false =
        ne→== q.head null (λ e. h.stored.0 (sym h.head ∙ e)) in
      let tail_set : (q.tail == null) ≡ false = ne→== q.tail null (λ e. lnn (sym h.tail ∙ e)) in
      rw (head_set, tail_set, ap q.heap h.head ∙ h.stored.1) refl

  left-Holds :
      (q : Links A) (p : Ptr) (a : A) (r : Cells A)
      → Holds q ((p, a) ∷ r)
      → Holds (left q (start r)) r
  unfolding left
  left-Holds q p a [] h =
      let same : (q.head == q.tail) ≡ true = rw (h.head, h.tail) (==_refl p) in
      record { distinct = tt; stored = tt; head = rw same refl; tail = rw same refl }
  left-Holds q p a (c ∷ r) h =
      let other : (q.head == q.tail) ≡ false =
        ne→== q.head q.tail (λ e. Absent-last p c r h.distinct.0 (sym h.tail ∙ sym e ∙ h.head)) in
      record {
        distinct = h.distinct.1;
        stored =
            subst (λ k. Stored (write q.heap k none) (c ∷ r)) (sym h.head)
              (Stored-write q.heap p none (c ∷ r) h.distinct.0 (h.stored.2));
        head = rw other refl;
        tail = rw other h.tail;
      }

  remove-none : (q : Links A) → Holds q [] → remove q ≡ some (false, none, q)
  unfolding remove
  remove-none q h = rw (h.head, h.tail, remove) refl

  cells-Removed :
      (q : Links A) (cells : Cells A)
      → Holds q cells
      → Removed q (map (λ (c : Ptr × A). c.1) cells) (remove q)
  cells-Removed q [] h =
      subst (Removed q []) (sym (remove-none q h))
        (nothing (record { cells = []; holds = h; items_lem = refl }))
  cells-Removed q ((p, a) ∷ r) h =
      subst (Removed q _) (sym (remove_first q p a r h))
        (front (record { cells = r; holds = left-Holds q p a r h; items_lem = refl }))

  -- From a queue of linked nodes that represents a list, the removal follows no dangling pointer.
  -- Where the list is empty, it returns FALSE and leaves the queue and the heap as they were;
  -- else it returns TRUE, gives the first request, and leaves a queue that represents the others
  -- in order.
  pub remove-Removed :
      {q : Links A} {items : List A} → Represents q items → Removed q items (remove q)
  remove-Removed {q} r =
      subst (λ l. Removed q l (remove q)) r.items_lem (cells-Removed q r.cells r.holds)

  -- What a removal gives where the list is not empty.
  pub first-Removed :
      {before : Links A} {x : A} {items rest : List A} {r : Option (Bool × Option A × Links A)}
      → Removed before items r
      → items ≡ x ∷ rest
      → (q : Links A) × (r ≡ some (true, some x, q)) × Represents q rest
  first-Removed (nothing w) e = cc
  first-Removed {x} {rest = others} (front {x = y} {rest = rest} {q = q} w) e =
      let same : y ≡ x = ground arith in
      let same_rest : rest ≡ others = ground arith in
      (q, rw same refl, subst (Represents q) same_rest w)
