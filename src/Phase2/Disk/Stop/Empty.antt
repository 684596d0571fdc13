-- ===== src/Phase2/Disk/Stop/Empty.antt =====
-- What the drivers find in the queue after `P2DiskShutdown` has cleared it.
use small_os_simulator.Common.{
  ℕ, ◌≤◌, ◌≡◌, ◌≢◌, refl, ◌∙◌, map, Bool, true, false, none, some, List, [], ◌∷◌, length,
}
use small_os_simulator.Phase2.Links.{Ptr, null, Links}
use small_os_simulator.Phase2.Links.Cells.{Cells, Absent-fresh}
use small_os_simulator.Phase2.Links.Fifo.{Represents, Holds, insert-Represents}
use small_os_simulator.Phase2.Links.Free.{free_all-Freed}
use small_os_simulator.Phase2.Disk.{Request}
use small_os_simulator.Phase2.Disk.Driver.{Job, abort, driver_loop}
use small_os_simulator.Phase2.Disk.Driver.Rounds.{abort_ends}
use small_os_simulator.Phase2.Disk.Stop.{stop_queue, is_drained}

cells_drained :
    (q : Links Job) (cells : Cells Job)
    → Holds q cells
    → map (λ (c : Ptr × Job). c.1) cells ≡ []
    → is_drained q ≡ true
cells_drained q [] h e = rw (h.head, h.tail) refl
cells_drained q (c ∷ cells) h e = cc

drained_lem : (q : Links Job) → Represents q [] → is_drained q ≡ true
drained_lem q r = cells_drained q r.cells r.holds r.items_lem

module _ (accepts waits : List Request → Bool) (track_size sector_size : ℕ) where
  -- Whatever requests a queue of linked nodes represents, with fuel for them and a fresh address
  -- for the new node: clearing the queue and putting in the request to end, as `P2DiskShutdown`
  -- does, succeeds. One round of the loop of `DiskDriver` on what it leaves ends the driver, asks
  -- the device for nothing, and leaves both pointers of the queue NULL, as the assertions of
  -- `P2DiskShutdown` want them.
  pub stop_queue-driver_loop :
      {q : Links Job} {items : List Job} (fuel : ℕ) (fresh : Ptr) (log : List Request)
      → Represents q items
      → length items ≤ fuel
      → fresh ≢ null
      → q.heap fresh ≡ none
      → (q' : Links Job) × (q'' : Links Job) × (stop_queue fuel fresh q ≡ some q')
        × (driver_loop accepts waits track_size sector_size 1 q' log
            ≡ some (false ∷ [], true, q'', log))
        × (is_drained q'' ≡ true)
  unfolding stop_queue
  stop_queue-driver_loop {q} fuel fresh log r le nn free =
      let (cleared, freed, empty, gone) = free_all-Freed fuel r le in
      let absent = Absent-fresh q.heap fresh r.cells free r.holds.stored in
      let (q', inserted, one) =
        insert-Represents fresh abort empty nn (gone.others fresh absent ∙ free) in
      let (q'', loop, rest) = abort_ends accepts waits track_size sector_size log one in
      (q', q'', rw (freed, stop_queue, inserted) refl, loop, drained_lem q'' rest)
