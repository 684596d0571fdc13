-- ===== src/Phase2/Disk/Checks.antt =====
-- The checks of `P2DiskReaderWriterHelper`: where a request that passes them lies.
use small_os_simulator.Common.{
  ℕ, ◌+◌, ◌-◌, ◌*◌, ◌≤◌, ◌<◌, ◌≡◌, Bool, true, false, Option, none, some, List, arith, ltb, get_or,
  ℤ, pos, negsuc, index, index-lt, eqb_ℤ, Option-cases, Bool-cases, inl, inr, if◌then◌else◌, ap,
  subst,
}
use mathlib.Core.Option.{some-injective}
use small_os_simulator.Phase2.Disk.{Code, Span, check_sectors, check_place, check_request}

-- The sectors of the span are sectors of a disk with `disk` tracks.
pub record OnDisk (track_size disk : ℕ) (r : Span) : Type 0 where
  pub track : r.track < disk
  pub first : r.first < track_size
  pub fits : r.track * track_size + r.first + r.sectors ≤ disk * track_size

room_after :
    (track_size t f k n : ℕ)
    → f < track_size
    → n ≤ track_size * k + (track_size - f)
    → t * track_size + f + n ≤ (t + 1 + k) * track_size
room_after track_size t f k n hf h = omega arith

room_in_disk :
    (track_size disk t f n : ℕ)
    → t < disk
    → f < track_size
    → n ≤ track_size * (disk - t - 1) + (track_size - f)
    → t * track_size + f + n ≤ disk * track_size
room_in_disk track_size disk t f n ht hf h =
    subst (λ d. t * track_size + f + n ≤ d * track_size) (omega arith)
      (room_after track_size t f (disk - t - 1) n hf h)

check_sectors-OnDisk :
    (track_size disk t f : ℕ) (sectors : ℤ) {code : Code} {r : Span}
    → t < disk
    → f < track_size
    → check_sectors track_size disk t f sectors ≡ (code, some r)
    → OnDisk track_size disk r
unfolding check_sectors
check_sectors-OnDisk track_size disk t f (negsuc n) ht hf e = absurd (ground arith)
check_sectors-OnDisk track_size disk t f (pos n) ht hf e =
    elim (Bool-cases (ltb (track_size * (disk - t - 1) + (track_size - f)) n)) [
      | inl less ↦ let e' = rw less at e in absurd (ground arith)
      | inr fits ↦
          let e' = rw fits at e in
          subst (OnDisk track_size disk) (some-injective _ _ (ap (λ x. x.1) e')) (record {
            track = ht;
            first = hf;
            fits = room_in_disk track_size disk t f n ht hf (ground arith);
          })
    ]

check_place-OnDisk :
    (track_size disk : ℕ) (track first sectors : ℤ) {code : Code} {r : Span}
    → check_place track_size disk track first sectors ≡ (code, some r)
    → OnDisk track_size disk r
unfolding check_place
check_place-OnDisk track_size disk track first sectors e =
    elim (Option-cases (index track_size first)) [
      | inl n ↦ let e' = rw (n, check_place) at e in absurd (ground arith)
      | inr (f, hf) ↦ elim (Option-cases (index disk track)) [
        | inl n ↦ let e' = rw (hf, n, check_place) at e in absurd (ground arith)
        | inr (t, ht) ↦
            check_sectors-OnDisk track_size disk t f sectors (index-lt disk track t ht)
              (index-lt track_size first f hf) (rw (hf, ht, check_place) at e)
      ]
    ]

-- When `P2DiskReaderWriterHelper` gives a request to the driver of a disk that has `disk` tracks,
-- the track and the first sector exist and all the sectors of the request lie on the disk.
pub check_request-OnDisk :
    (track_size : ℕ) (disks : List (Option ℕ)) (u disk : ℕ) (track first sectors : ℤ) (given : Bool)
    {code : Code} {r : Span}
    → get_or disks u none ≡ some disk
    → check_request track_size disks (pos u) track first sectors given ≡ (code, some r)
    → OnDisk track_size disk r
unfolding check_request
check_request-OnDisk track_size disks u disk track first sectors given {code} {r} at e =
    elim (Bool-cases (eqb_ℤ sectors (pos 0))) [
      | inl z ↦ let e' = rw z at e in absurd (ground arith)
      | inr more ↦ elim (Bool-cases (ltb u 2)) [
        | inr out ↦ let e' = rw (more, out) at e in absurd (ground arith)
        | inl known ↦ given_place given (rw (more, known, at) at e)
      ]
    ]
  where
    given_place :
        (b : Bool)
        → (if b then check_place track_size disk track first sectors else (Code.null_address, none))
          ≡ (code, some r)
        → OnDisk track_size disk r
    given_place true e = check_place-OnDisk track_size disk track first sectors e
    given_place false e = absurd (ground arith)
