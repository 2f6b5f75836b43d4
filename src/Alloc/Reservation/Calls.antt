-- ===== src/Alloc/Reservation/Calls.antt =====
-- alloc/reservation.rs: what a single call does to the budget and to its reservation.
use volmount.Common.{ℕ, ◌+◌, ◌-◌, ◌^◌, ◌≤◌, ◌<◌, ◌≡◌, arith}
use volmount.Alloc.Bucket.{BchDataType}
use volmount.Alloc.Reservation.{
  BchReservationFlags, no_flags, nofail, partial, DiskReservation, ReservationTracker,
  bch2_disk_reservation_add, bch2_disk_reservation_commit, bch2_disk_reservation_put,
}

-- A change that moves the same number of sectors in the tracker and in the reservation.
pub record Moves (t : ReservationTracker) (r : DiskReservation) (t' : ReservationTracker)
    (r' : DiskReservation) : Type 0 where
  pub same : t'.total_reserved + r.sectors ≡ t.total_reserved + r'.sectors
  pub budget : t'.max_reserved ≡ t.max_reserved

module _ (t : ReservationTracker) (r : DiskReservation) (s : ℕ) (d : BchDataType) where
  pub add-Moves :
      (flags : BchReservationFlags)
      → r.sectors ≤ t.total_reserved
      → t.total_reserved + s < 2 ^ 64
      → let (_, t', r') = bch2_disk_reservation_add t r s d flags in
        Moves t r t' r'
        × (t.total_reserved ≤ t'.total_reserved)
        × (t'.total_reserved ≤ t.total_reserved + s)
  unfolding bch2_disk_reservation_add
  add-Moves no_flags h fits = ground arith
  add-Moves nofail h fits = ground arith
  add-Moves partial h fits = ground arith

module _ (t : ReservationTracker) (r : DiskReservation) where
  pub commit-Moves :
      (used : ℕ)
      → r.sectors ≤ t.total_reserved
      → t.total_reserved < 2 ^ 64
      → let (t', r') = bch2_disk_reservation_commit t r used in
        Moves t r t' r' × (r'.sectors ≡ r.sectors - used)
  unfolding bch2_disk_reservation_commit
  commit-Moves used h fits = ground arith

  pub put-Moves :
      r.sectors ≤ t.total_reserved
      → t.total_reserved < 2 ^ 64
      → let (t', r') = bch2_disk_reservation_put t r in Moves t r t' r' × (r'.sectors ≡ 0)
  unfolding bch2_disk_reservation_put
  put-Moves h fits = ground arith
