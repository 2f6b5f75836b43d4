-- ===== src/Alloc/Reservation.antt =====
-- alloc/reservation.rs: reservations of disk sectors against a budget. `Cell` and `AtomicU64` are
-- fields of the state, and each call is one atomic step. Sums of `u64` wrap as in a release build.
pub mod Calls
pub mod Ledger
use volmount.Common.{
  ℕ, ◌+◌, ◌-◌, ◌*◌, ◌^◌, ltb, ◌==◌, if◌then◌else◌, u64, Bool, ◌||◌, min, Result, ok, err, add64,
  sub64,
}
use volmount.Alloc.Bucket.{BchDataType}

pub data BchReservationFlags : Type 0 where
  no_flags : BchReservationFlags
  nofail : BchReservationFlags
  partial : BchReservationFlags

pub record DiskReservation : Type 0 where
  pub sectors : ℕ
  pub nr_replicas : ℕ
  pub data_type : BchDataType

unfoldable pub init : ℕ → DiskReservation
init nr_replicas = record { sectors = 0; nr_replicas = nr_replicas; data_type = BchDataType.free }

unfoldable pub new_reservation : ℕ → BchDataType → DiskReservation
new_reservation sectors data_type = record {
  sectors = sectors;
  nr_replicas = 1;
  data_type = data_type;
}

unfoldable pub is_valid : DiskReservation → Bool
is_valid r = ltb 0 r.sectors

unfoldable pub is_empty : DiskReservation → Bool
is_empty r = r.sectors == 0

pub record ReservationTracker : Type 0 where
  pub total_reserved : ℕ
  pub max_reserved : ℕ

-- `saturating_sub` is the truncated subtraction of ℕ.
unfoldable pub new_tracker : ℕ → ℕ → ReservationTracker
new_tracker total_sectors reserved_margin = record {
  total_reserved = 0;
  max_reserved = total_sectors - reserved_margin;
}

unfoldable pub available : ReservationTracker → ℕ
available t = t.max_reserved - t.total_reserved

-- `StorageError::AddressSpaceExhausted`, the only error here.
pub record AddressSpaceExhausted : Type 0 where
  pub max_raw_addr : ℕ

abbrev pub Outcome : Type 0
Outcome = Result (Unit {0}) AddressSpaceExhausted × ReservationTracker × DiskReservation

abbrev exhausted : ReservationTracker → Result (Unit {0}) AddressSpaceExhausted
exhausted t = err (record { max_raw_addr = t.max_reserved })

abbrev grown : ReservationTracker → ℕ → ReservationTracker
grown t n = record t { total_reserved = add64 t.total_reserved n }

abbrev shrunk : ReservationTracker → ℕ → ReservationTracker
shrunk t n = record t { total_reserved = sub64 t.total_reserved n }

abbrev granted : DiskReservation → ℕ → BchDataType → DiskReservation
granted r n d = record r { sectors = u64 (r.sectors + n); data_type = d }

-- The `match flags` of a request over the budget. `t` already counts the sectors; `current` is the
-- count before.
over_budget :
    ℕ → ReservationTracker → DiskReservation → ℕ → BchDataType → BchReservationFlags → Outcome
over_budget current t r sectors data_type nofail = (ok tt, t, granted r sectors data_type)
over_budget current t r sectors data_type partial =
    let actual = t.max_reserved - current in
    if actual == 0
    then (exhausted t, shrunk t sectors, r)
    else (ok tt, grown (shrunk t sectors) actual, granted r actual data_type)
over_budget current t r sectors data_type no_flags = (exhausted t, shrunk t sectors, r)

unfoldable pub bch2_disk_reservation_add :
    ReservationTracker → DiskReservation → ℕ → BchDataType → BchReservationFlags → Outcome
unfolding over_budget
bch2_disk_reservation_add t r sectors data_type flags =
    if sectors == 0
    then (ok tt, t, r)
    else let current = t.total_reserved in
      let t' = grown t sectors in
      let would_be = u64 (current + sectors) in
      if ltb t.max_reserved would_be
      then over_budget current t' r sectors data_type flags
      else (ok tt, t', granted r sectors data_type)

-- The reservation is dropped on an error: `?` returns before `Ok(res)`.
unfoldable pub bch2_disk_reservation_get :
    ReservationTracker
    → ℕ
    → ℕ
    → BchDataType
    → BchReservationFlags
    → Result DiskReservation AddressSpaceExhausted × ReservationTracker
unfolding init bch2_disk_reservation_add
bch2_disk_reservation_get t sectors nr_replicas data_type flags =
    let (answer, t', r) =
      bch2_disk_reservation_add t (init nr_replicas) (u64 (sectors * nr_replicas)) data_type
        flags in
    elim answer [ ok _ ↦ (ok r, t') | err e ↦ (err e, t') ]

unfoldable pub bch2_disk_reservation_commit :
    ReservationTracker → DiskReservation → ℕ → ReservationTracker × DiskReservation
bch2_disk_reservation_commit t r used_sectors =
    if (used_sectors == 0) || (r.sectors == 0)
    then (t, r)
    else let actual = min used_sectors r.sectors in
      (shrunk t actual, record r { sectors = r.sectors - actual })

unfoldable pub bch2_disk_reservation_put :
    ReservationTracker → DiskReservation → ReservationTracker × DiskReservation
bch2_disk_reservation_put t r =
    let remaining = r.sectors in
    let r' = record r { sectors = 0 } in
    if remaining == 0 then (t, r') else (shrunk t remaining, r')
