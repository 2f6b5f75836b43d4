-- ===== src/Alloc/Tests.antt =====
-- alloc/bucket.rs, alloc/reservation.rs: runs on concrete states, and the laws applied to them.
use volmount.Alloc.Bucket.Derived.{derive_state_lem}
use volmount.Common.{◌≡◌, ◌≢◌, ◌↔◌, refl, arith, List, [], ◌∷◌}
use volmount.Alloc.Bucket.{
  user, free, need_gc_gens, need_discard, reserved, free_discarded, free_available, sb_only, Bucket,
  free_bucket, derive_state, derive_data_type,
}
use volmount.Alloc.Reservation.{
  no_flags, partial, DiskReservation, ReservationTracker, bch2_disk_reservation_add,
  bch2_disk_reservation_get,
}
use volmount.Alloc.Reservation.Ledger.{
  Ledger, Call, add, get, commit, put, calls, IsBalanced, calls-IsBalanced, call,
}

abbrev some_calls : List Call
some_calls = get 40 2 user no_flags ∷ add 0 30 user partial ∷ commit 0 25 ∷ put 0 ∷ []

abbrev empty_ledger : Ledger
empty_ledger = record { tracker = record { total_reserved = 0; max_reserved = 100 }; live = [] }

partial_test :
    (calls
      (get 40 2 user no_flags ∷ add 0 30 user partial ∷ [])
      empty_ledger).tracker.total_reserved
    ≡ 100
unfolding calls call bch2_disk_reservation_get bch2_disk_reservation_add
partial_test = refl

calls-IsBalanced_example :
    IsBalanced (calls some_calls empty_ledger)
    × ((calls some_calls empty_ledger).tracker.max_reserved ≡ 100)
calls-IsBalanced_example = calls-IsBalanced some_calls empty_ledger refl (omega arith)

abbrev tracker : ReservationTracker
tracker = record { total_reserved = 90; max_reserved = 100 }

abbrev reservation : DiskReservation
reservation = record { sectors = 90; nr_replicas = 1; data_type = user }

abbrev dirty_bucket : Bucket
unfolding free_bucket
dirty_bucket = record (free_bucket 0 7) { dirty_sectors = 3; state = need_gc_gens }

derive_state_test : derive_state dirty_bucket ≡ user
unfolding derive_state dirty_bucket free_bucket
derive_state_test = refl

derive_state_lem_example :
    (derive_state dirty_bucket
      ≡ derive_data_type dirty_bucket.dirty_sectors dirty_bucket.cached_sectors dirty_bucket.stripe
          dirty_bucket.state)
    × ((derive_state dirty_bucket ≡ free) ↔ (
        (dirty_bucket.dirty_sectors ≡ 0)
        × (dirty_bucket.cached_sectors ≡ 0)
        × (dirty_bucket.stripe ≡ 0)))
    × (derive_state dirty_bucket ≢ need_gc_gens)
    × (derive_state dirty_bucket ≢ need_discard)
    × (derive_state dirty_bucket ≢ reserved)
    × (derive_state dirty_bucket ≢ free_discarded)
    × (derive_state dirty_bucket ≢ free_available)
    × (derive_state dirty_bucket ≢ sb_only)
derive_state_lem_example = derive_state_lem dirty_bucket
