-- ===== src/Alloc/OpenBucket/Pins/Tests.antt =====
-- alloc/open_bucket.rs: pins and reuse in a pool with two open buckets, the first of them full.
use volmount.Common.{◌≡◌, refl, some, arith, false}
use volmount.Alloc.OpenBucket.{
  BchOpenBuckets, new_pool, alloc, put, hash_slot, find_prev, unlink, lookup, lookup_from,
}
use volmount.Alloc.OpenBucket.Pins.{
  inc_pin, dec_pin_and_put, add_to_partial, find_reusable, reuse_from, take_from_partial, take_from,
  popped, off_partial, pin_up, pin_down, handed, in_pool, is_open, is_some,
}
use volmount.Alloc.OpenBucket.Pins.Reuse.{
  Reused, Taken, find_reusable-Reused, take_from_partial-Taken,
}
use volmount.Alloc.OpenBucket.Pins.Count.{dec_pin_and_put-inc_pin}

abbrev one_full : BchOpenBuckets
one_full = (alloc 1 6 64 2 (alloc 0 5 0 1 new_pool).1).1

abbrev both_partial : BchOpenBuckets
both_partial = add_to_partial 1 (add_to_partial 2 one_full)

find_reusable_test : (find_reusable 8 one_full).0 ≡ some (2, 1, 6)
unfolding find_reusable reuse_from pin_up pin_down handed alloc hash_slot
find_reusable_test = refl

take_from_partial_test : (take_from_partial both_partial).0 ≡ some (2, 1, 6)
unfolding take_from_partial take_from popped off_partial pin_up pin_down handed add_to_partial
    in_pool alloc hash_slot
take_from_partial_test = refl

closed_test : is_open 1 6 (dec_pin_and_put 2 one_full).1 ≡ some false
unfolding is_open is_some lookup lookup_from dec_pin_and_put pin_down put unlink find_prev alloc
    hash_slot
closed_test = refl

find_reusable-Reused_example : Reused 1 8 one_full (find_reusable 8 one_full)
find_reusable-Reused_example = find_reusable-Reused 8 one_full

take_from_partial-Taken_example :
    Taken both_partial.partial_list both_partial (take_from_partial both_partial)
take_from_partial-Taken_example = take_from_partial-Taken both_partial

dec_pin_and_put-inc_pin_example : dec_pin_and_put 2 (inc_pin 2 one_full) ≡ (false, one_full)
unfolding alloc
dec_pin_and_put-inc_pin_example =
    dec_pin_and_put-inc_pin 2 one_full (omega arith) (omega arith) (omega arith)
