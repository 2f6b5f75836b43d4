-- ===== src/Alloc/OpenBucket/Tests.antt =====
-- alloc/open_bucket.rs: a pool with two open buckets.
use volmount.Common.{ℕ, ◌≡◌, ◌≢◌, ◌⊎◌, refl, none, some, ok, err, false}
use volmount.Alloc.OpenBucket.{
  BchOpenBuckets, new_pool, alloc, put, lookup, lookup_from, hash_slot, find_prev, unlink,
  exhausted,
}
use volmount.Alloc.OpenBucket.Pins.{inc_pin}
use volmount.Alloc.OpenBucket.Lookup.{OpenFor}
use volmount.Alloc.OpenBucket.Runs.{Reach, start, allocs, pins, reachable_lookup, reachable_alloc}

abbrev two_open : BchOpenBuckets
two_open = inc_pin 1 (alloc 1 6 64 2 (alloc 0 5 64 1 new_pool).1).1

two_open-Reach : Reach two_open
two_open-Reach = pins 1 (allocs 1 6 64 2 (allocs 0 5 64 1 start))

lookup_test : lookup 0 5 (alloc 0 5 64 1 new_pool).1 ≡ some (some 1)
unfolding lookup lookup_from alloc hash_slot
lookup_test = refl

put_test : (put 1 (alloc 0 5 64 1 new_pool).1).nr_free ≡ 128
unfolding put unlink find_prev alloc hash_slot
put_test = refl

reachable_lookup_example :
    (lookup 0 5 two_open ≢ none)
    × ((i : ℕ) → lookup 0 5 two_open ≡ some (some i) → OpenFor 0 5 (two_open.entries i))
    × (lookup 0 5 two_open ≡ some none → (i : ℕ) → ¬ OpenFor 0 5 (two_open.entries i))
reachable_lookup_example = reachable_lookup 0 5 two_open-Reach

reachable_alloc_example :
    ((alloc 2 7 64 3 two_open ≡ (err (exhausted 128), two_open)) × (two_open.nr_free ≡ 0))
    ⊎ ((i : ℕ) × ((alloc 2 7 64 3 two_open).0 ≡ ok i)
        × ((two_open.entries i).valid ≡ false)
        × OpenFor 2 7 ((alloc 2 7 64 3 two_open).1.entries i)
        × ((j : ℕ) → j ≢ i → (alloc 2 7 64 3 two_open).1.entries j ≡ two_open.entries j))
reachable_alloc_example = reachable_alloc 2 7 64 3 two_open-Reach
