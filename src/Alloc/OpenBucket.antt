-- ===== src/Alloc/OpenBucket.antt =====
-- alloc/open_bucket.rs: the pool of open buckets, its free list and its hash table, both linked through
-- the entries by index, where 0 ends a list. Each call runs under `freelist_lock` and is one step.
-- The vectors are functions of the index; the guards on `entries.len()` are written out.
pub mod Chains
pub mod Pool
pub mod Alloc
pub mod Unlink
pub mod Put
pub mod Lookup
pub mod Runs
pub mod Pins
mod Tests
use Prim.Native.Nat.{bit_xor}
use volmount.Common.{
  ℕ, zero, suc, ◌+◌, ◌-◌, ◌*◌, ◌/◌, ◌%◌, ◌^◌, ltb, leb, ◌==◌, if◌then◌else◌, Bool, true, false, not,
  ◌&&◌, ◌||◌, Option, none, some, List, [], ◌∷◌, ◌++◌, Result, ok, err, u32, add64,
}

abbrev pub open_buckets_count : ℕ
open_buckets_count = 128

pub record OpenBucket : Type 0 where
  pub pin : ℕ
  pub valid : Bool
  pub group_id : ℕ
  pub bucket_bi : ℕ
  pub sectors_free : ℕ
  pub freelist : ℕ
  pub hash : ℕ
  pub on_partial_list : Bool
  pub gen : ℕ

pub record BchOpenBuckets : Type 0 where
  pub entries : ℕ → OpenBucket
  pub freelist_head : ℕ
  pub nr_free : ℕ
  pub hash_slots : ℕ → ℕ
  pub partial_list : List ℕ
  pub nr_partial : ℕ

abbrev pub new_bucket : OpenBucket
new_bucket = record {
  pin = 0;
  valid = false;
  group_id = 0;
  bucket_bi = 0;
  sectors_free = 0;
  freelist = 0;
  hash = 0;
  on_partial_list = false;
  gen = 0;
}

-- The free list of a new pool is 1, 2, ..., 128.
abbrev pub new_pool : BchOpenBuckets
new_pool = record {
  entries = λ i.
      if not (i == 0) && ltb i open_buckets_count
      then record new_bucket { freelist = i + 1 }
      else new_bucket;
  freelist_head = 1;
  nr_free = open_buckets_count;
  hash_slots = λ s. 0;
  partial_list = [];
  nr_partial = 0;
}

-- A store into a vector.
abbrev pub store {ℓ} : {A : Type ℓ} → (ℕ → A) → ℕ → A → ℕ → A
store f i v j = if j == i then v else f j

-- The mixing of the two words; the mask at the end is the remainder by 128.
unfoldable pub hash_slot : ℕ → ℕ → ℕ
hash_slot group_id bucket_bi =
    let h = u32 (u32 (group_id * 3432918353) + u32 (bucket_bi * 461845907)) in
    let h1 = bit_xor h (h / 2 ^ 16) in
    let h2 = u32 (h1 * 2246822507) in
    let h3 = bit_xor h2 (h2 / 2 ^ 13) in
    let h4 = u32 (h3 * 3266489909) in let h5 = bit_xor h4 (h4 / 2 ^ 16) in h5 % 128

unfoldable pub slot_of : OpenBucket → ℕ
slot_of e = hash_slot e.group_id e.bucket_bi

-- `StorageError::AddressSpaceExhausted`
pub data Exhausted : Type 0 where
  exhausted : (max_raw_addr : ℕ) → Exhausted

unfoldable pub alloc : ℕ → ℕ → ℕ → ℕ → BchOpenBuckets → Result ℕ Exhausted × BchOpenBuckets
alloc group_id bucket_bi sectors_free gen p =
    let idx = p.freelist_head in
    if idx == 0
    then (err (exhausted open_buckets_count), p)
    else let e = p.entries idx in
      let slot = hash_slot group_id bucket_bi in
      (
        ok idx,
        record p {
          entries = store p.entries idx (record e {
            pin = 1;
            valid = true;
            group_id = group_id;
            bucket_bi = bucket_bi;
            sectors_free = sectors_free;
            gen = gen;
            hash = p.hash_slots slot;
          });
          freelist_head = e.freelist;
          hash_slots = store p.hash_slots slot idx;
          nr_free = u32 (p.nr_free + 2 ^ 32 - 1);
        },
      )

-- The `while` along a hash chain to `idx`, on fuel: the entry before it (0 if it is the first), if it
-- is there.
unfoldable pub find_prev : ℕ → (ℕ → OpenBucket) → ℕ → ℕ → ℕ → Option ℕ
find_prev zero entries idx prev cur = none
find_prev (suc fuel) entries idx prev cur =
    let rest = find_prev fuel entries idx cur (entries cur).hash in
    if cur == 0 then none else if cur == idx then some prev else rest

-- The removal of an entry from the chain of its slot.
unfoldable pub unlink : ℕ → ℕ → BchOpenBuckets → BchOpenBuckets
unfolding find_prev
unlink slot idx p = elim (find_prev (suc open_buckets_count) p.entries idx 0 (p.hash_slots slot)) [
  | none ↦ p
  | some prev ↦
      if prev == 0
      then record p { hash_slots = store p.hash_slots slot (p.entries idx).hash }
      else record p {
        entries = store p.entries prev (record (p.entries prev) { hash = (p.entries idx).hash });
      }
]

unfoldable pub put : ℕ → BchOpenBuckets → BchOpenBuckets
unfolding unlink
put idx p =
    if (idx == 0) || leb (open_buckets_count + 1) idx
    then p
    else let e = record (p.entries idx) { valid = false; pin = 0; on_partial_list = false } in
      let q =
        unlink (hash_slot e.group_id e.bucket_bi) idx
          (record p { entries = store p.entries idx e }) in
      record q {
        entries = store q.entries idx (record (q.entries idx) { freelist = q.freelist_head });
        freelist_head = idx;
        nr_free = u32 (q.nr_free + 1);
      }

-- The `while` of `lookup`, on fuel: the answer none is `some none`.
unfoldable pub lookup_from : ℕ → (ℕ → OpenBucket) → ℕ → ℕ → ℕ → Option (Option ℕ)
lookup_from zero entries group_id bucket_bi cur = none
lookup_from (suc fuel) entries group_id bucket_bi cur =
    let e = entries cur in
    let rest = lookup_from fuel entries group_id bucket_bi e.hash in
    if cur == 0
    then some none
    else if e.group_id == group_id && e.bucket_bi == bucket_bi && e.valid
    then some (some cur)
    else rest

unfoldable pub lookup : ℕ → ℕ → BchOpenBuckets → Option (Option ℕ)
lookup group_id bucket_bi p =
    lookup_from (suc open_buckets_count) p.entries group_id bucket_bi
      (p.hash_slots (hash_slot group_id bucket_bi))

unfoldable pub nr_open : BchOpenBuckets → ℕ
nr_open p = u32 (open_buckets_count + 2 ^ 32 - p.nr_free)
