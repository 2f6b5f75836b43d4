-- ===== src/Alloc/OpenBucket/Pins.antt =====
-- alloc/open_bucket.rs: pins, the sectors left, the partial list and the reuse of open buckets. Each
-- call is one step. The head of `partial_list` is the index that was pushed last. `inc_pin` and
-- `dec_pin_and_put` index the vector without a guard, their callers pass an index of the pool.
pub mod Reuse
pub mod Frame
pub mod Count
mod Tests
use volmount.Common.{
  ℕ, zero, suc, ◌+◌, ◌-◌, ◌^◌, ltb, leb, ◌==◌, if◌then◌else◌, Bool, true, false, not, ◌&&◌, ◌||◌,
  Option, none, some, List, [], ◌∷◌, u32,
}
use volmount.Alloc.OpenBucket.{OpenBucket, BchOpenBuckets, open_buckets_count, store, put, lookup}

unfoldable pub is_some {ℓ} : {A : Type ℓ} → Option A → Bool
is_some none = false
is_some (some x) = true

-- Nothing if the walk of `lookup` does not end.
unfoldable pub is_open : ℕ → ℕ → BchOpenBuckets → Option Bool
unfolding lookup is_some
is_open group_id bucket_bi p = elim (lookup group_id bucket_bi p) [
  | none ↦ none
  | some found ↦ some (is_some found)
]

unfoldable pub in_pool : ℕ → Bool
in_pool idx = not (idx == 0) && leb idx open_buckets_count

unfoldable pub get_entry : ℕ → BchOpenBuckets → Option OpenBucket
unfolding in_pool
get_entry idx p = if in_pool idx then some (p.entries idx) else none

-- `pin.fetch_add(1)` and `pin.fetch_sub(1)` on an entry.
unfoldable pub pin_up : ℕ → BchOpenBuckets → BchOpenBuckets
pin_up idx p =
    let e = p.entries idx in
    record p { entries = store p.entries idx (record e { pin = u32 (e.pin + 1) }) }

unfoldable pub pin_down : ℕ → BchOpenBuckets → BchOpenBuckets
pin_down idx p =
    let e = p.entries idx in
    record p { entries = store p.entries idx (record e { pin = u32 (e.pin + 2 ^ 32 - 1) }) }

unfoldable pub inc_pin : ℕ → BchOpenBuckets → BchOpenBuckets
unfolding pin_up
inc_pin idx p = if idx == 0 then p else pin_up idx p

unfoldable pub dec_pin_and_put : ℕ → BchOpenBuckets → Bool × BchOpenBuckets
unfolding pin_down put
dec_pin_and_put idx p =
    if idx == 0
    then (false, p)
    else if (p.entries idx).pin == 1
    then (true, put idx (pin_down idx p))
    else (false, pin_down idx p)

unfoldable pub consume_free_sectors : ℕ → ℕ → BchOpenBuckets → BchOpenBuckets
unfolding in_pool
consume_free_sectors idx sectors p =
    if in_pool idx
    then (let e = p.entries idx in
        record p {
          entries =
              store p.entries idx
                (record e { sectors_free = u32 (e.sectors_free + 2 ^ 32 - u32 sectors) });
        })
    else p

unfoldable pub add_to_partial : ℕ → BchOpenBuckets → BchOpenBuckets
unfolding in_pool
add_to_partial idx p =
    let e = p.entries idx in
    if in_pool idx && e.valid
    then record p {
      entries = store p.entries idx (record e { on_partial_list = true });
      partial_list = idx ∷ p.partial_list;
      nr_partial = u32 (p.nr_partial + 1);
    }
    else p

-- `nr_partial.fetch_sub(1)` after a `pop` that leaves the list `l`.
unfoldable pub popped : List ℕ → BchOpenBuckets → BchOpenBuckets
popped l p = record p { partial_list = l; nr_partial = u32 (p.nr_partial + 2 ^ 32 - 1) }

unfoldable pub off_partial : ℕ → BchOpenBuckets → BchOpenBuckets
off_partial idx p = record p {
  entries = store p.entries idx (record (p.entries idx) { on_partial_list = false });
}

-- An index with its group and bucket.
unfoldable pub handed : ℕ → BchOpenBuckets → ℕ × ℕ × ℕ
handed idx p = (idx, (p.entries idx).group_id, (p.entries idx).bucket_bi)

-- The `while` over the list, which is `p.partial_list` at each round.
unfoldable pub take_from : List ℕ → BchOpenBuckets → Option (ℕ × ℕ × ℕ) × BchOpenBuckets
unfolding popped off_partial pin_up pin_down handed
take_from [] p = (none, p)
take_from (idx ∷ l) p =
    let e = p.entries idx in
    let skipped = take_from l (popped l p) in
    let q = pin_up idx (off_partial idx (popped l p)) in
    let undone = take_from l (pin_down idx q) in
    if e.valid && ltb 0 e.sectors_free
    then if (q.entries idx).valid then (some (handed idx q), q) else undone
    else skipped

unfoldable pub take_from_partial : BchOpenBuckets → Option (ℕ × ℕ × ℕ) × BchOpenBuckets
unfolding take_from
take_from_partial p = take_from p.partial_list p

-- The `for` over the last `n` entries.
unfoldable pub reuse_from : ℕ → ℕ → BchOpenBuckets → Option (ℕ × ℕ × ℕ) × BchOpenBuckets
unfolding pin_up pin_down handed
reuse_from zero sectors_needed p = (none, p)
reuse_from (suc n) sectors_needed p =
    let i = open_buckets_count - n in
    let e = p.entries i in
    let next = reuse_from n sectors_needed p in
    let q = pin_up i p in
    let undone = reuse_from n sectors_needed (pin_down i q) in
    if not e.valid
    then next
    else if leb sectors_needed e.sectors_free
    then if (q.entries i).valid then (some (handed i q), q) else undone
    else next

unfoldable pub find_reusable : ℕ → BchOpenBuckets → Option (ℕ × ℕ × ℕ) × BchOpenBuckets
unfolding reuse_from
find_reusable sectors_needed p = reuse_from open_buckets_count sectors_needed p
