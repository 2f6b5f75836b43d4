-- ===== src/Alloc/OpenBucket/Runs.antt =====
-- alloc/open_bucket.rs: runs of all calls on a new pool.
use mathlib.Core.Path.{subst}
use volmount.Common.{
  ℕ, zero, suc, ◌+◌, ◌-◌, ◌<◌, ◌≤◌, ◌≡◌, ◌≢◌, ◌⊎◌, inl, inr, refl, arith, Bool-cases, true, false,
  none, some, List, [], ◌∷◌, length, contains, NoDup, ok, err, ap, sym, ◌∙◌,
}
use volmount.Alloc.OpenBucket.{BchOpenBuckets, new_pool, exhausted, alloc, put, lookup}
use volmount.Alloc.OpenBucket.Chains.{Chain, ends, link}
use volmount.Alloc.OpenBucket.Pool.{IsPool, lengths, store_here, store_there}
use volmount.Alloc.OpenBucket.Alloc.{alloc-ok, alloc-IsPool, idx_closed, opened}
use volmount.Alloc.OpenBucket.Put.{put-pool_after, put-IsPool}
use volmount.Alloc.OpenBucket.Pins.{
  inc_pin, dec_pin_and_put, pin_down, consume_free_sectors, add_to_partial, take_from_partial,
  find_reusable,
}
use volmount.Alloc.OpenBucket.Pins.Count.{unpinned}
use volmount.Alloc.OpenBucket.Pins.Frame.{
  core, same_core-IsPool, core-pin_down, core-inc_pin, core-consume_free_sectors,
  core-add_to_partial, core-take_from_partial, core-find_reusable,
}
use volmount.Alloc.OpenBucket.Lookup.{OpenFor, lookup_correct}

-- A new pool, and what calls make of it; only an open index is put, or given up by the pin.
pub data Reach : BchOpenBuckets → Type 0 where
  start : Reach new_pool
  allocs : {p : BchOpenBuckets} (g b sf gen : ℕ) → Reach p → Reach (alloc g b sf gen p).1
  puts : {p : BchOpenBuckets} (idx : ℕ) → (p.entries idx).valid ≡ true → Reach p → Reach (put idx p)
  pins : {p : BchOpenBuckets} (idx : ℕ) → Reach p → Reach (inc_pin idx p)
  unpins :
      {p : BchOpenBuckets} (idx : ℕ)
      → (p.entries idx).valid ≡ true
      → Reach p
      → Reach (dec_pin_and_put idx p).1
  consumes : {p : BchOpenBuckets} (idx s : ℕ) → Reach p → Reach (consume_free_sectors idx s p)
  leaves : {p : BchOpenBuckets} (idx : ℕ) → Reach p → Reach (add_to_partial idx p)
  takes : {p : BchOpenBuckets} → Reach p → Reach (take_from_partial p).1
  reuses : {p : BchOpenBuckets} (s : ℕ) → Reach p → Reach (find_reusable s p).1

-- The last `n` indices of the pool.
abbrev last : ℕ → List ℕ
last zero = []
last (suc n) = (128 - n) ∷ last n

last-bounds : (n x : ℕ) → n ≤ 128 → contains x (last n) ≡ true → (128 < x + n) × (x ≤ 128)
last-bounds zero x h m = absurd (ground arith)
last-bounds (suc n) x h m = ground (arith, last-bounds n x)

not_below : (n : ℕ) → suc n ≤ 128 → contains (128 - n) (last n) ≡ false
not_below n h = elim (Bool-cases (contains (128 - n) (last n))) [
  | inl m ↦ absurd (omega (arith, last-bounds n (128 - n) (omega arith) m))
  | inr f ↦ f
]

last-NoDup : (n : ℕ) → n ≤ 128 → NoDup (last n)
last-NoDup zero h = tt
last-NoDup (suc n) h = (not_below n h, last-NoDup n (omega arith))

next_free : (n : ℕ) → suc n ≤ 127 → 128 - n ≡ (new_pool.entries (128 - suc n)).freelist
next_free n h = ground arith

last-Chain : (n : ℕ) → n ≤ 127 → Chain (λ i. (new_pool.entries i).freelist) (128 - n) (last (suc n))
last-Chain zero h = link 128 [] (omega arith) ends
last-Chain (suc n) h = link (128 - suc n) (last (suc n)) (omega arith) (
    subst (λ c. Chain (λ i. (new_pool.entries i).freelist) c (last (suc n))) (next_free n h)
      (last-Chain n (omega arith)))

length-last : (n : ℕ) → length (last n) ≡ n
length-last zero = refl
length-last (suc n) = omega (arith, length-last n)

lengths-none : (n : ℕ) → lengths n (λ s. []) ≡ 0
lengths-none zero = refl
lengths-none (suc n) = omega (arith, lengths-none n)

never_valid : (i : ℕ) → (new_pool.entries i).valid ≡ false
never_valid i = ground arith

new_pool-IsPool : IsPool new_pool (last 128) (λ s. [])
new_pool-IsPool = record {
  free_chain = last-Chain 127 (omega arith);
  open_chain = λ s. ends;
  free_once = last-NoDup 128 (omega arith);
  open_once = λ s. tt;
  free_closed = λ i m. (never_valid i, (last-bounds 128 i (omega arith) m).1);
  in_own_slot = λ s i m. absurd (ground arith);
  valid_placed = λ i v. absurd (grind (arith, v, never_valid i));
  all_placed = omega (arith, length-last 128, lengths-none 128);
  counted = sym (length-last 128);
}

abbrev Pooled : BchOpenBuckets → Type 0
Pooled p = (free : List ℕ) × (open_in : ℕ → List ℕ) × IsPool p free open_in

alloc_empty :
    (g b sf gen : ℕ) (p : BchOpenBuckets)
    → p.freelist_head ≡ 0
    → alloc g b sf gen p ≡ (err (exhausted 128), p)
unfolding alloc
alloc_empty g b sf gen p e = rw e refl

Chain-nil : {f : ℕ → ℕ} {c : ℕ} → Chain f c [] → c ≡ 0
Chain-nil ends = refl

alloc-Pooled : (g b sf gen : ℕ) (p : BchOpenBuckets) → Pooled p → Pooled (alloc g b sf gen p).1
alloc-Pooled g b sf gen p ([], open_in, pool) =
    rw (alloc_empty g b sf gen p (Chain-nil pool.free_chain)) ([], open_in, pool)
alloc-Pooled g b sf gen p (idx ∷ rest, open_in, pool) =
    rw (alloc-ok g b sf gen p idx rest open_in pool)
      (rest, _, alloc-IsPool g b sf gen p idx rest open_in pool)

put-Pooled :
    (idx : ℕ) (p : BchOpenBuckets) → (p.entries idx).valid ≡ true → Pooled p → Pooled (put idx p)
put-Pooled idx p v (free, open_in, pool) =
    rw (put-pool_after p free open_in pool idx v)
      (idx ∷ free, _, put-IsPool p free open_in pool idx v)

same_core-Pooled : (p q : BchOpenBuckets) → core q ≡ core p → Pooled p → Pooled q
same_core-Pooled p q e (free, open_in, pool) =
    (free, open_in, same_core-IsPool p q free open_in e pool)

unpin-Pooled :
    (idx : ℕ) (p : BchOpenBuckets)
    → (p.entries idx).valid ≡ true
    → Pooled p
    → Pooled (dec_pin_and_put idx p).1
unpin-Pooled idx p v pool =
    let down = same_core-Pooled p (pin_down idx p) (core-pin_down idx p) pool in
    elim (unpinned idx p) [
      | inl e ↦ subst (λ r. Pooled r.1) (sym e) pool
      | inr (inl e) ↦
          subst (λ r. Pooled r.1) (sym e)
            (put-Pooled idx (pin_down idx p)
              (ap (λ r. (r.entries idx).valid) (core-pin_down idx p) ∙ v) down)
      | inr (inr e) ↦ subst (λ r. Pooled r.1) (sym e) down
    ]

Reach-Pooled : {p : BchOpenBuckets} → Reach p → Pooled p
Reach-Pooled start = (last 128, λ s. [], new_pool-IsPool)
Reach-Pooled (allocs {p} g b sf gen r) = alloc-Pooled g b sf gen p (Reach-Pooled r)
Reach-Pooled (puts {p} idx v r) = put-Pooled idx p v (Reach-Pooled r)
Reach-Pooled (pins {p} idx r) = same_core-Pooled p _ (core-inc_pin idx p) (Reach-Pooled r)
Reach-Pooled (unpins {p} idx v r) = unpin-Pooled idx p v (Reach-Pooled r)
Reach-Pooled (consumes {p} idx s r) =
    same_core-Pooled p _ (core-consume_free_sectors idx s p) (Reach-Pooled r)
Reach-Pooled (leaves {p} idx r) = same_core-Pooled p _ (core-add_to_partial idx p) (Reach-Pooled r)
Reach-Pooled (takes {p} r) = same_core-Pooled p _ (core-take_from_partial p) (Reach-Pooled r)
Reach-Pooled (reuses {p} s r) = same_core-Pooled p _ (core-find_reusable s p) (Reach-Pooled r)

-- In every pool that calls make of a new one, where `put` and `dec_pin_and_put` are called on valid
-- entries, `lookup` returns; what it finds is a valid entry of that group and bucket; and if it finds none, there is no
-- such entry.
pub reachable_lookup :
    {p : BchOpenBuckets} (g b : ℕ)
    → Reach p
    → (lookup g b p ≢ none)
      × ((i : ℕ) → lookup g b p ≡ some (some i) → OpenFor g b (p.entries i))
      × (lookup g b p ≡ some none → (i : ℕ) → ¬ OpenFor g b (p.entries i))
reachable_lookup {p} g b r =
    let (free, open_in, pool) = Reach-Pooled r in lookup_correct g b p free open_in pool

opens :
    (g b sf gen : ℕ) (p : BchOpenBuckets)
    → Pooled p
    → ((alloc g b sf gen p ≡ (err (exhausted 128), p)) × (p.nr_free ≡ 0))
      ⊎ ((i : ℕ) × ((alloc g b sf gen p).0 ≡ ok i)
          × ((p.entries i).valid ≡ false)
          × OpenFor g b ((alloc g b sf gen p).1.entries i)
          × ((j : ℕ) → j ≢ i → (alloc g b sf gen p).1.entries j ≡ p.entries j))
opens g b sf gen p ([], open_in, pool) =
    inl (alloc_empty g b sf gen p (Chain-nil pool.free_chain), pool.counted)
opens g b sf gen p (idx ∷ rest, open_in, pool) = inr (
  idx,
  ap (λ r. r.0) (alloc-ok g b sf gen p idx rest open_in pool),
  (idx_closed g b sf gen p idx rest open_in pool).0,
  rw
      (
        alloc-ok g b sf gen p idx rest open_in pool,
        store_here p.entries idx (opened g b sf gen p idx rest open_in pool) idx refl,
      )
      (refl, refl, refl),
  λ j n.
      rw (alloc-ok g b sf gen p idx rest open_in pool)
        (store_there p.entries idx (opened g b sf gen p idx rest open_in pool) j n),
)

-- In every pool that calls make of a new one, where `put` and `dec_pin_and_put` are called on valid
-- entries, `alloc` fails only when no entry is free, and then changes nothing; else it opens an entry that was not valid for
-- the group and bucket, and leaves all other entries alone.
pub reachable_alloc :
    {p : BchOpenBuckets} (g b sf gen : ℕ)
    → Reach p
    → ((alloc g b sf gen p ≡ (err (exhausted 128), p)) × (p.nr_free ≡ 0))
      ⊎ ((i : ℕ) × ((alloc g b sf gen p).0 ≡ ok i)
          × ((p.entries i).valid ≡ false)
          × OpenFor g b ((alloc g b sf gen p).1.entries i)
          × ((j : ℕ) → j ≢ i → (alloc g b sf gen p).1.entries j ≡ p.entries j))
reachable_alloc {p} g b sf gen r = opens g b sf gen p (Reach-Pooled r)
