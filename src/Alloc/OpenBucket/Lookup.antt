-- ===== src/Alloc/OpenBucket/Lookup.antt =====
-- alloc/open_bucket.rs: `lookup` finds the open bucket of a group and an index, if there is one.
use mathlib.Core.Path.{subst}
use volmount.Common.{
  ℕ, zero, suc, ◌<◌, ◌≡◌, ◌≢◌, arith, true, ◌==◌, ◌&&◌, none, some, List, length, contains, ap, ◌∙◌,
  Bool-cases, inl, inr, ℕ_discrete,
}
use volmount.Alloc.OpenBucket.{OpenBucket, BchOpenBuckets, slot_of, hash_slot, lookup, lookup_from}
use volmount.Alloc.OpenBucket.Chains.{Chain, ends, link}
use volmount.Alloc.OpenBucket.Pool.{IsPool, lengths-get}
use volmount.Alloc.OpenBucket.Alloc.{hash_slot-lt}

-- An entry is open for a bucket of a group.
abbrev pub OpenFor : ℕ → ℕ → OpenBucket → Type 0
OpenFor g b e = (e.group_id ≡ g) × (e.bucket_bi ≡ b) × (e.valid ≡ true)

module _ (entries : ℕ → OpenBucket) (g b : ℕ) where
  lookup_from-answers :
      (fuel c : ℕ) (is : List ℕ)
      → Chain (λ i. (entries i).hash) c is
      → length is < fuel
      → lookup_from fuel entries g b c ≢ none
  unfolding lookup_from
  lookup_from-answers zero c is k lt = absurd (omega arith)
  lookup_from-answers (suc fuel) _ _ ends lt = ground arith
  lookup_from-answers (suc fuel) _ _ (link i is n k) lt =
      ground (arith, lookup_from-answers fuel (entries i).hash is k)

  lookup_from-finds :
      (fuel c i : ℕ) → lookup_from fuel entries g b c ≡ some (some i) → OpenFor g b (entries i)
  unfolding lookup_from
  lookup_from-finds zero c i h = absurd (ground arith)
  lookup_from-finds (suc fuel) c i h = elim (Bool-cases (c == 0)) [
    | inl z ↦ absurd (ground arith)
    | inr z ↦
        elim (Bool-cases
          ((entries c).group_id == g && (entries c).bucket_bi == b && (entries c).valid)) [
            | inl m ↦
                let p : c ≡ i = ground arith in
                subst (λ x. OpenFor g b (entries x)) p (ground arith, ground arith, ground arith)
            | inr m ↦ lookup_from-finds fuel (entries c).hash i (ground arith)
          ]
  ]

  lookup_from-misses :
      (fuel c : ℕ) (is : List ℕ) (i : ℕ)
      → Chain (λ i. (entries i).hash) c is
      → lookup_from fuel entries g b c ≡ some none
      → contains i is ≡ true
      → ¬ OpenFor g b (entries i)
  unfolding lookup_from
  lookup_from-misses zero c is i k h m o = absurd (ground arith)
  lookup_from-misses (suc fuel) _ _ i ends h m o = absurd (ground arith)
  lookup_from-misses (suc fuel) _ _ i (link j is n k) h m o = elim (ℕ_discrete i j) [
    | yes e ↦
        let (x, y, v) : OpenFor g b (entries j) = subst (λ z. OpenFor g b (entries z)) e o in
        absurd (ground arith)
    | no q ↦ lookup_from-misses fuel (entries j).hash is i k (ground arith) (ground arith) o
  ]

placed_in :
    (g b : ℕ) (p : BchOpenBuckets) (free : List ℕ) (open_in : ℕ → List ℕ)
    → IsPool p free open_in
    → (i : ℕ) → OpenFor g b (p.entries i)
    → contains i (open_in (hash_slot g b)) ≡ true
unfolding slot_of
placed_in g b p free open_in pool i (x, y, v) =
    ap (λ s. contains i (open_in s)) (cc) ∙ pool.valid_placed i v

-- In a pool that satisfies its invariant, `lookup` returns; what it finds is a valid entry of that
-- group and bucket; and if it finds none, there is no such entry.
pub lookup_correct :
    (g b : ℕ) (p : BchOpenBuckets) (free : List ℕ) (open_in : ℕ → List ℕ)
    → IsPool p free open_in
    → (lookup g b p ≢ none)
      × ((i : ℕ) → lookup g b p ≡ some (some i) → OpenFor g b (p.entries i))
      × (lookup g b p ≡ some none → (i : ℕ) → ¬ OpenFor g b (p.entries i))
unfolding lookup
lookup_correct g b p free open_in pool = (
  lookup_from-answers p.entries g b 129 _ (open_in (hash_slot g b))
      (pool.open_chain (hash_slot g b))
      (omega (arith, lengths-get 128 open_in (hash_slot g b) (hash_slot-lt g b), pool.all_placed)),
  lookup_from-finds p.entries g b 129 (p.hash_slots (hash_slot g b)),
  λ h i o.
      lookup_from-misses p.entries g b 129 _ (open_in (hash_slot g b)) i
        (pool.open_chain (hash_slot g b)) h (placed_in g b p free open_in pool i o) o,
)
