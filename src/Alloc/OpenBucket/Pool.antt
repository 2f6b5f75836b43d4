-- ===== src/Alloc/OpenBucket/Pool.antt =====
-- alloc/open_bucket.rs: the invariant of the pool.
use volmount.Common.{
  ℕ, zero, suc, ◌+◌, ◌<◌, ◌≤◌, ◌≡◌, ◌≢◌, refl, arith, true, false, List, length, contains, NoDup,
  ℕ_discrete, ap,
}
use volmount.Alloc.OpenBucket.{store, BchOpenBuckets, slot_of}
use volmount.Alloc.OpenBucket.Chains.{Chain}

pub store_here {ℓ} : {A : Type ℓ} (f : ℕ → A) (s : ℕ) (v : A) (t : ℕ) → t ≡ s → store f s v t ≡ v
store_here f s v t e = ground arith

pub store_there {ℓ} : {A : Type ℓ} (f : ℕ → A) (s : ℕ) (v : A) (t : ℕ) → t ≢ s → store f s v t ≡ f t
store_there f s v t n = ground arith

-- The lengths of the lists of the first `n` slots together.
abbrev pub lengths : ℕ → (ℕ → List ℕ) → ℕ
lengths zero f = 0
lengths (suc n) f = length (f n) + lengths n f

pub lengths-get : (n : ℕ) (f : ℕ → List ℕ) (s : ℕ) → s < n → length (f s) ≤ lengths n f
lengths-get zero f s h = absurd (omega arith)
lengths-get (suc n) f s h = elim (ℕ_discrete s n) [
  | yes e ↦ omega (arith, ap (λ x. length (f x)) e)
  | no m ↦ omega (arith, lengths-get n f s (omega arith))
]

lengths-beyond :
    (n : ℕ) (f : ℕ → List ℕ) (s : ℕ) (l : List ℕ) → n ≤ s → lengths n (store f s l) ≡ lengths n f
lengths-beyond zero f s l h = refl
lengths-beyond (suc n) f s l h = ground (arith, lengths-beyond n f s l)

pub lengths-store :
    (n : ℕ) (f : ℕ → List ℕ) (s : ℕ) (l : List ℕ)
    → s < n
    → lengths n (store f s l) + length (f s) ≡ lengths n f + length l
lengths-store zero f s l h = absurd (omega arith)
lengths-store (suc n) f s l h = elim (ℕ_discrete n s) [
  | yes e ↦ omega (
    arith,
    ap length (store_here f s l n e),
    lengths-beyond n f s l (omega arith),
    ap (λ x. length (f x)) e,
  )
  | no m ↦ omega (arith, ap length (store_there f s l n m), lengths-store n f s l (omega arith))
]

-- The free list is `free`, the chain of slot `s` is `open_in s`; each index from 1 to 128 is in just
-- one of them.
pub record IsPool (p : BchOpenBuckets) (free : List ℕ) (open_in : ℕ → List ℕ) : Type 0 where
  pub free_chain : Chain (λ i. (p.entries i).freelist) p.freelist_head free
  pub open_chain : (s : ℕ) → Chain (λ i. (p.entries i).hash) (p.hash_slots s) (open_in s)
  pub free_once : NoDup free
  pub open_once : (s : ℕ) → NoDup (open_in s)
  pub free_closed : (i : ℕ) → contains i free ≡ true → ((p.entries i).valid ≡ false) × (i ≤ 128)
  pub in_own_slot :
      (s i : ℕ)
      → contains i (open_in s) ≡ true
      → ((p.entries i).valid ≡ true) × (slot_of (p.entries i) ≡ s) × (i ≤ 128)
  pub valid_placed :
      (i : ℕ) → (p.entries i).valid ≡ true → contains i (open_in (slot_of (p.entries i))) ≡ true
  pub all_placed : length free + lengths 128 open_in ≡ 128
  pub counted : p.nr_free ≡ length free
