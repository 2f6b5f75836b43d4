-- ===== src/Alloc/OpenBucket/Unlink.antt =====
-- alloc/open_bucket.rs: the removal of an entry from the chain of its slot, in `put`.
use mathlib.Core.Path.{subst}
use volmount.Common.{
  ℕ, ◌≤◌, ◌≡◌, ◌≢◌, refl, arith, true, false, ◌==◌, List, [], ◌∷◌, length, contains, NoDup,
  ℕ_discrete, ap, sym, ◌∙◌, inl, inr, some,
}
use volmount.Alloc.OpenBucket.{store, OpenBucket, BchOpenBuckets, unlink, find_prev}
use volmount.Alloc.OpenBucket.Chains.{
  Chain, ends, link, Chain-frame, Chain-next, Chain-unlink, without, before, find_prev-before,
  before-contains, before-head, before-tail, without-head, without-tail,
}
use volmount.Alloc.OpenBucket.Pool.{store_here, store_there}

-- An entry but for its link.
abbrev pub no_hash : OpenBucket → OpenBucket
no_hash e = record e { hash = 0 }

-- What the removal from a hash chain changes: the slot's head and one link of the chain.
pub record Unlinks (slot idx : ℕ) (is : List ℕ) (p q : BchOpenBuckets) : Type 0 where
  pub chain_left : Chain (λ i. (q.entries i).hash) (q.hash_slots slot) (without idx is)
  pub other_slots : (s : ℕ) → s ≢ slot → q.hash_slots s ≡ p.hash_slots s
  pub other_links : (x : ℕ) → contains x is ≡ false → (q.entries x).hash ≡ (p.entries x).hash
  pub same_entry : (x : ℕ) → no_hash (q.entries x) ≡ no_hash (p.entries x)
  pub same_head : q.freelist_head ≡ p.freelist_head
  pub same_count : q.nr_free ≡ p.nr_free

pub Chain-nonzero :
    {f : ℕ → ℕ} {c : ℕ} {is : List ℕ} (x : ℕ) → Chain f c is → contains x is ≡ true → x ≢ 0
Chain-nonzero x ends m = absurd (ground arith)
Chain-nonzero x (link i is n k) m = ground (arith, Chain-nonzero x k)

unlink-first :
    (slot idx : ℕ) (p : BchOpenBuckets)
    → find_prev 129 p.entries idx 0 (p.hash_slots slot) ≡ some 0
    → unlink slot idx p ≡ record p { hash_slots = store p.hash_slots slot (p.entries idx).hash }
unfolding unlink
unlink-first slot idx p e = rw (e, unlink) refl

not_zero : (n : ℕ) → n ≢ 0 → (n == 0) ≡ false
not_zero n h = ground arith

unlink-later :
    (slot idx prev : ℕ) (p : BchOpenBuckets)
    → find_prev 129 p.entries idx 0 (p.hash_slots slot) ≡ some prev
    → prev ≢ 0
    → unlink slot idx p ≡ record p {
      entries = store p.entries prev (record (p.entries prev) { hash = (p.entries idx).hash });
    }
unfolding unlink
unlink-later slot idx prev p e n = rw (e, unlink, not_zero prev n) refl

first_left :
    (slot idx i : ℕ) (is : List ℕ) (p : BchOpenBuckets)
    → i ≡ idx
    → Chain (λ x. (p.entries x).hash) (p.entries i).hash is
    → Chain
        (λ x. (p.entries x).hash)
        (store p.hash_slots slot (p.entries idx).hash slot)
        (without idx (i ∷ is))
first_left slot idx i is p e r =
    rw (store_here p.hash_slots slot (p.entries idx).hash slot refl, without-head i idx is e)
      (subst (λ x. Chain (λ x. (p.entries x).hash) (p.entries x).hash is) e r)

-- A store of one link, in the entries and in the links alone.
abbrev relinked : BchOpenBuckets → ℕ → ℕ → ℕ → OpenBucket
relinked p prev v = store p.entries prev (record (p.entries prev) { hash = v })

relinked-hash :
    (p : BchOpenBuckets) (prev v x : ℕ)
    → store (λ i. (p.entries i).hash) prev v x ≡ (relinked p prev v x).hash
relinked-hash p prev v x = elim (ℕ_discrete x prev) [
  | yes e ↦
      store_here (λ i. (p.entries i).hash) prev v x e
      ∙ ap (λ e. e.hash)
          (sym (store_here p.entries prev (record (p.entries prev) { hash = v }) x e))
  | no n ↦
      store_there (λ i. (p.entries i).hash) prev v x n
      ∙ ap (λ e. e.hash)
          (sym (store_there p.entries prev (record (p.entries prev) { hash = v }) x n))
]

relinked-rest :
    (p : BchOpenBuckets) (prev v x : ℕ) → no_hash (relinked p prev v x) ≡ no_hash (p.entries x)
relinked-rest p prev v x = elim (ℕ_discrete x prev) [
  | yes e ↦
      ap no_hash (store_here p.entries prev (record (p.entries prev) { hash = v }) x e)
      ∙ ap (λ y. no_hash (p.entries y)) (sym e)
  | no n ↦ ap no_hash (store_there p.entries prev (record (p.entries prev) { hash = v }) x n)
]

prev_in :
    (i idx : ℕ) (is : List ℕ) → contains idx is ≡ true → contains (before i idx is) (i ∷ is) ≡ true
prev_in i idx is m = elim (before-contains i idx is m) [
  | inl e ↦ ground arith
  | inr q ↦ ground arith
]

later :
    (slot idx i : ℕ) (is : List ℕ) (p : BchOpenBuckets)
    → Chain (λ i. (p.entries i).hash) (p.hash_slots slot) (i ∷ is)
    → NoDup (i ∷ is)
    → contains idx is ≡ true
    → i ≢ idx
    → find_prev 129 p.entries idx 0 (p.hash_slots slot) ≡ some (before i idx is)
    → Unlinks slot idx (i ∷ is) p (unlink slot idx p)
later slot idx i is p k d m b found =
    let (h, z, r) = Chain-next k in
    rw
      (unlink-later slot idx (before i idx is) p found
        (Chain-nonzero (before i idx is) k (prev_in i idx is m)))
      (record {
        chain_left =
            rw (h, without-tail i idx is b)
              (Chain-frame (λ x q. relinked-hash p (before i idx is) (p.entries idx).hash x)
                (Chain-unlink (λ x. (p.entries x).hash) idx i is d m z r));
        other_slots = λ s q. refl;
        other_links = λ x q.
            ap (λ e. e.hash)
              (store_there p.entries (before i idx is) _ x
                (λ e. absurd (grind (arith, prev_in i idx is m, ap (λ y. contains y (i ∷ is)) e))));
        same_entry = λ x. relinked-rest p (before i idx is) (p.entries idx).hash x;
        same_head = refl;
        same_count = refl;
      })

pub unlink-Unlinks :
    (slot idx : ℕ) (is : List ℕ) (p : BchOpenBuckets)
    → Chain (λ i. (p.entries i).hash) (p.hash_slots slot) is
    → NoDup is
    → contains idx is ≡ true
    → length is ≤ 128
    → Unlinks slot idx is p (unlink slot idx p)
unlink-Unlinks slot idx [] p k d m le = absurd (ground arith)
unlink-Unlinks slot idx (i ∷ is) p k (n, d) m le =
    let (h, z, r) = Chain-next k in
    let found =
      find_prev-before p.entries 129 0 idx (p.hash_slots slot) (i ∷ is) k m (omega arith) in
    elim (ℕ_discrete i idx) [
      | yes e ↦ rw (unlink-first slot idx p (found ∙ ap some (before-head 0 i idx is e))) (record {
        chain_left = first_left slot idx i is p e r;
        other_slots = λ s q. store_there p.hash_slots slot (p.entries idx).hash s q;
        other_links = λ x q. refl;
        same_entry = λ x. refl;
        same_head = refl;
        same_count = refl;
      })
      | no b ↦
          later slot idx i is p k (n, d) (ground arith) b
            (found ∙ ap some (before-tail 0 i idx is b))
    ]
