-- ===== src/Alloc/OpenBucket/Put.antt =====
-- alloc/open_bucket.rs: `put` closes an open index.
use mathlib.Core.Path.{subst}
use volmount.Common.{
  ℕ, ◌+◌, ◌≤◌, ◌≡◌, ◌≢◌, refl, arith, true, false, ◌==◌, List, ◌∷◌, contains, NoDup, ℕ_discrete, ap,
  sym, ◌∙◌, u32, ◌||◌, Bool-cases, inl, inr, leb,
}
use volmount.Alloc.OpenBucket.{store, OpenBucket, BchOpenBuckets, slot_of, hash_slot, put, unlink}
use volmount.Alloc.OpenBucket.Chains.{
  Chain, link, Chain-frame, without, contains-without_in, contains-without_other,
  contains-without_none, NoDup-without, length-without,
}
use volmount.Alloc.OpenBucket.Pool.{IsPool, store_here, store_there, lengths-store, lengths-get}
use volmount.Alloc.OpenBucket.Alloc.{hash_slot-lt, contains-tail}
use volmount.Alloc.OpenBucket.Unlink.{no_hash, Unlinks, unlink-Unlinks, Chain-nonzero}

guard_passed : (i : ℕ) → i ≢ 0 → i ≤ 128 → ((i == 0) || leb 129 i) ≡ false
guard_passed i n le = ground arith

module _ (p : BchOpenBuckets) (free : List ℕ) (open_in : ℕ → List ℕ) (pool : IsPool p free open_in)
    (idx : ℕ) (is_valid : (p.entries idx).valid ≡ true) where
  abbrev slot : ℕ
  slot = hash_slot (p.entries idx).group_id (p.entries idx).bucket_bi

  abbrev closed : OpenBucket
  closed = record (p.entries idx) { valid = false; pin = 0; on_partial_list = false }

  abbrev marked : BchOpenBuckets
  marked = record p { entries = store p.entries idx closed }

  abbrev q : BchOpenBuckets
  q = unlink slot idx marked

  abbrev pool_after : BchOpenBuckets
  pool_after = record q {
    entries = store q.entries idx (record (q.entries idx) { freelist = q.freelist_head });
    freelist_head = idx;
    nr_free = u32 (q.nr_free + 1);
  }

  abbrev open_after : ℕ → List ℕ
  open_after = store open_in slot (without idx (open_in slot))

  slot_is : slot_of (p.entries idx) ≡ slot
  unfolding slot_of
  slot_is = refl

  is_open : contains idx (open_in slot) ≡ true
  is_open = subst (λ s. contains idx (open_in s) ≡ true) slot_is (pool.valid_placed idx is_valid)

  in_range : (idx ≢ 0) × (idx ≤ 128)
  in_range =
      (Chain-nonzero idx (pool.open_chain slot) is_open, (pool.in_own_slot slot idx is_open).2)

  pub put-pool_after : put idx p ≡ pool_after
  unfolding put
  put-pool_after = rw (guard_passed idx in_range.0 in_range.1, put) refl

  same_hash : (x : ℕ) → (p.entries x).hash ≡ (marked.entries x).hash
  same_hash x = elim (ℕ_discrete x idx) [
    | yes e ↦
        ap (λ y. (p.entries y).hash) e
        ∙ ap (λ e. e.hash) (sym (store_here p.entries idx closed x e))
    | no n ↦ ap (λ e. e.hash) (sym (store_there p.entries idx closed x n))
  ]

  u : Unlinks slot idx (open_in slot) marked q
  u =
      unlink-Unlinks slot idx (open_in slot) marked
        (Chain-frame (λ x m. same_hash x) (pool.open_chain slot)) (pool.open_once slot) is_open
        (omega (
          arith,
          lengths-get 128 open_in slot
              (hash_slot-lt (p.entries idx).group_id (p.entries idx).bucket_bi),
          pool.all_placed,
        ))

  -- Every other entry keeps all but its link.
  other : (x : ℕ) → x ≢ idx → no_hash (p.entries x) ≡ no_hash (pool_after.entries x)
  other x n =
      ap no_hash (sym (store_there p.entries idx closed x n))
      ∙ sym (u.same_entry x)
      ∙ ap no_hash (
          sym
            (store_there q.entries idx (record (q.entries idx) { freelist = q.freelist_head }) x n))

  own : pool_after.entries idx ≡ record (q.entries idx) { freelist = q.freelist_head }
  own = store_here q.entries idx (record (q.entries idx) { freelist = q.freelist_head }) idx refl

  own_closed : (pool_after.entries idx).valid ≡ false
  own_closed =
      ap (λ e. e.valid) own
      ∙ ap (λ e. e.valid) (u.same_entry idx)
      ∙ ap (λ e. e.valid) (store_here p.entries idx closed idx refl)

  link_after : (x : ℕ) → (q.entries x).hash ≡ (pool_after.entries x).hash
  link_after x = elim (ℕ_discrete x idx) [
    | yes e ↦
        ap (λ y. (q.entries y).hash) e
        ∙ ap (λ e. e.hash)
            (sym (
              store_here q.entries idx (record (q.entries idx) { freelist = q.freelist_head }) x e))
    | no n ↦
        ap (λ e. e.hash)
          (sym
            (store_there q.entries idx (record (q.entries idx) { freelist = q.freelist_head }) x n))
  ]

  not_free : (x : ℕ) → contains x free ≡ true → x ≢ idx
  not_free x m e =
      absurd (grind (arith, (pool.free_closed x m).0, is_valid, ap (λ i. (p.entries i).valid) e))

  other_slot :
      (s x : ℕ) → contains x (open_in s) ≡ true → s ≢ slot → contains x (open_in slot) ≡ false
  other_slot s x m n = elim (Bool-cases (contains x (open_in slot))) [
    | inl k ↦ absurd (n (sym (pool.in_own_slot s x m).1 ∙ (pool.in_own_slot slot x k).1))
    | inr k ↦ k
  ]

  not_same : (s x : ℕ) → contains x (open_in s) ≡ true → s ≢ slot → x ≢ idx
  not_same s x m n e =
      absurd (grind (arith, other_slot s x m n, is_open, ap (λ i. contains i (open_in slot)) e))

  here_slot : (s : ℕ) → s ≡ slot → open_after s ≡ without idx (open_in slot)
  here_slot s e = store_here open_in slot (without idx (open_in slot)) s e

  there_slot : (s : ℕ) → s ≢ slot → open_after s ≡ open_in s
  there_slot s n = store_there open_in slot (without idx (open_in slot)) s n

  free-Chain_after : Chain (λ i. (pool_after.entries i).freelist) idx (idx ∷ free)
  free-Chain_after = link idx free in_range.0 (
      subst (λ c. Chain (λ i. (pool_after.entries i).freelist) c free)
        (sym (ap (λ e. e.freelist) own ∙ u.same_head))
        (Chain-frame (λ x m. ap (λ e. e.freelist) (other x (not_free x m))) pool.free_chain))

  open-Chain_after :
      (s : ℕ) → Chain (λ i. (pool_after.entries i).hash) (pool_after.hash_slots s) (open_after s)
  open-Chain_after s = elim (ℕ_discrete s slot) [
    | yes e ↦ rw (here_slot s e) (
        subst
          (λ t.
            Chain (λ i. (pool_after.entries i).hash) (q.hash_slots t) (without idx (open_in slot)))
          (sym e) (Chain-frame (λ x m. link_after x) u.chain_left))
    | no n ↦ rw (there_slot s n) (
        subst (λ c. Chain (λ i. (pool_after.entries i).hash) c (open_in s))
          (sym (u.other_slots s n))
          (Chain-frame
            (λ x m. same_hash x ∙ sym (u.other_links x (other_slot s x m n)) ∙ link_after x)
            (pool.open_chain s)))
  ]

  abbrev Placed : ℕ → OpenBucket → ℕ → Type 0
  Placed s e i = (e.valid ≡ true) × (slot_of e ≡ s) × (i ≤ 128)

  slot_same : (x : ℕ) → x ≢ idx → slot_of (p.entries x) ≡ slot_of (pool_after.entries x)
  unfolding slot_of
  slot_same x n = ap (λ e. hash_slot e.group_id e.bucket_bi) (other x n)

  Placed-same :
      (s x : ℕ) → contains x (open_in s) ≡ true → x ≢ idx → Placed s (pool_after.entries x) x
  Placed-same s x m n =
      let (v, t, le) = pool.in_own_slot s x m in
      (sym (ap (λ e. e.valid) (other x n)) ∙ v, sym (slot_same x n) ∙ t, le)

  in_own_slot_after :
      (s x : ℕ) → contains x (open_after s) ≡ true → Placed s (pool_after.entries x) x
  in_own_slot_after s x m = elim (ℕ_discrete s slot) [
    | no n ↦
        let k = ap (contains x) (sym (there_slot s n)) ∙ m in Placed-same s x k (not_same s x k n)
    | yes e ↦
        let k = ap (contains x) (sym (here_slot s e)) ∙ m in
        Placed-same s x
          (ap (λ t. contains x (open_in t)) e ∙ contains-without_in x idx (open_in slot) k)
          (λ z. absurd (
            grind (
              arith,
              k,
              contains-without_none idx (open_in slot) (pool.open_once slot),
              ap (λ y. contains y (without idx (open_in slot))) z,
            )))
  ]

  still_open :
      (s x : ℕ) → contains x (open_in s) ≡ true → x ≢ idx → contains x (open_after s) ≡ true
  still_open s x m n = elim (ℕ_discrete s slot) [
    | yes e ↦ rw (here_slot s e) (
        contains-without_other x idx (open_in slot) (ap (λ t. contains x (open_in t)) (sym e) ∙ m)
          n)
    | no k ↦ rw (there_slot s k) m
  ]

  not_own : (x : ℕ) → (pool_after.entries x).valid ≡ true → x ≢ idx
  not_own x v e = absurd (grind (arith, v, own_closed, ap (λ y. (pool_after.entries y).valid) e))

  open_once_after : (s : ℕ) → NoDup (open_after s)
  open_once_after s = elim (ℕ_discrete s slot) [
    | yes e ↦ rw (here_slot s e) (NoDup-without idx (open_in slot) (pool.open_once slot))
    | no n ↦ rw (there_slot s n) (pool.open_once s)
  ]

  idx_not_free : contains idx free ≡ false
  idx_not_free = elim (Bool-cases (contains idx free)) [
    | inl m ↦ absurd (not_free idx m refl)
    | inr n ↦ n
  ]

  free_closed_after :
      (x : ℕ) → contains x (idx ∷ free) ≡ true → ((pool_after.entries x).valid ≡ false) × (x ≤ 128)
  free_closed_after x m = elim (ℕ_discrete x idx) [
    | yes e ↦ (ap (λ y. (pool_after.entries y).valid) e ∙ own_closed, omega (arith, e, in_range.1))
    | no n ↦
        let (c, le) = pool.free_closed x (contains-tail x idx free n m) in
        (sym (ap (λ e. e.valid) (other x n)) ∙ c, le)
  ]

  pub put-IsPool : IsPool pool_after (idx ∷ free) open_after
  put-IsPool = record {
    free_chain = free-Chain_after;
    open_chain = open-Chain_after;
    free_once = (idx_not_free, pool.free_once);
    open_once = open_once_after;
    free_closed = free_closed_after;
    in_own_slot = in_own_slot_after;
    valid_placed = λ x v.
        subst (λ s. contains x (open_after s) ≡ true) (slot_same x (not_own x v))
          (still_open (slot_of (p.entries x)) x
            (pool.valid_placed x (ap (λ e. e.valid) (other x (not_own x v)) ∙ v)) (not_own x v));
    all_placed = omega (
      arith,
      pool.all_placed,
      lengths-store 128 open_in slot (without idx (open_in slot))
          (hash_slot-lt (p.entries idx).group_id (p.entries idx).bucket_bi),
      length-without idx (open_in slot) is_open,
    );
    counted = omega (arith, pool.counted, pool.all_placed, u.same_count);
  }
