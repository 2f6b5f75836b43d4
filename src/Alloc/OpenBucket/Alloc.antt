-- ===== src/Alloc/OpenBucket/Alloc.antt =====
-- alloc/open_bucket.rs: `alloc` opens the first free index.
use mathlib.Core.Path.{subst}
use volmount.Common.{
  ℕ, ◌+◌, ◌-◌, ◌^◌, ◌<◌, ◌≤◌, ◌≡◌, ◌≢◌, refl, arith, true, false, List, ◌∷◌, contains, NoDup, ok,
  ℕ_discrete, ap, sym, ◌∙◌, u32, Bool-cases, inl, inr,
}
use volmount.Alloc.OpenBucket.{store, OpenBucket, BchOpenBuckets, slot_of, hash_slot, alloc}
use volmount.Alloc.OpenBucket.Chains.{Chain, link, Chain-frame, Chain-next}
use volmount.Alloc.OpenBucket.Pool.{IsPool, store_here, store_there, lengths-store}

pub hash_slot-lt : (g b : ℕ) → hash_slot g b < 128
unfolding hash_slot
hash_slot-lt g b = omega arith

pub contains-tail :
    (x y : ℕ) (ys : List ℕ) → x ≢ y → contains x (y ∷ ys) ≡ true → contains x ys ≡ true
contains-tail x y ys n h = ground arith

pub contains-skip : (x y : ℕ) (ys : List ℕ) → contains x ys ≡ true → contains x (y ∷ ys) ≡ true
contains-skip x y ys h = ground arith

module _ (g b sf gen : ℕ) (p : BchOpenBuckets) (idx : ℕ) (rest : List ℕ) (open_in : ℕ → List ℕ)
    (pool : IsPool p (idx ∷ rest) open_in) where
  abbrev pub opened : OpenBucket
  opened = record (p.entries idx) {
    pin = 1;
    valid = true;
    group_id = g;
    bucket_bi = b;
    sectors_free = sf;
    gen = gen;
    hash = p.hash_slots (hash_slot g b);
  }

  abbrev pub allocated : BchOpenBuckets
  allocated = record p {
    entries = store p.entries idx opened;
    freelist_head = (p.entries idx).freelist;
    hash_slots = store p.hash_slots (hash_slot g b) idx;
    nr_free = u32 (p.nr_free + 2 ^ 32 - 1);
  }

  abbrev open_after : ℕ → List ℕ
  open_after = store open_in (hash_slot g b) (idx ∷ open_in (hash_slot g b))

  head_is :
      (p.freelist_head ≡ idx)
      × (idx ≢ 0)
      × Chain (λ i. (p.entries i).freelist) (p.entries idx).freelist rest
  head_is = Chain-next pool.free_chain

  pub alloc-ok : alloc g b sf gen p ≡ (ok idx, allocated)
  unfolding alloc
  alloc-ok = let (e, n, _) = head_is in rw e (ground arith)

  pub idx_closed : ((p.entries idx).valid ≡ false) × (idx ≤ 128)
  idx_closed = pool.free_closed idx (ground arith)

  not_open : (s x : ℕ) → contains x (open_in s) ≡ true → x ≢ idx
  not_open s x m e =
      let (v, _, _) = pool.in_own_slot s x m in
      absurd (grind (arith, idx_closed.0, v, ap (λ i. (p.entries i).valid) e))

  not_rest : (x : ℕ) → contains x rest ≡ true → x ≢ idx
  not_rest x m e = absurd (grind (arith, pool.free_once.0, ap (λ i. contains i rest) e))

  entry_same : (x : ℕ) → x ≢ idx → p.entries x ≡ store p.entries idx opened x
  entry_same x n = sym (store_there p.entries idx opened x n)

  entry_opened : store p.entries idx opened idx ≡ opened
  entry_opened = store_here p.entries idx opened idx refl

  slot_opened : slot_of opened ≡ hash_slot g b
  unfolding slot_of
  slot_opened = refl

  idx_nowhere : (s : ℕ) → contains idx (open_in s) ≡ false
  idx_nowhere s = elim (Bool-cases (contains idx (open_in s))) [
    | inl m ↦ absurd (not_open s idx m refl)
    | inr n ↦ n
  ]

  here_slot : (s : ℕ) → s ≡ hash_slot g b → open_after s ≡ idx ∷ open_in (hash_slot g b)
  here_slot s e = store_here open_in (hash_slot g b) (idx ∷ open_in (hash_slot g b)) s e

  there_slot : (s : ℕ) → s ≢ hash_slot g b → open_after s ≡ open_in s
  there_slot s n = store_there open_in (hash_slot g b) (idx ∷ open_in (hash_slot g b)) s n

  Chain-same : (s : ℕ) → Chain (λ i. (allocated.entries i).hash) (p.hash_slots s) (open_in s)
  Chain-same s =
      Chain-frame (λ x m. ap (λ e. e.hash) (entry_same x (not_open s x m))) (pool.open_chain s)

  open-Chain_after :
      (s : ℕ) → Chain (λ i. (allocated.entries i).hash) (allocated.hash_slots s) (open_after s)
  open-Chain_after s = elim (ℕ_discrete s (hash_slot g b)) [
    | yes e ↦
        rw (store_here p.hash_slots (hash_slot g b) idx s e, here_slot s e)
          (link idx (open_in (hash_slot g b)) head_is.1 (
            subst (λ c. Chain (λ i. (allocated.entries i).hash) c (open_in (hash_slot g b)))
              (ap (λ e. e.hash) (sym entry_opened)) (Chain-same (hash_slot g b))))
    | no n ↦ rw (store_there p.hash_slots (hash_slot g b) idx s n, there_slot s n) (Chain-same s)
  ]

  open_once_after : (s : ℕ) → NoDup (open_after s)
  open_once_after s = elim (ℕ_discrete s (hash_slot g b)) [
    | yes e ↦ rw (here_slot s e) (idx_nowhere (hash_slot g b), pool.open_once (hash_slot g b))
    | no n ↦ rw (there_slot s n) (pool.open_once s)
  ]

  still_open : (i s : ℕ) → contains i (open_in s) ≡ true → contains i (open_after s) ≡ true
  still_open i s m = elim (ℕ_discrete s (hash_slot g b)) [
    | yes e ↦ rw (here_slot s e) (
        contains-skip i idx (open_in (hash_slot g b))
          (ap (λ x. contains i (open_in x)) (sym e) ∙ m))
    | no n ↦ rw (there_slot s n) m
  ]

  abbrev Placed : ℕ → OpenBucket → ℕ → Type 0
  Placed s e i = (e.valid ≡ true) × (slot_of e ≡ s) × (i ≤ 128)

  Placed-same : (s i : ℕ) → contains i (open_in s) ≡ true → Placed s (allocated.entries i) i
  Placed-same s i m =
      subst (λ e. Placed s e i) (entry_same i (not_open s i m)) (pool.in_own_slot s i m)

  Placed-new : (s i : ℕ) → i ≡ idx → s ≡ hash_slot g b → Placed s (allocated.entries i) i
  Placed-new s i e q =
      rw (store_here p.entries idx opened i e)
        (refl, slot_opened ∙ sym q, omega (arith, e, idx_closed.1))

  in_own_slot_after :
      (s i : ℕ) → contains i (open_after s) ≡ true → Placed s (allocated.entries i) i
  in_own_slot_after s i m = elim (ℕ_discrete s (hash_slot g b)) [
    | no n ↦ Placed-same s i (ap (contains i) (sym (there_slot s n)) ∙ m)
    | yes e ↦ elim (ℕ_discrete i idx) [
      | yes q ↦ Placed-new s i q e
      | no q ↦ Placed-same s i (
          ap (λ x. contains i (open_in x)) e
          ∙ contains-tail i idx (open_in (hash_slot g b)) q
              (ap (contains i) (sym (here_slot s e)) ∙ m))
    ]
  ]

  valid_placed_after :
      (i : ℕ)
      → (allocated.entries i).valid ≡ true
      → contains i (open_after (slot_of (allocated.entries i))) ≡ true
  valid_placed_after i v = elim (ℕ_discrete i idx) [
    | yes q ↦
        rw (store_here p.entries idx opened i q, slot_opened, here_slot (hash_slot g b) refl)
          (ground arith)
    | no q ↦ rw (store_there p.entries idx opened i q) (
        still_open i (slot_of (p.entries i))
          (pool.valid_placed i (ap (λ e. e.valid) (entry_same i q) ∙ v)))
  ]

  pub alloc-IsPool : IsPool allocated rest open_after
  alloc-IsPool = record {
    free_chain = Chain-frame (λ x m. ap (λ e. e.freelist) (entry_same x (not_rest x m))) head_is.2;
    open_chain = open-Chain_after;
    free_once = pool.free_once.1;
    open_once = open_once_after;
    free_closed = λ i m.
        subst (λ e. (e.valid ≡ false) × (i ≤ 128)) (entry_same i (not_rest i m))
          (pool.free_closed i (ground arith));
    in_own_slot = in_own_slot_after;
    valid_placed = valid_placed_after;
    all_placed = omega (
      arith,
      pool.all_placed,
      lengths-store 128 open_in (hash_slot g b) (idx ∷ open_in (hash_slot g b)) (hash_slot-lt g b),
    );
    counted = omega (arith, pool.counted, pool.all_placed);
  }
