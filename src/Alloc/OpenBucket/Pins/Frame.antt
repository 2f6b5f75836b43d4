-- ===== src/Alloc/OpenBucket/Pins/Frame.antt =====
-- alloc/open_bucket.rs: pins, sectors and the partial list leave the free list and the hash table alone.
use mathlib.Core.Path.{fun_ext, subst}
use volmount.Common.{
  ℕ, ◌≡◌, refl, Bool-cases, inl, inr, false, ◌==◌, ◌&&◌, List, [], ◌∷◌, ap, sym, ◌∙◌, ℕ_discrete,
}
use volmount.Alloc.OpenBucket.{OpenBucket, BchOpenBuckets, slot_of, store}
use volmount.Alloc.OpenBucket.Pool.{IsPool, store_here, store_there}
use volmount.Alloc.OpenBucket.Pins.{
  in_pool, inc_pin, pin_up, pin_down, consume_free_sectors, add_to_partial, popped, off_partial,
  take_from, take_from_partial, find_reusable,
}
use volmount.Alloc.OpenBucket.Pins.Reuse.{
  HasRoom-dec, takes_head, passes_head, find_reusable-Reused,
}

-- The fields that say where an entry is, and those of a pool.
abbrev pub kept : OpenBucket → OpenBucket
kept e = record e { pin = 0; sectors_free = 0; on_partial_list = false; gen = 0 }

abbrev pub core : BchOpenBuckets → BchOpenBuckets
core p = record p { entries = λ i. kept (p.entries i); partial_list = []; nr_partial = 0 }

slot_of-kept : (e : OpenBucket) → slot_of (kept e) ≡ slot_of e
unfolding slot_of
slot_of-kept e = refl

IsPool-core :
    (p : BchOpenBuckets) (free : List ℕ) (open_in : ℕ → List ℕ)
    → IsPool p free open_in
    → IsPool (core p) free open_in
unfolding slot_of
IsPool-core p free open_in k = record {
  free_chain = k.free_chain;
  open_chain = k.open_chain;
  free_once = k.free_once;
  open_once = k.open_once;
  free_closed = k.free_closed;
  in_own_slot = k.in_own_slot;
  valid_placed = k.valid_placed;
  all_placed = k.all_placed;
  counted = k.counted;
}

core-IsPool :
    (p : BchOpenBuckets) (free : List ℕ) (open_in : ℕ → List ℕ)
    → IsPool (core p) free open_in
    → IsPool p free open_in
unfolding slot_of
core-IsPool p free open_in k = record {
  free_chain = k.free_chain;
  open_chain = k.open_chain;
  free_once = k.free_once;
  open_once = k.open_once;
  free_closed = k.free_closed;
  in_own_slot = k.in_own_slot;
  valid_placed = k.valid_placed;
  all_placed = k.all_placed;
  counted = k.counted;
}

pub same_core-IsPool :
    (p q : BchOpenBuckets) (free : List ℕ) (open_in : ℕ → List ℕ)
    → core q ≡ core p
    → IsPool p free open_in
    → IsPool q free open_in
same_core-IsPool p q free open_in e k =
    core-IsPool q free open_in
      (subst (λ r. IsPool r free open_in) (sym e) (IsPool-core p free open_in k))

kept-store :
    (f : ℕ → OpenBucket) (i : ℕ) (e : OpenBucket) (j : ℕ)
    → kept e ≡ kept (f i)
    → kept (store f i e j) ≡ kept (f j)
kept-store f i e j k = elim (ℕ_discrete j i) [
  | yes q ↦ ap kept (store_here f i e j q) ∙ k ∙ ap (λ x. kept (f x)) (sym q)
  | no n ↦ ap kept (store_there f i e j n)
]

core-store :
    (p : BchOpenBuckets) (i : ℕ) (e : OpenBucket)
    → kept e ≡ kept (p.entries i)
    → core (record p { entries = store p.entries i e }) ≡ core p
core-store p i e k =
    ap (λ f. record p { entries = f; partial_list = []; nr_partial = 0 })
      (fun_ext (λ j. kept-store p.entries i e j k))

pub core-pin_up : (i : ℕ) (p : BchOpenBuckets) → core (pin_up i p) ≡ core p
unfolding pin_up
core-pin_up i p = core-store p i _ refl

pub core-pin_down : (i : ℕ) (p : BchOpenBuckets) → core (pin_down i p) ≡ core p
unfolding pin_down
core-pin_down i p = core-store p i _ refl

core-off_partial : (i : ℕ) (p : BchOpenBuckets) → core (off_partial i p) ≡ core p
unfolding off_partial
core-off_partial i p = core-store p i _ refl

core-popped : (l : List ℕ) (p : BchOpenBuckets) → core (popped l p) ≡ core p
unfolding popped
core-popped l p = refl

pub core-inc_pin : (i : ℕ) (p : BchOpenBuckets) → core (inc_pin i p) ≡ core p
unfolding inc_pin
core-inc_pin i p = elim (Bool-cases (i == 0)) [ inl z ↦ rw z refl | inr n ↦ rw n (core-pin_up i p) ]

pub core-consume_free_sectors :
    (i s : ℕ) (p : BchOpenBuckets) → core (consume_free_sectors i s p) ≡ core p
unfolding consume_free_sectors
core-consume_free_sectors i s p = elim (Bool-cases (in_pool i)) [
  | inl z ↦ rw z (core-store p i _ refl)
  | inr n ↦ rw n refl
]

pub core-add_to_partial : (i : ℕ) (p : BchOpenBuckets) → core (add_to_partial i p) ≡ core p
unfolding add_to_partial
core-add_to_partial i p = elim (Bool-cases (in_pool i && (p.entries i).valid)) [
  | inl z ↦ rw z (core-store p i _ refl)
  | inr n ↦ rw n refl
]

core-take_from : (l : List ℕ) (p : BchOpenBuckets) → core (take_from l p).1 ≡ core p
unfolding take_from
core-take_from [] p = refl
core-take_from (i ∷ l) p = elim (HasRoom-dec 1 (p.entries i)) [
  | yes room ↦
      ap (λ r. core r.1) (takes_head i l p room)
      ∙ core-pin_up i (off_partial i (popped l p))
      ∙ core-off_partial i (popped l p)
      ∙ core-popped l p
  | no full ↦
      ap (λ r. core r.1) (passes_head i l p full) ∙ core-take_from l (popped l p) ∙ core-popped l p
]

pub core-take_from_partial : (p : BchOpenBuckets) → core (take_from_partial p).1 ≡ core p
unfolding take_from_partial
core-take_from_partial p = core-take_from p.partial_list p

pub core-find_reusable : (n : ℕ) (p : BchOpenBuckets) → core (find_reusable n p).1 ≡ core p
core-find_reusable n p = elim (find_reusable-Reused n p) [
  | inl (e, _) ↦ ap (λ r. core r.1) e
  | inr (i, _, _, _, e, _) ↦ ap (λ r. core r.1) e ∙ core-pin_up i p
]
