-- ===== src/Alloc/OpenBucket/Pins/Reuse.antt =====
-- alloc/open_bucket.rs: which open bucket `find_reusable` and `take_from_partial` hand out.
use mathlib.Core.Path.{subst}
use volmount.Common.{
  ℕ, zero, suc, ◌-◌, ◌<◌, ◌≤◌, ◌≡◌, ◌⊎◌, inl, inr, refl, arith, ltb, leb, leb→le, le→leb, true,
  Bool-cases, Option, none, some, List, [], ◌∷◌, ◌++◌, contains, ◌∙◌, ℕ_discrete, ltb→lt, lt→ltb,
  ap, ==_same,
}
use volmount.Alloc.OpenBucket.{OpenBucket, BchOpenBuckets}
use volmount.Alloc.OpenBucket.Pins.{
  pin_up, popped, off_partial, handed, take_from, take_from_partial, reuse_from, find_reusable,
}

-- An open entry with room for the sectors.
abbrev pub HasRoom : ℕ → OpenBucket → Type 0
HasRoom needed e = (e.valid ≡ true) × (needed ≤ e.sectors_free)

-- The first entry from `from` on that has room, and the pool with that entry pinned once more.
abbrev pub Reused : ℕ → ℕ → BchOpenBuckets → Option (ℕ × ℕ × ℕ) × BchOpenBuckets → Type 0
Reused from needed p r =
    ((r ≡ (none, p)) × ((i : ℕ) → from ≤ i → i ≤ 128 → ¬ HasRoom needed (p.entries i)))
    ⊎ ((i : ℕ) × (from ≤ i)
        × (i ≤ 128)
        × HasRoom needed (p.entries i)
        × (r ≡ (some (handed i p), pin_up i p))
        × ((j : ℕ) → from ≤ j → j < i → ¬ HasRoom needed (p.entries j)))

past : (P : ℕ → Type 0) (m i : ℕ) → ¬ P m → m ≤ i → (suc m ≤ i → ¬ P i) → ¬ P i
past P m i here le later room = elim (ℕ_discrete i m) [
  | yes e ↦ here (subst P e room)
  | no ne ↦ later (omega arith) room
]

takes :
    (n needed : ℕ) (p : BchOpenBuckets)
    → HasRoom needed (p.entries (128 - n))
    → reuse_from (suc n) needed p ≡ (some (handed (128 - n) p), pin_up (128 - n) p)
unfolding reuse_from pin_up handed
takes n needed p (v, k) = rw (v, le→leb needed _ k, ==_same (128 - n)) refl

passes :
    (n needed : ℕ) (p : BchOpenBuckets)
    → ¬ HasRoom needed (p.entries (128 - n))
    → reuse_from (suc n) needed p ≡ reuse_from n needed p
unfolding reuse_from
passes n needed p k = elim (Bool-cases (p.entries (128 - n)).valid) [
  | inl v ↦ elim (Bool-cases (leb needed (p.entries (128 - n)).sectors_free)) [
    | inl l ↦ absurd (k (v, leb→le _ _ l))
    | inr l ↦ rw (v, l) refl
  ]
  | inr v ↦ rw v refl
]

pub HasRoom-dec : (needed : ℕ) (e : OpenBucket) → Dec (HasRoom needed e)
HasRoom-dec needed e = elim (Bool-cases e.valid) [
  | inl v ↦ elim (Bool-cases (leb needed e.sectors_free)) [
    | inl l ↦ yes (v, leb→le _ _ l)
    | inr l ↦ no (λ h. ground (arith, h))
  ]
  | inr v ↦ no (λ h. absurd (ground (arith, h)))
]

reuse_from-Reused :
    (n needed : ℕ) (p : BchOpenBuckets)
    → n ≤ 128
    → Reused (129 - n) needed p (reuse_from n needed p)
unfolding reuse_from
reuse_from-Reused zero needed p h = inl (refl, λ i lo hi. absurd (omega arith))
reuse_from-Reused (suc n) needed p h = elim (HasRoom-dec needed (p.entries (128 - n))) [
  | yes here ↦ inr (
    128 - n,
    omega arith,
    omega arith,
    here,
    takes n needed p here,
    λ j lo hi. absurd (omega arith),
  )
  | no not_here ↦ elim (reuse_from-Reused n needed p (omega arith)) [
    | inl (e, none_later) ↦ inl (
      passes n needed p not_here ∙ e,
      λ i lo hi.
          past (λ k. HasRoom needed (p.entries k)) (128 - n) i not_here (omega arith)
            (λ le. none_later i (omega arith) hi),
    )
    | inr (i, lo, hi, room, e, first) ↦ inr (
      i,
      omega arith,
      hi,
      room,
      passes n needed p not_here ∙ e,
      λ j lo' lt.
          past (λ k. HasRoom needed (p.entries k)) (128 - n) j not_here (omega arith)
            (λ le. first j (omega arith) lt),
    )
  ]
]

-- `find_reusable` gives the first entry of the pool that is open with enough sectors left, and pins
-- that entry once more and changes nothing else; if there is none, it gives nothing and changes
-- nothing.
pub find_reusable-Reused :
    (sectors_needed : ℕ) (p : BchOpenBuckets)
    → Reused 1 sectors_needed p (find_reusable sectors_needed p)
unfolding find_reusable
find_reusable-Reused sectors_needed p = reuse_from-Reused 128 sectors_needed p (omega arith)

-- The first entry of a list with a sector left, off the list and pinned once more; what came before it
-- is dropped from the list.
abbrev pub Taken : List ℕ → BchOpenBuckets → Option (ℕ × ℕ × ℕ) × BchOpenBuckets → Type 0
Taken l p r =
    ((r.0 ≡ none)
      × (r.1.entries ≡ p.entries)
      × (r.1.partial_list ≡ [])
      × ((j : ℕ) → contains j l ≡ true → ¬ HasRoom 1 (p.entries j)))
    ⊎ ((i : ℕ) × (skipped : List ℕ) × (rest : List ℕ) × (l ≡ skipped ++ (i ∷ rest))
        × HasRoom 1 (p.entries i)
        × ((j : ℕ) → contains j skipped ≡ true → ¬ HasRoom 1 (p.entries j))
        × (r.0 ≡ some (handed i p))
        × (r.1.partial_list ≡ rest)
        × (r.1.entries ≡ (pin_up i (off_partial i p)).entries))

nowhere :
    (P : ℕ → Type 0) (i : ℕ) (l : List ℕ)
    → ¬ P i
    → ((j : ℕ) → contains j l ≡ true → ¬ P j)
    → (j : ℕ) → contains j (i ∷ l) ≡ true
    → ¬ P j
nowhere P i l k ks j m holds = elim (ℕ_discrete j i) [
  | yes e ↦ k (subst P e holds)
  | no ne ↦ ks j (ground arith) holds
]

pub takes_head :
    (i : ℕ) (l : List ℕ) (p : BchOpenBuckets)
    → HasRoom 1 (p.entries i)
    → take_from (i ∷ l) p ≡ (some (handed i p), pin_up i (off_partial i (popped l p)))
unfolding take_from pin_up off_partial popped handed
takes_head i l p (v, k) = rw (v, lt→ltb 0 _ k, ==_same i) refl

pub passes_head :
    (i : ℕ) (l : List ℕ) (p : BchOpenBuckets)
    → ¬ HasRoom 1 (p.entries i)
    → take_from (i ∷ l) p ≡ take_from l (popped l p)
unfolding take_from
passes_head i l p k = elim (Bool-cases (p.entries i).valid) [
  | inl v ↦ elim (Bool-cases (ltb 0 (p.entries i).sectors_free)) [
    | inl s ↦ absurd (k (v, ltb→lt _ _ s))
    | inr s ↦ rw (v, s) refl
  ]
  | inr v ↦ rw v refl
]

take_from-Taken : (l : List ℕ) (p : BchOpenBuckets) → p.partial_list ≡ l → Taken l p (take_from l p)
unfolding take_from popped pin_up off_partial handed
take_from-Taken [] p e = inl (refl, refl, e, λ j m. absurd (ground arith))
take_from-Taken (i ∷ l) p e = elim (HasRoom-dec 1 (p.entries i)) [
  | yes room ↦
      rw (takes_head i l p room)
        (inr (i, [], l, refl, room, (λ j m. absurd (ground arith)), refl, refl, refl))
  | no full ↦ rw (passes_head i l p full) (elim (take_from-Taken l (popped l p) refl) [
    | inl (r, same_entries, emptied, all_full) ↦
        inl (r, same_entries, emptied, nowhere (λ k. HasRoom 1 (p.entries k)) i l full all_full)
    | inr (k, skipped, rest, split, room, before, r, left, changed) ↦ inr (
      k,
      i ∷ skipped,
      rest,
      ap (λ z. i ∷ z) split,
      room,
      nowhere (λ k. HasRoom 1 (p.entries k)) i skipped full before,
      r,
      left,
      changed,
    )
  ])
]

-- `take_from_partial` gives the last pushed entry of the partial list that is open with a sector left,
-- takes it off the list with its mark, and pins it once more; the entries pushed after it, which have
-- no sector left or are closed, go off the list too, and all entries but the one given stay as they
-- are. If the list has no such entry, it gives nothing, empties the list and changes no entry.
pub take_from_partial-Taken : (p : BchOpenBuckets) → Taken p.partial_list p (take_from_partial p)
unfolding take_from_partial
take_from_partial-Taken p = take_from-Taken p.partial_list p refl
