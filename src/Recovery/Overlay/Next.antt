-- ===== src/Recovery/Overlay/Next.antt =====
-- recovery/overlay.rs: `find_next_entry` gives the least live key at or after a position.
use mathlib.Core.Path.{subst}
use volmount.Common.{
  if◌then◌else◌, Bool, true, false, none, some, List, [], ◌∷◌, ◌≡◌, refl, arith, Bool-cases, inl,
  inr, ◌⊎◌,
}
use volmount.Btree.Bpos.{Bpos, bpos_le, bpos_gt}
use volmount.Btree.Bpos.Order.{bpos_le_trans}
use volmount.Btree.Entry.{BtreeId}
use volmount.Recovery.Overlay.{
  JournalKey, JournalKeys, select, follows, smaller, least_from, least, find_next_entry,
}

-- Where a key stands in a list.
pub data In (k : JournalKey) : List JournalKey → Type 0 where
  here : {xs : List JournalKey} → In k (k ∷ xs)
  there : {x : JournalKey} {xs : List JournalKey} → In k xs → In k (x ∷ xs)

abbrev Le : JournalKey → JournalKey → Type 0
Le a b = bpos_le a.entry.pos b.entry.pos ≡ true

smaller-le : (a b : JournalKey) → Le (smaller a b) a × Le (smaller a b) b
unfolding smaller bpos_le bpos_gt
smaller-le a b = ground arith

smaller-cases : (a b : JournalKey) → (smaller a b ≡ a) ⊎ (smaller a b ≡ b)
unfolding smaller
smaller-cases a b = ground arith

Le-trans : (a b c : JournalKey) → Le a b → Le b c → Le a c
Le-trans a b c h k = bpos_le_trans a.entry.pos b.entry.pos c.entry.pos h k

least_from-le : (x : JournalKey) (ys : List JournalKey) → Le (least_from x ys) x
unfolding least_from bpos_le
least_from-le x [] = ground arith
least_from-le x (y ∷ ys) =
    Le-trans (least_from (smaller x y) ys) (smaller x y) x (least_from-le (smaller x y) ys)
      (smaller-le x y).0

least_from-le_of_In :
    (x : JournalKey) (ys : List JournalKey) (k : JournalKey) → In k ys → Le (least_from x ys) k
unfolding least_from
least_from-le_of_In x [] k m = elim m [ ]
least_from-le_of_In x (y ∷ ys) k here =
    Le-trans (least_from (smaller x y) ys) (smaller x y) y (least_from-le (smaller x y) ys)
      (smaller-le x y).1
least_from-le_of_In x (y ∷ ys) k (there m) = least_from-le_of_In (smaller x y) ys k m

least_from-In : (x : JournalKey) (ys : List JournalKey) → In (least_from x ys) (x ∷ ys)
unfolding least_from
least_from-In x [] = here
least_from-In x (y ∷ ys) = elim (smaller-cases x y) [
  | inl e ↦ rw e (skip (least_from-In x ys))
  | inr e ↦ rw e (there (least_from-In y ys))
]
  where
    skip : {k : JournalKey} → In k (x ∷ ys) → In k (x ∷ y ∷ ys)
    skip here = here
    skip (there m) = there (there m)

In-cons : {k x : JournalKey} {xs : List JournalKey} → In k (x ∷ xs) → (x ≡ k) ⊎ In k xs
In-cons here = inl refl
In-cons (there m) = inr m

select-In :
    (p : JournalKey → Bool) (xs : List JournalKey) (k : JournalKey)
    → In k (select p xs)
    → In k xs × (p k ≡ true)
select-In p [] k m = elim m [ ]
select-In p (x ∷ xs) k m = elim (Bool-cases (p x)) [
  | inl e ↦ elim (In-cons (rw (e, if◌then◌else◌) at m)) [
    | inl q ↦ subst (λ z. In z (x ∷ xs) × (p z ≡ true)) q (here, e)
    | inr m' ↦ let (i, h) = select-In p xs k m' in (there i, h)
  ]
  | inr e ↦ let (i, h) = select-In p xs k (rw (e, if◌then◌else◌) at m) in (there i, h)
]

In-select :
    (p : JournalKey → Bool) (xs : List JournalKey) (k : JournalKey)
    → In k xs
    → p k ≡ true
    → In k (select p xs)
In-select p [] k m h = elim m [ ]
In-select p (x ∷ xs) k here h = rw h here
In-select p (x ∷ xs) k (there m) h = elim (Bool-cases (p x)) [
  | inl e ↦ rw e (there (In-select p xs k m h))
  | inr e ↦ rw e (In-select p xs k m h)
]

IsLeast : List JournalKey → JournalKey → Type 0
IsLeast ys k = In k ys × ((k' : JournalKey) → In k' ys → Le k k')

least_from-IsLeast : (y : JournalKey) (ys : List JournalKey) → IsLeast (y ∷ ys) (least_from y ys)
unfolding IsLeast
least_from-IsLeast y ys = (least_from-In y ys, λ k' m. below k' m)
  where
    below : (k' : JournalKey) → In k' (y ∷ ys) → Le (least_from y ys) k'
    below k' here = least_from-le y ys
    below k' (there m) = least_from-le_of_In y ys k' m

found : (ys : List JournalKey) (k : JournalKey) → least ys ≡ some k → IsLeast ys k
unfolding least_from
found [] k e = absurd (cc)
found (y ∷ ys) k e =
    let q : least_from y ys ≡ k = cc in subst (IsLeast (y ∷ ys)) q (least_from-IsLeast y ys)

not_In-nil : {k : JournalKey} → ¬ In k []
not_In-nil m = elim m [ ]

missing :
    (ys : List JournalKey) (b : Bool) (k' : JournalKey)
    → least ys ≡ none
    → (b ≡ true → In k' ys)
    → b ≡ false
unfolding least_from
missing [] true k' e f = absurd (not_In-nil (f refl))
missing [] false k' e f = refl
missing (y ∷ ys) b k' e f = absurd (cc)

-- The answer is a key of the overlay that is live, of the tree, and at or after the position, and
-- none such comes before it; there is no answer only if there is no such key.
pub find_next_entry-least :
    (bt : BtreeId) (pos : Bpos) (j : JournalKeys)
    → ((k : JournalKey)
        → find_next_entry bt pos j ≡ some k
        → In k j.entries
          × (follows bt pos k ≡ true)
          × ((k' : JournalKey)
              → In k' j.entries
              → follows bt pos k' ≡ true
              → bpos_le k.entry.pos k'.entry.pos ≡ true))
      × (find_next_entry bt pos j ≡ none
          → (k' : JournalKey) → In k' j.entries
          → follows bt pos k' ≡ false)
unfolding find_next_entry IsLeast
find_next_entry-least bt pos j = (
  λ k e.
      let m = found (select (follows bt pos) j.entries) k e in
      let (i, h) = select-In (follows bt pos) j.entries k m.0 in
      (i, h, λ k' i' h'. m.1 k' (In-select (follows bt pos) j.entries k' i' h')),
  λ e k' i'.
      missing (select (follows bt pos) j.entries) (follows bt pos k') k' e
        (In-select (follows bt pos) j.entries k' i'),
)
