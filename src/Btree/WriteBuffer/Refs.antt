-- ===== src/Btree/WriteBuffer/Refs.antt =====
-- btree/write_buffer.rs: the references of the buffer's keys, and the newest of a place.
use mathlib.Core.Path.{subst}
use volmount.Common.{
  ℕ, zero, suc, ◌+◌, ◌<◌, true, false, inl, inr, ◌⊎◌, some, List, [], ◌∷◌, get_elem?, ◌≡◌, ◌↔◌,
  refl, arith, All, sym, ◌∙◌, ap,
}
use volmount.Btree.Bpos.{Bpos}
use volmount.Btree.Entry.{BtreeId}
use volmount.Btree.WriteBuffer.{BtreeWriteBufferedKey}
use volmount.Btree.WriteBuffer.Pipeline.{
  WbKeyRef, key_to_wb_key_ref, build_sorted_index, same_place, belongs,
}
use volmount.Btree.WriteBuffer.Dedup.{In, IsSorted, IsNewest}
use volmount.Btree.WriteBuffer.Attempt.{RefOf, at_place, belongs-at_place, some_same}

-- `sort_unstable_by`: it gives the same elements in order.
pub record Sorts (sort : List WbKeyRef → List WbKeyRef) : Type 0 where
  pub sorted : (l : List WbKeyRef) → IsSorted (sort l)
  pub kept : (l : List WbKeyRef) (r : WbKeyRef) → In r (sort l) ↔ In r l

pub All-of_In :
    (P : WbKeyRef → Type 0) (l : List WbKeyRef) → ((r : WbKeyRef) → In r l → P r) → All P l
All-of_In P [] h = tt
All-of_In P (x ∷ l) h = (h x (inl refl), All-of_In P l (λ r i. h r (inr i)))

-- Keys carry the type of their key.
abbrev pub Typed : List BtreeWriteBufferedKey → Type 0
Typed keys = All (λ k. k.key_type ≡ k.key.key_type) keys

shifted :
    (keys : List BtreeWriteBufferedKey) (k : BtreeWriteBufferedKey)
    (ks : List BtreeWriteBufferedKey) (i : ℕ)
    → ((j : ℕ) → get_elem? keys (i + j) ≡ get_elem? (k ∷ ks) j)
    → (j : ℕ) → get_elem? keys (i + 1 + j) ≡ get_elem? ks j
shifted keys k ks i from j =
    let z : i + 1 + j ≡ i + suc j = omega arith in ap (get_elem? keys) z ∙ from (suc j)

pub index-RefOf :
    (keys ks : List BtreeWriteBufferedKey) (i : ℕ)
    → ((j : ℕ) → get_elem? keys (i + j) ≡ get_elem? ks j)
    → Typed ks
    → (r : WbKeyRef) → In r (build_sorted_index i ks)
    → RefOf keys r
unfolding build_sorted_index
index-RefOf keys [] i from t r h = absurd h
index-RefOf keys (k ∷ ks) i from (t, ts) r (inl e) =
    let z : i ≡ i + 0 = omega arith in
    subst (RefOf keys) e (k, ap (get_elem? keys) z ∙ from 0, refl, t)
index-RefOf keys (k ∷ ks) i from (t, ts) r (inr h) =
    index-RefOf keys ks (i + 1) (shifted keys k ks i from) ts r h

pub index-In :
    (ks : List BtreeWriteBufferedKey) (i j : ℕ) (k : BtreeWriteBufferedKey)
    → get_elem? ks j ≡ some k
    → In (key_to_wb_key_ref (i + j) k) (build_sorted_index i ks)
unfolding build_sorted_index
index-In [] i j k h = absurd (ground arith)
index-In (x ∷ ks) i zero k h =
    let z : i ≡ i + 0 = omega arith in
    inl (ap (key_to_wb_key_ref i) (some_same x k h) ∙ ap (λ n. key_to_wb_key_ref n k) z)
index-In (x ∷ ks) i (suc j) k h =
    let z : i + 1 + j ≡ i + suc j = omega arith in
    inr (
      subst (λ n. In (key_to_wb_key_ref n k) (build_sorted_index (i + 1) ks)) z
        (index-In ks (i + 1) j k h))

-- The key at `i` is the newest of its place.
abbrev pub NewestAt :
    List BtreeWriteBufferedKey → BtreeId → Bpos → ℕ → BtreeWriteBufferedKey → Type 0
NewestAt keys id pos i k =
    (get_elem? keys i ≡ some k)
    × (belongs id pos k.btree_id k.key ≡ true)
    × (0 < k.journal_seq)
    × ((j : ℕ) (x : BtreeWriteBufferedKey)
        → get_elem? keys j ≡ some x
        → belongs id pos x.btree_id x.key ≡ true
        → (j ≡ i) ⊎ (x.journal_seq < k.journal_seq))

abbrev pub NoneAt : List BtreeWriteBufferedKey → BtreeId → Bpos → Type 0
NoneAt keys id pos =
    (j : ℕ) (x : BtreeWriteBufferedKey)
    → get_elem? keys j ≡ some x
    → belongs id pos x.btree_id x.key ≡ false

pub IsNewest-of_In :
    (r : WbKeyRef) (l : List WbKeyRef)
    → ((x : WbKeyRef) → In x l → same_place x r ≡ true → (x ≡ r) ⊎ (x.journal_seq < r.journal_seq))
    → IsNewest r l
IsNewest-of_In r [] h = tt
IsNewest-of_In r (x ∷ l) h = (h x (inl refl), IsNewest-of_In r l (λ y i. h y (inr i)))

at_same_place :
    (id : BtreeId) (pos : Bpos) (a b : WbKeyRef)
    → same_place a b ≡ true
    → at_place id pos b ≡ true
    → at_place id pos a ≡ true
at_same_place id pos a b s h = ground arith

-- The reference of the newest key beats the others.
pub newest_ref :
    (keys : List BtreeWriteBufferedKey) (id : BtreeId) (pos : Bpos) (i : ℕ)
    (k : BtreeWriteBufferedKey)
    → NewestAt keys id pos i k
    → (x : WbKeyRef) → RefOf keys x
    → same_place x (key_to_wb_key_ref i k) ≡ true
    → (x ≡ key_to_wb_key_ref i k) ⊎ (x.journal_seq < k.journal_seq)
newest_ref keys id pos i k (there, on, positive, newest) x (xk, found, ref_is, typed) same =
    let at_x =
      belongs-at_place id pos x xk ref_is
      ∙ at_same_place id pos x (key_to_wb_key_ref i k) same
          (sym (belongs-at_place id pos (key_to_wb_key_ref i k) k refl) ∙ on) in
    elim (newest x.idx xk found at_x) [
      | inl e ↦ inl (
          ref_is
          ∙ ap (λ n. key_to_wb_key_ref n xk) e
          ∙ ap (key_to_wb_key_ref i) (some_same xk k (sym found ∙ ap (get_elem? keys) e ∙ there)))
      | inr older ↦ inr (omega (arith, older, ap (λ y. y.journal_seq) ref_is))
    ]
