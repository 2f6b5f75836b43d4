-- ===== src/Btree/WriteBuffer/Attempt.antt =====
-- btree/write_buffer.rs: places, and what one insert of a flush leaves in the engine.
use mathlib.Core.Path.{subst}
use volmount.Common.{
  ℕ, ◌==◌, if◌then◌else◌, Bool, true, false, ◌&&◌, Bool-cases, inl, inr, ◌⊎◌, Option, some,
  Option-cases, List, get_elem?, ◌≡◌, refl, arith, ◌∙◌, ap,
}
use volmount.Btree.Bpos.{Bpos, bpos_eq}
use volmount.Btree.Bpos.Order.{bpos_eq_iff}
use volmount.Btree.Entry.{
  BtreeKey, BchVal, KeyType, key_type_code, BtreeId, index, same_tree, from_key,
}
use volmount.Btree.WriteBuffer.{BtreeWriteBufferedKey}
use volmount.Btree.WriteBuffer.Pipeline.{
  WbKeyRef, key_to_wb_key_ref, same_place, belongs, Engine, is_noop, attempt,
}

abbrev pub at_place : BtreeId → Bpos → WbKeyRef → Bool
at_place id pos r =
    r.btree_id == index id
    && r.inode == pos.inode
    && r.offset == pos.offset
    && r.snapshot == pos.snapshot

-- The reference is that of its key, which carries its own key type.
abbrev pub RefOf : List BtreeWriteBufferedKey → WbKeyRef → Type 0
RefOf keys r =
    (wk : BtreeWriteBufferedKey) × (get_elem? keys r.idx ≡ some wk)
    × (r ≡ key_to_wb_key_ref r.idx wk)
    × (wk.key_type ≡ wk.key.key_type)

abbrev pub value_of : BtreeWriteBufferedKey → Option (KeyType × BchVal)
value_of wk = some (wk.key.key_type, wk.value)

pub belongs-at_place :
    (id : BtreeId) (pos : Bpos) (r : WbKeyRef) (wk : BtreeWriteBufferedKey)
    → r ≡ key_to_wb_key_ref r.idx wk
    → belongs id pos wk.btree_id wk.key ≡ at_place id pos r
unfolding bpos_eq from_key
belongs-at_place id pos r wk e = rw e (ground arith)

pub same_tree-eq : (a b : BtreeId) → same_tree a b ≡ true → a ≡ b
same_tree-eq a b h = ground arith

key_type_code-eq : (a b : KeyType) → (key_type_code a == key_type_code b) ≡ true → a ≡ b
key_type_code-eq a b h = ground arith

pub apart_places :
    (id : BtreeId) (pos : Bpos) (a b : WbKeyRef)
    → at_place id pos a ≡ true
    → same_place a b ≡ false
    → at_place id pos b ≡ false
apart_places id pos a b h n = ground arith

pub earlier_away :
    (id : BtreeId) (pos : Bpos) (x r : WbKeyRef)
    → at_place id pos r ≡ true
    → same_place x r ≡ false
    → at_place id pos x ≡ false
earlier_away id pos x r at n = ground arith

pub some_same : (a b : BtreeWriteBufferedKey) → some a ≡ some b → a ≡ b
some_same a b e = cc

-- The five tests of the noop check.
noop_parts :
    (wk : BtreeWriteBufferedKey) (ek : BtreeKey) (ev : BchVal)
    → (key_type_code ek.key_type == key_type_code wk.key_type
        && wk.key.vaddr == ek.vaddr
        && wk.key.snapshot_id == ek.snapshot_id
        && ev.paddr == wk.value.paddr
        && ev.ver == wk.value.ver)
      ≡ true
    → (ek.key_type ≡ wk.key_type) × (from_key ek ≡ from_key wk.key) × (ev ≡ wk.value)
unfolding from_key
noop_parts wk ek ev h =
    (key_type_code-eq ek.key_type wk.key_type (ground arith), ground arith, ground arith)

belongs_parts :
    (id : BtreeId) (pos : Bpos) (wk : BtreeWriteBufferedKey)
    → belongs id pos wk.btree_id wk.key ≡ true
    → (wk.btree_id ≡ id) × (from_key wk.key ≡ pos)
belongs_parts id pos wk h = (
  same_tree-eq wk.btree_id id (ground arith),
  (bpos_eq_iff (from_key wk.key) pos).0 (ground arith),
)

module _ (engine : Engine) where
  open engine use {
    State, entry_at, get_entry, insert_entry, trans_commit, get_entry_at, entry_at-insert,
    entry_at-commit,
  }

  -- An entry that is taken for equal is equal.
  noop_holds :
      (wk : BtreeWriteBufferedKey) (s : State) (id : BtreeId) (pos : Bpos)
      → wk.key_type ≡ wk.key.key_type
      → is_noop engine wk s ≡ true
      → belongs id pos wk.btree_id wk.key ≡ true
      → entry_at s id pos ≡ value_of wk
  unfolding is_noop
  noop_holds wk s id pos typed h at = elim (Option-cases (get_entry s wk.btree_id wk.key)) [
    | inl absent ↦ absurd (ground arith)
    | inr ((ek, ev), found) ↦
        let (type_is, pos_is, value_is) = noop_parts wk ek ev (ground arith) in
        let (id_is, at_is) = belongs_parts id pos wk at in
        subst (λ i. entry_at s i pos ≡ value_of wk) id_is
          (subst (λ p. entry_at s wk.btree_id p ≡ value_of wk) (pos_is ∙ at_is)
            (get_entry_at s wk.btree_id wk.key ek ev found
              ∙ ap (λ t. some (t, ev)) (type_is ∙ typed)
              ∙ ap (λ v. some (wk.key.key_type, v)) value_is))
  ]

  attempt_entry :
      (wk : BtreeWriteBufferedKey) (s : State) (id : BtreeId) (pos : Bpos)
      → wk.key_type ≡ wk.key.key_type
      → entry_at (attempt engine wk s).1 id pos ≡ (
          if (attempt engine wk s).0
          then if belongs id pos wk.btree_id wk.key then value_of wk else entry_at s id pos
          else entry_at s id pos)
  unfolding attempt
  attempt_entry wk s id pos typed = elim (Bool-cases (is_noop engine wk s)) [
    | inl same ↦ elim (Bool-cases (belongs id pos wk.btree_id wk.key)) [
      | inl at ↦ rw (same, attempt, at) (noop_holds wk s id pos typed same at)
      | inr off ↦ rw (same, attempt, off) refl
    ]
    | inr new ↦
        rw (new, attempt) (entry_at-insert wk.btree_id wk.key wk.value wk.journal_seq s id pos)
  ]

  pub attempt_away :
      (wk : BtreeWriteBufferedKey) (s : State) (id : BtreeId) (pos : Bpos)
      → wk.key_type ≡ wk.key.key_type
      → belongs id pos wk.btree_id wk.key ≡ false
      → entry_at (attempt engine wk s).1 id pos ≡ entry_at s id pos
  attempt_away wk s id pos typed off =
      attempt_entry wk s id pos typed ∙ rw off (either (attempt engine wk s).0 (entry_at s id pos))
    where
      either : (b : Bool) (o : Option (KeyType × BchVal)) → (if b then o else o) ≡ o
      either true o = refl
      either false o = refl

  pub attempt_done :
      (wk : BtreeWriteBufferedKey) (s : State) (id : BtreeId) (pos : Bpos)
      → wk.key_type ≡ wk.key.key_type
      → belongs id pos wk.btree_id wk.key ≡ true
      → (attempt engine wk s).0 ≡ true
      → entry_at (attempt engine wk s).1 id pos ≡ value_of wk
  attempt_done wk s id pos typed on done = attempt_entry wk s id pos typed ∙ rw (done, on) refl

  -- A journal is there, or no insert is refused.
  abbrev pub Accepts : Bool → Type 0
  Accepts journal =
      (journal ≡ true)
      ⊎ ((i : BtreeId) (key : BtreeKey) (v : BchVal) (seq : ℕ) (s : State)
          → (insert_entry i key v seq s).0 ≡ true)
