-- ===== src/Recovery/Overlay/Lookup.antt =====
-- recovery/overlay.rs: what `lookup_entry` finds after `push`.
use volmount.Common.{
  ℕ, ◌==◌, if◌then◌else◌, Bool, true, false, ◌&&◌, some, List, [], ◌∷◌, ◌++◌, map, ◌≡◌, refl, arith,
  Bool-cases, inl, inr, ◌∙◌,
}
use volmount.Btree.Bpos.{Bpos}
use volmount.Btree.Entry.{BtreeEntry, BtreeId, same_tree}
use volmount.Recovery.Overlay.{JournalKey, JournalKeys, find_last, mark, push, hits, lookup_entry}

pub find_last-snoc :
    (p : JournalKey → Bool) (xs : List JournalKey) (k : JournalKey)
    → find_last p (xs ++ k ∷ []) ≡ (if p k then some k else find_last p xs)
find_last-snoc p [] k = refl
find_last-snoc p (x ∷ xs) k = rw (find_last-snoc p xs k) (ground arith)

-- A change of entries that the test cannot see, and that leaves alone what passes it.
pub find_last-map :
    (p : JournalKey → Bool) (f : JournalKey → JournalKey)
    → ((x : JournalKey) → p (f x) ≡ p x)
    → ((x : JournalKey) → p x ≡ true → f x ≡ x)
    → (xs : List JournalKey) → find_last p (map f xs) ≡ find_last p xs
find_last-map p f h k [] = refl
find_last-map p f h k (x ∷ xs) = rw (find_last-map p f h k xs) (ground (arith, h x, k x))

-- The test of a lookup, on a key just pushed.
abbrev matches : BtreeId → BtreeEntry → BtreeId → Bpos → Bool
matches bt e bt' pos =
    same_tree bt bt' && e.pos.offset == pos.offset && e.pos.snapshot == pos.snapshot

module _ (bt : BtreeId) (e : BtreeEntry) (bt' : BtreeId) (pos : Bpos) where
  hits-mark :
      matches bt e bt' pos ≡ false
      → (x : JournalKey) → hits bt' pos (mark bt e.pos x) ≡ hits bt' pos x
  unfolding hits mark
  hits-mark n x = ground arith

  mark_hit :
      matches bt e bt' pos ≡ false → (x : JournalKey) → hits bt' pos x ≡ true → mark bt e.pos x ≡ x
  unfolding hits mark
  mark_hit n x h = ground arith

  hits_pushed :
      (seq : ℕ)
      → hits bt' pos (record { journal_seq = seq; btree_type = bt; entry = e; overwritten = false })
        ≡ matches bt e bt' pos
  unfolding hits
  hits_pushed seq = ground arith

-- A pushed key answers each lookup of its tree, offset and snapshot; every other lookup answers as
-- before.
pub lookup_entry-push :
    (seq : ℕ) (bt : BtreeId) (e : BtreeEntry) (j : JournalKeys) (bt' : BtreeId) (pos : Bpos)
    → lookup_entry bt' pos (push seq bt e j) ≡ (
        if same_tree bt bt' && e.pos.offset == pos.offset && e.pos.snapshot == pos.snapshot
        then some (record { journal_seq = seq; btree_type = bt; entry = e; overwritten = false })
        else lookup_entry bt' pos j)
unfolding lookup_entry push
lookup_entry-push seq bt e j bt' pos = elim (Bool-cases (matches bt e bt' pos)) [
  | inl h ↦ step ∙ rw (hits_pushed bt e bt' pos seq, h)
  | inr h ↦
      step
      ∙ rw (hits_pushed bt e bt' pos seq, h)
          (find_last-map _ _ (hits-mark bt e bt' pos h) (mark_hit bt e bt' pos h) j.entries)
]
  where
    step : lookup_entry bt' pos (push seq bt e j) ≡ (
        if hits bt' pos
          (record { journal_seq = seq; btree_type = bt; entry = e; overwritten = false })
        then some (record { journal_seq = seq; btree_type = bt; entry = e; overwritten = false })
        else find_last (hits bt' pos) (map (mark bt e.pos) j.entries))
    step =
        find_last-snoc (hits bt' pos) (map (mark bt e.pos) j.entries)
          (record { journal_seq = seq; btree_type = bt; entry = e; overwritten = false })
