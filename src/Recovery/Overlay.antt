-- ===== src/Recovery/Overlay.antt =====
-- recovery/overlay.rs, and the part of btree/mod.rs that reads and writes through the overlay.
pub mod Lookup
pub mod Next
pub mod Drain
pub mod Refine
pub mod Replay
use volmount.Common.{
  ℕ, ◌==◌, if◌then◌else◌, Bool, true, false, not, ◌&&◌, Option, none, some, List, [], ◌∷◌, ◌++◌,
  map,
}
use volmount.Btree.Bpos.{Bpos, bpos_eq, bpos_ge, bpos_cmp, bpos_gt}
use volmount.Btree.Entry.{BtreeEntry, BtreeId, same_tree}

pub record JournalKey : Type 0 where
  pub journal_seq : ℕ
  pub btree_type : BtreeId
  pub entry : BtreeEntry
  pub overwritten : Bool

pub record JournalKeys : Type 0 where
  pub entries : List JournalKey
  pub active : Bool
  pub draining : Bool

unfoldable pub new_keys : JournalKeys
new_keys = record { entries = []; active = false; draining = false }

-- `iter().rev().find(p)`: the last element that passes.
abbrev pub find_last : (JournalKey → Bool) → List JournalKey → Option JournalKey
find_last p [] = none
find_last p (x ∷ xs) = elim (find_last p xs) [
  | some y ↦ some y
  | none ↦ if p x then some x else none
]

-- `iter().filter(p)`
abbrev pub select : (JournalKey → Bool) → List JournalKey → List JournalKey
select p [] = []
select p (x ∷ xs) = let rest = select p xs in if p x then x ∷ rest else rest

unfoldable pub mark : BtreeId → Bpos → JournalKey → JournalKey
unfolding bpos_eq
mark btree_type pos e =
    if same_tree e.btree_type btree_type && bpos_eq e.entry.pos pos
    then record e { overwritten = true }
    else e

unfoldable pub push : ℕ → BtreeId → BtreeEntry → JournalKeys → JournalKeys
unfolding mark
push journal_seq btree_type entry j = record j {
  entries =
      map (mark btree_type entry.pos) j.entries
      ++ record {
        journal_seq = journal_seq;
        btree_type = btree_type;
        entry = entry;
        overwritten = false;
      }
        ∷ [];
}

-- The test of `lookup_entry`: the inode does not take part.
unfoldable pub hits : BtreeId → Bpos → JournalKey → Bool
hits btree_type pos e =
    same_tree e.btree_type btree_type
    && e.entry.pos.offset == pos.offset
    && e.entry.pos.snapshot == pos.snapshot
    && not e.overwritten

unfoldable pub lookup_entry : BtreeId → Bpos → JournalKeys → Option JournalKey
unfolding hits
lookup_entry btree_type pos j = find_last (hits btree_type pos) j.entries

-- The filter of `find_next_entry`.
unfoldable pub follows : BtreeId → Bpos → JournalKey → Bool
unfolding bpos_ge
follows btree_type pos e =
    same_tree e.btree_type btree_type && not e.overwritten && bpos_ge e.entry.pos pos

-- `min_by`: of equal elements the first is kept.
unfoldable pub smaller : JournalKey → JournalKey → JournalKey
unfolding bpos_gt
smaller a b = if bpos_gt a.entry.pos b.entry.pos then b else a

unfoldable pub least_from : JournalKey → List JournalKey → JournalKey
least_from x [] = x
least_from x (y ∷ ys) = least_from (smaller x y) ys

abbrev pub least : List JournalKey → Option JournalKey
unfolding least_from
least [] = none
least (x ∷ xs) = some (least_from x xs)

unfoldable pub find_next_entry : BtreeId → Bpos → JournalKeys → Option JournalKey
unfolding follows smaller least_from
find_next_entry btree_type pos j = least (select (follows btree_type pos) j.entries)
