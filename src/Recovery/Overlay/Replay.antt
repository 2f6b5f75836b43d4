-- ===== src/Recovery/Overlay/Replay.antt =====
-- recovery/overlay.rs, btree/mod.rs: whole runs of writes during the replay of the journal.
use volmount.Common.{ℕ, if◌then◌else◌, true, Option, none, some, List, [], ◌∷◌, ◌≡◌}
use volmount.Btree.Bpos.{Bpos}
use volmount.Btree.Entry.{BtreeEntry, BtreeId, same_tree}
use volmount.Recovery.Overlay.{JournalKey}
use volmount.Recovery.Overlay.Drain.{Trees, Engine, insert_guarded}
use volmount.Recovery.Overlay.Refine.{at_pos, insert_guarded-TakesWrites, TakesWrites}

pub record Write : Type 0 where
  pub tree : BtreeId
  pub entry : BtreeEntry
  pub seq : ℕ

-- The abstract view: a map from positions to entries, changed write by write.
abbrev pub PositionMap : Type 0
PositionMap = BtreeId → Bpos → Option BtreeEntry

abbrev pub update : Write → PositionMap → PositionMap
update w f bt pos = if at_pos w.tree w.entry bt pos then some w.entry else f bt pos

abbrev pub updates : List Write → PositionMap → PositionMap
updates [] f = f
updates (w ∷ ws) f = updates ws (update w f)

module _ (trees : Trees) where
  open trees use {State, latest}

  unfoldable pub guarded : List Write → Engine trees → Engine trees
  guarded [] g = g
  guarded (w ∷ ws) g = guarded ws (insert_guarded trees w.tree w.entry w.seq g).0

  guarded-TakesWrites :
      (ws : List Write) (g : Engine trees) → TakesWrites trees g → TakesWrites trees (guarded ws g)
  unfolding guarded
  guarded-TakesWrites [] g h = h
  guarded-TakesWrites (w ∷ ws) g h =
      guarded-TakesWrites ws (insert_guarded trees w.tree w.entry w.seq g).0
        (insert_guarded-TakesWrites trees g w.tree w.entry w.seq h)

  -- No key of the overlay that has the tree, offset and snapshot of a position has another inode.
  abbrev pub OneInode : BtreeId → Bpos → JournalKey → Type 0
  OneInode bt pos k =
      same_tree k.btree_type bt ≡ true
      → k.entry.pos.offset ≡ pos.offset
      → k.entry.pos.snapshot ≡ pos.snapshot
      → k.entry.pos.inode ≡ pos.inode

  -- The keys of the overlay, if there is one.
  abbrev pub overlay_keys : Engine trees → List JournalKey
  overlay_keys g = elim g.journal_overlay [ none ↦ [] | some j ↦ j.entries ]
