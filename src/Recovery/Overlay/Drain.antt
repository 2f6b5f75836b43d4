-- ===== src/Recovery/Overlay/Drain.antt =====
-- recovery/overlay.rs: `drain_all`, and the engine's reads and writes through the overlay
-- (btree/mod.rs). The trees behind it are an interface: what the last write left at each position.
use volmount.Common.{
  ℕ, if◌then◌else◌, Bool, true, false, not, ◌&&◌, Option, none, some, List, [], ◌∷◌, ◌≡◌,
}
use volmount.Btree.Bpos.{Bpos, bpos_eq}
use volmount.Btree.Entry.{BtreeEntry, BtreeId, same_tree}
use volmount.Recovery.Overlay.{JournalKey, JournalKeys, push, lookup_entry, new_keys}

-- The trees of the engine, seen through the entry that was last written at a position.
pub record Trees : Type 1 where
  pub State : Type 0
  pub latest : State → BtreeId → Bpos → Option BtreeEntry
  pub insert : BtreeId → BtreeEntry → ℕ → State → State × Bool
  pub flush_cache_dirty_keys : ℕ → State → State
  pub latest-insert :
      (bt : BtreeId) (e : BtreeEntry) (seq : ℕ) (t : State) (bt' : BtreeId) (pos : Bpos)
      → latest (insert bt e seq t).0 bt' pos
        ≡ (if same_tree bt bt' && bpos_eq e.pos pos then some e else latest t bt' pos)
  -- A dirty cached key is one that its tree holds already.
  pub latest-flush :
      (seq : ℕ) (t : State) (bt : BtreeId) (pos : Bpos)
      → latest (flush_cache_dirty_keys seq t) bt pos ≡ latest t bt pos

module _ (trees : Trees) where
  open trees use {State, latest, insert, flush_cache_dirty_keys}

  -- The `while let` of `drain_all`, over the entries in the order in which they were pushed.
  unfoldable pub drain : List JournalKey → State → State
  drain [] t = t
  drain (k ∷ ks) t = drain ks (if k.overwritten then t else (insert k.btree_type k.entry 0 t).0)

  unfoldable pub drain_all : JournalKeys → State → JournalKeys × State
  drain_all j t = (record j { entries = []; active = false; draining = false }, drain j.entries t)

  -- `BtreeEngine`: the trees with their overlay.
  pub record Engine : Type 0 where
    pub trees_state : State
    pub journal_overlay : Option JournalKeys

  unfoldable pub insert_entry_raw : BtreeId → BtreeEntry → ℕ → Engine → Engine × Bool
  insert_entry_raw ty e seq g =
      let (t, done) = insert ty e seq g.trees_state in (record g { trees_state = t }, done)

  unfoldable pub insert_guarded : BtreeId → BtreeEntry → ℕ → Engine → Engine × Bool
  unfolding insert_entry_raw
  insert_guarded ty e seq g =
      let g' : Engine = record g { trees_state = flush_cache_dirty_keys seq g.trees_state } in
      elim g.journal_overlay [
        | none ↦ insert_entry_raw ty e seq g'
        | some j ↦
            if j.active && not j.draining
            then (record g' { journal_overlay = some (push seq ty e j) }, true)
            else insert_entry_raw ty e seq g'
      ]

  unfoldable pub enable_overlay : Engine → Engine
  unfolding new_keys
  enable_overlay g = record g { journal_overlay = some (record new_keys { active = true }) }

  unfoldable pub drain_overlay : Engine → Engine
  unfolding drain_all
  drain_overlay g = elim g.journal_overlay [
    | none ↦ g
    | some j ↦
        let (_, t) = drain_all j g.trees_state in record { trees_state = t; journal_overlay = none }
  ]

  unfoldable pub get_entry_raw : BtreeId → Bpos → Engine → Option BtreeEntry
  get_entry_raw ty pos g = elim g.journal_overlay [
    | none ↦ latest g.trees_state ty pos
    | some j ↦ if j.draining then latest g.trees_state ty pos else elim (lookup_entry ty pos j) [
      | some k ↦ some k.entry
      | none ↦ latest g.trees_state ty pos
    ]
  ]
