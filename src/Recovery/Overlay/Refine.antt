-- ===== src/Recovery/Overlay/Refine.antt =====
-- recovery/overlay.rs, btree/mod.rs: writes that go through the overlay and are drained later leave
-- the trees as writes that go to the trees at once.
use volmount.Common.{
  ℕ, if◌then◌else◌, Bool, true, false, not, ◌&&◌, Option, none, some, List, [], ◌∷◌, ◌++◌, map, ◌≡◌,
  refl, arith, Bool-cases, inl, inr, ◌∙◌, Option-cases,
}
use volmount.Btree.Bpos.{Bpos, bpos_eq}
use volmount.Btree.Entry.{BtreeEntry, BtreeId, same_tree}
use volmount.Recovery.Overlay.{JournalKey, JournalKeys, find_last, mark, push}
use volmount.Recovery.Overlay.Lookup.{find_last-snoc, find_last-map}
use volmount.Recovery.Overlay.Drain.{Trees, drain, Engine, insert_guarded, drain_overlay}

-- A live key at exactly this position of this tree.
unfoldable pub exact : BtreeId → Bpos → JournalKey → Bool
exact bt pos k = same_tree k.btree_type bt && bpos_eq k.entry.pos pos && not k.overwritten

abbrev pub at_pos : BtreeId → BtreeEntry → BtreeId → Bpos → Bool
at_pos bt e bt' pos = same_tree bt bt' && bpos_eq e.pos pos

abbrev pub or_else : Option JournalKey → Option BtreeEntry → Option BtreeEntry
or_else (some k) o = some k.entry
or_else none o = o

abbrev fresh : ℕ → BtreeId → BtreeEntry → JournalKey
fresh seq bt e = record { journal_seq = seq; btree_type = bt; entry = e; overwritten = false }

module _ (bt : BtreeId) (e : BtreeEntry) (bt' : BtreeId) (pos : Bpos) where
  exact-mark :
      at_pos bt e bt' pos ≡ false
      → (x : JournalKey) → exact bt' pos (mark bt e.pos x) ≡ exact bt' pos x
  unfolding exact mark
  exact-mark n x = ground arith

  mark-exact :
      at_pos bt e bt' pos ≡ false → (x : JournalKey) → exact bt' pos x ≡ true → mark bt e.pos x ≡ x
  unfolding exact mark
  mark-exact n x h = ground arith

  exact-fresh : (seq : ℕ) → exact bt' pos (fresh seq bt e) ≡ at_pos bt e bt' pos
  unfolding exact
  exact-fresh seq = ground arith

  find_exact-push :
      (seq : ℕ) (j : JournalKeys)
      → find_last (exact bt' pos) (push seq bt e j).entries ≡ (
          if at_pos bt e bt' pos
          then some (fresh seq bt e)
          else find_last (exact bt' pos) j.entries)
  unfolding push
  find_exact-push seq j = elim (Bool-cases (at_pos bt e bt' pos)) [
    | inl h ↦ step ∙ rw (exact-fresh seq, h)
    | inr h ↦
        step ∙ rw (exact-fresh seq, h) (find_last-map _ _ (exact-mark h) (mark-exact h) j.entries)
  ]
    where
      step : find_last (exact bt' pos) (map (mark bt e.pos) j.entries ++ fresh seq bt e ∷ []) ≡ (
          if exact bt' pos (fresh seq bt e)
          then some (fresh seq bt e)
          else find_last (exact bt' pos) (map (mark bt e.pos) j.entries))
      step = find_last-snoc (exact bt' pos) (map (mark bt e.pos) j.entries) (fresh seq bt e)

module _ (trees : Trees) where
  open trees use {State, latest, insert, flush_cache_dirty_keys, latest-insert, latest-flush}

  drain_step :
      (k : JournalKey) (t : State) (bt : BtreeId) (pos : Bpos)
      → latest (if k.overwritten then t else (insert k.btree_type k.entry 0 t).0) bt pos
        ≡ (if exact bt pos k then some k.entry else latest t bt pos)
  unfolding exact
  drain_step k t bt pos = ground (arith, latest-insert k.btree_type k.entry 0 t bt pos)

  pub latest-drain :
      (ks : List JournalKey) (t : State) (bt : BtreeId) (pos : Bpos)
      → latest (drain trees ks t) bt pos ≡ or_else (find_last (exact bt pos) ks) (latest t bt pos)
  unfolding drain
  latest-drain [] t bt pos = refl
  latest-drain (k ∷ ks) t bt pos =
      latest-drain ks (if k.overwritten then t else (insert k.btree_type k.entry 0 t).0) bt pos
      ∙ rw (drain_step k t bt pos) (ground arith)

  -- What the trees hold once the overlay is drained.
  abbrev pub view : Engine trees → BtreeId → Bpos → Option BtreeEntry
  view g = latest (drain_overlay trees g).trees_state

  -- There is no overlay, or it takes the writes.
  abbrev pub TakesWrites : Engine trees → Type 0
  TakesWrites g = elim g.journal_overlay [
    | none ↦ Unit {0}
    | some j ↦ (j.active ≡ true) × (j.draining ≡ false)
  ]

  pub view-insert_guarded :
      (g : Engine trees) (bt : BtreeId) (e : BtreeEntry) (seq : ℕ) (bt' : BtreeId) (pos : Bpos)
      → TakesWrites g
      → view (insert_guarded trees bt e seq g).0 bt' pos
        ≡ (if at_pos bt e bt' pos then some e else view g bt' pos)
  unfolding insert_guarded drain_overlay
  view-insert_guarded g bt e seq bt' pos h = elim (Option-cases g.journal_overlay) [
    | inl none_there ↦ ground (
      arith,
      latest-insert bt e seq (flush_cache_dirty_keys seq g.trees_state) bt' pos,
      latest-flush seq g.trees_state bt' pos,
    )
    | inr (j, some_there) ↦ ground (
      arith,
      latest-drain (push seq bt e j).entries (flush_cache_dirty_keys seq g.trees_state) bt' pos,
      latest-drain j.entries g.trees_state bt' pos,
      find_exact-push bt e bt' pos seq j,
      latest-flush seq g.trees_state bt' pos,
    )
  ]

  pub insert_guarded-TakesWrites :
      (g : Engine trees) (bt : BtreeId) (e : BtreeEntry) (seq : ℕ)
      → TakesWrites g
      → TakesWrites (insert_guarded trees bt e seq g).0
  unfolding insert_guarded push
  insert_guarded-TakesWrites g bt e seq h = ground arith
