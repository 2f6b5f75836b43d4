-- ===== src/Snap/Meta.antt =====
-- snap/meta.rs: the records of the Snapshots and SnapshotTrees btrees.
use volmount.Common.{ℕ, ◌+◌, ◌==◌, ltb, if◌then◌else◌, Bool, true, false, not, ◌&&◌, ◌||◌, u32}

pub data SnapshotIdState : Type 0 where
  empty live deleted : SnapshotIdState

-- `BchSnapshotFlags`: the four named bits of the byte.
pub record BchSnapshotFlags : Type 0 where
  pub subvol : Bool
  pub no_keys : Bool
  pub will_delete : Bool
  pub deleted_flag : Bool

abbrev pub no_flags : BchSnapshotFlags
no_flags = record { subvol = false; no_keys = false; will_delete = false; deleted_flag = false }

-- The `u128` of ancestors is given by its bits.
pub record SnapshotT : Type 0 where
  pub state : SnapshotIdState
  pub parent : ℕ
  pub left_child : ℕ
  pub right_child : ℕ
  pub subvol : ℕ
  pub tree : ℕ
  pub skip0 : ℕ
  pub skip1 : ℕ
  pub skip2 : ℕ
  pub is_ancestor : ℕ → Bool
  pub depth : ℕ
  pub btime : ℕ
  pub is_deleted : Bool
  pub flags : BchSnapshotFlags

unfoldable pub new_leaf : ℕ → ℕ → ℕ → ℕ → ℕ → SnapshotT
new_leaf parent subvol tree depth btime = record {
  state = live;
  parent = parent;
  left_child = 0;
  right_child = 0;
  subvol = subvol;
  tree = tree;
  skip0 = 0;
  skip1 = 0;
  skip2 = 0;
  is_ancestor = λ _. false;
  depth = depth;
  btime = btime;
  is_deleted = false;
  flags = record no_flags { subvol = true };
}

unfoldable pub new_interior : ℕ → ℕ → ℕ → ℕ → ℕ → ℕ → SnapshotT
new_interior parent left right tree depth btime = record {
  state = live;
  parent = parent;
  left_child = left;
  right_child = right;
  subvol = 0;
  tree = tree;
  skip0 = 0;
  skip1 = 0;
  skip2 = 0;
  is_ancestor = λ _. false;
  depth = depth;
  btime = btime;
  is_deleted = false;
  flags = no_flags;
}

unfoldable pub mark_deleted : SnapshotT → SnapshotT
mark_deleted s = record s { state = deleted; is_deleted = true; skip0 = 0; skip1 = 0; skip2 = 0 }

unfoldable pub is_leaf : SnapshotT → Bool
is_leaf s = s.left_child == 0 && s.right_child == 0

unfoldable pub is_interior : SnapshotT → Bool
unfolding is_leaf
is_interior s = not (is_leaf s)

unfoldable pub has_subvol : SnapshotT → Bool
has_subvol s = s.flags.subvol

unfoldable pub deleted_placeholder : SnapshotT
deleted_placeholder = record {
  state = empty;
  parent = 0;
  left_child = 0;
  right_child = 0;
  subvol = 0;
  tree = 0;
  skip0 = 0;
  skip1 = 0;
  skip2 = 0;
  is_ancestor = λ _. false;
  depth = 0;
  btime = 0;
  is_deleted = true;
  flags = no_flags;
}

pub record SnapshotTreeT : Type 0 where
  pub root_snapshot : ℕ
  pub latest_snapshot : ℕ
  pub count : ℕ
  pub master_subvol : ℕ

unfoldable pub new_tree : ℕ → ℕ → SnapshotTreeT
new_tree root_snapshot subvol_id = record {
  root_snapshot = root_snapshot;
  latest_snapshot = root_snapshot;
  count = 1;
  master_subvol = subvol_id;
}

unfoldable pub add_snapshot : ℕ → SnapshotTreeT → SnapshotTreeT
add_snapshot snapshot_id t =
    if ltb snapshot_id t.latest_snapshot || t.latest_snapshot == 0
    then record t { count = u32 (t.count + 1); latest_snapshot = snapshot_id }
    else record t { count = u32 (t.count + 1) }
