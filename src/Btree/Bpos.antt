-- ===== src/Btree/Bpos.antt =====
-- btree/key.rs: `Bpos`, the position that orders the keys of every B-tree, and its neighbours.
pub mod Order
pub mod Neighbours
use volmount.Common.{
  ℕ, ◌+◌, ◌-◌, ◌^◌, ◌<◌, ◌==◌, if◌then◌else◌, Bool, true, false, ◌&&◌, compare, Ordering, u32, u64,
  sub64, ◌%◌,
}

pub record Bpos : Type 0 where
  pub inode : ℕ
  pub offset : ℕ
  pub snapshot : ℕ

-- The ranges of the machine words of a position.
pub record InRange (p : Bpos) : Type 0 where
  pub inode_fits : p.inode < 2 ^ 64
  pub offset_fits : p.offset < 2 ^ 64
  pub snapshot_fits : p.snapshot < 2 ^ 32

abbrev pub u32_max : ℕ
u32_max = 2 ^ 32 - 1

abbrev pub u64_max : ℕ
u64_max = 2 ^ 64 - 1

abbrev pub min_pos : Bpos
min_pos = record { inode = 0; offset = 0; snapshot = 0 }

abbrev pub max_pos : Bpos
max_pos = record { inode = u64_max; offset = u64_max; snapshot = u32_max }

unfoldable pub new_pos : ℕ → ℕ → ℕ → Bpos
new_pos inode offset snapshot = record { inode = inode; offset = offset; snapshot = snapshot }

unfoldable pub is_min : Bpos → Bool
is_min p = p.inode == 0 && p.offset == 0 && p.snapshot == 0

unfoldable pub is_max : Bpos → Bool
is_max p = p.inode == u64_max && p.offset == u64_max && p.snapshot == u32_max

abbrev pub sub32 : ℕ → ℕ → ℕ
sub32 a b = u32 (a + 2 ^ 32 - b)

unfoldable pub successor : Bpos → Bpos
successor p =
    let snapshot = u32 (p.snapshot + 1) in
    let offset = if snapshot == 0 then u64 (p.offset + 1) else p.offset in
    let inode = if snapshot == 0 && offset == 0 then u64 (p.inode + 1) else p.inode in
    record { inode = inode; offset = offset; snapshot = snapshot }

unfoldable pub predecessor : Bpos → Bpos
predecessor p =
    let snapshot = sub32 p.snapshot 1 in
    let offset = if snapshot == u32_max then sub64 p.offset 1 else p.offset in
    let inode = if snapshot == u32_max && offset == u64_max then sub64 p.inode 1 else p.inode in
    record { inode = inode; offset = offset; snapshot = snapshot }

-- `Ordering::then_with`
abbrev pub then_with : Ordering → Ordering → Ordering
then_with Ordering.eq second = second
then_with first second = first

unfoldable pub bpos_cmp : Bpos → Bpos → Ordering
bpos_cmp l r =
    then_with (then_with (compare l.inode r.inode) (compare l.offset r.offset))
      (compare l.snapshot r.snapshot)

unfoldable pub bpos_eq : Bpos → Bpos → Bool
bpos_eq l r = l.inode == r.inode && l.offset == r.offset && l.snapshot == r.snapshot

unfoldable pub bpos_lt : Bpos → Bpos → Bool
unfolding bpos_cmp
bpos_lt l r = elim (bpos_cmp l r) [ Ordering.lt ↦ true | _ ↦ false ]

unfoldable pub bpos_le : Bpos → Bpos → Bool
unfolding bpos_cmp
bpos_le l r = elim (bpos_cmp l r) [ Ordering.gt ↦ false | _ ↦ true ]

unfoldable pub bpos_gt : Bpos → Bpos → Bool
unfolding bpos_cmp
bpos_gt l r = elim (bpos_cmp l r) [ Ordering.gt ↦ true | _ ↦ false ]

unfoldable pub bpos_ge : Bpos → Bpos → Bool
unfolding bpos_cmp
bpos_ge l r = elim (bpos_cmp l r) [ Ordering.lt ↦ false | _ ↦ true ]
