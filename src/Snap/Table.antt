-- ===== src/Snap/Table.antt =====
-- snap/table.rs: `SnapshotTable`. Entries stand at index `u32::MAX - id`. The loops of
-- `is_ancestor` take fuel; `stuck` is a loop that has run out of it.
pub mod Path
pub mod Jump
pub mod Climb
pub mod Ancestor
pub mod Bitmap
pub mod Root
use volmount.Common.{
  ℕ, zero, suc, ◌+◌, ◌-◌, ◌^◌, ltb, leb, ◌==◌, if◌then◌else◌, Bool, true, false, not, ◌&&◌, ◌||◌,
  Option, none, some, List, [], ◌∷◌, get_elem?, length, u32,
}
use volmount.Snap.Meta.{SnapshotIdState, SnapshotT}

abbrev pub u32_max : ℕ
u32_max = 2 ^ 32 - 1

abbrev pub is_ancestor_bitmap : ℕ
is_ancestor_bitmap = 128

abbrev pub SnapshotTable : Type 0
SnapshotTable = List SnapshotT

-- The entry of an id, deleted or not.
abbrev pub entry_of : SnapshotTable → ℕ → Option SnapshotT
entry_of t id = get_elem? t (u32_max - id)

unfoldable pub get : SnapshotTable → ℕ → Option SnapshotT
get t id = elim (entry_of t id) [ none ↦ none | some s ↦ if s.is_deleted then none else some s ]

unfoldable pub parent : SnapshotTable → ℕ → Option ℕ
unfolding get
parent t id = elim (get t id) [
  | none ↦ none
  | some s ↦ if s.parent == 0 then none else some s.parent
]

unfoldable pub depth : SnapshotTable → ℕ → Option ℕ
unfolding get
depth t id = elim (get t id) [ none ↦ none | some s ↦ some s.depth ]

unfoldable pub exists : SnapshotTable → ℕ → Bool
unfolding get
exists t id = elim (get t id) [ none ↦ false | some _ ↦ true ]

unfoldable pub id_state : SnapshotTable → ℕ → SnapshotIdState
id_state t id = elim (entry_of t id) [ none ↦ SnapshotIdState.empty | some s ↦ s.state ]

unfoldable pub get_ancestor_below : SnapshotTable → ℕ → ℕ → ℕ
get_ancestor_below t id ancestor = elim (get t id) [
  | none ↦ 0
  | some s ↦
      if not (s.skip2 == 0) && leb s.skip2 ancestor
      then s.skip2
      else if not (s.skip1 == 0) && leb s.skip1 ancestor
      then s.skip1
      else if not (s.skip0 == 0) && leb s.skip0 ancestor
      then s.skip0
      else s.parent
]

-- `(ancestor - id - 1) as usize`, in 32 bits.
abbrev pub bit_of : ℕ → ℕ → ℕ
bit_of id ancestor = u32 (ancestor + 2 ^ 33 - id - 1)

unfoldable pub test_ancestor_bitmap : SnapshotTable → ℕ → ℕ → Bool
test_ancestor_bitmap t id ancestor =
    if leb is_ancestor_bitmap (bit_of id ancestor)
    then false
    else elim (get t id) [ none ↦ false | some s ↦ s.is_ancestor (bit_of id ancestor) ]

-- How a loop ends: out of fuel, at a `return false`, or by its condition at an id.
pub data Walk : Type 0 where
  stuck : Walk
  refused : Walk
  reached : ℕ → Walk

-- The `while` of the skip list.
unfoldable pub jump : ℕ → SnapshotTable → ℕ → ℕ → Walk
jump zero t ancestor current = stuck
jump (suc fuel) t ancestor current =
    let current' = get_ancestor_below t current ancestor in
    let rest = jump fuel t ancestor current' in
    if not (current == 0) && ltb current (ancestor - is_ancestor_bitmap)
    then if current' == 0 then refused else rest
    else reached current

-- The `while` of the parents.
unfoldable pub climb : ℕ → SnapshotTable → ℕ → ℕ → Walk
climb zero t ancestor current = stuck
climb (suc fuel) t ancestor current =
    if not (current == 0) && ltb current ancestor
    then elim (get t current) [ none ↦ refused | some s ↦ climb fuel t ancestor s.parent ]
    else reached current

-- The end of the function: whether the climb stopped at the ancestor.
abbrev pub arrived : ℕ → Walk → Option Bool
arrived ancestor stuck = none
arrived ancestor refused = some false
arrived ancestor (reached c) = some (c == ancestor)

-- The bitmap and the parents, from where the skip list led.
unfoldable pub near : SnapshotTable → ℕ → ℕ → Option Bool
near t ancestor current =
    if not (current == 0) && ltb current ancestor && test_ancestor_bitmap t current ancestor
    then some true
    else arrived ancestor (climb (suc ancestor) t ancestor current)

unfoldable pub then_near : SnapshotTable → ℕ → Walk → Option Bool
unfolding near
then_near t ancestor stuck = none
then_near t ancestor refused = some false
then_near t ancestor (reached c) = near t ancestor c

unfoldable pub is_ancestor : SnapshotTable → ℕ → ℕ → Option Bool
is_ancestor t id ancestor =
    if id == ancestor
    then some true
    else if leb ancestor id || id == 0
    then some false
    else then_near t ancestor
        (if leb is_ancestor_bitmap ancestor then jump (suc ancestor) t ancestor id else reached id)

-- `build_bitmaps`, the `while`: the bits that the walk from `current` sets for `id`, with the rounds
-- that are left. A deleted snapshot on the way is passed.
unfoldable pub bits_from : SnapshotTable → ℕ → ℕ → ℕ → ℕ → Bool
bits_from t id zero current bit = false
bits_from t id (suc rounds) current bit =
    if current == 0
    then false
    else ltb bit is_ancestor_bitmap && (bit_of id current == bit)
      || elim (entry_of t current) [ none ↦ false | some s ↦ bits_from t id rounds s.parent bit ]

-- `build_bitmaps`, the body of the `for`: it writes the bitmap of a live entry.
unfoldable pub built : SnapshotTable → ℕ → SnapshotT → SnapshotT
built t id s =
    if s.is_deleted
    then s
    else record s { is_ancestor = bits_from t id is_ancestor_bitmap s.parent }

-- The `for`: what it writes it does not read, so that `t` stays the table before it.
unfoldable pub build_from : SnapshotTable → ℕ → List SnapshotT → List SnapshotT
unfolding built
build_from t idx [] = []
build_from t idx (s ∷ rest) = built t (u32_max - idx) s ∷ build_from t (suc idx) rest

unfoldable pub build_bitmaps : SnapshotTable → SnapshotTable
build_bitmaps t = build_from t 0 t

-- `root`: `stuck` is none, and the answer none is `some none`.
unfoldable pub root_from : ℕ → SnapshotTable → ℕ → Option (Option ℕ)
root_from zero t current = none
root_from (suc fuel) t current = elim (get t current) [
  | none ↦ some none
  | some s ↦ if s.parent == 0 then some (some current) else root_from fuel t s.parent
]

unfoldable pub root : SnapshotTable → ℕ → Option (Option ℕ)
root t id = root_from (suc (u32_max - id)) t id

unfoldable pub children : SnapshotTable → ℕ → ℕ × ℕ
children t id = elim (get t id) [ none ↦ (0, 0) | some s ↦ (s.left_child, s.right_child) ]
