-- ===== src/Snap/Tests.antt =====
-- snap/table.rs: a table of three snapshots, 4294967295 down to 4294967293, each the child of the one
-- before it.
use volmount.Common.{
  ℕ, suc, ◌+◌, ◌-◌, ◌<◌, ◌≡◌, ◌≢◌, ◌↔◌, refl, arith, none, some, [], ◌∷◌, get_elem?, zero, true,
  false,
}
use volmount.Snap.Meta.{SnapshotT, new_leaf}
use volmount.Snap.Table.{
  SnapshotTable, u32_max, get, is_ancestor, bits_from, then_near, near, test_ancestor_bitmap, jump,
  climb, root, root_from,
}
use volmount.Snap.Table.Path.{ParentsAbove, IsWellFormed}
use volmount.Snap.Table.Jump.{OnPath, Decides}
use volmount.Snap.Table.Ancestor.{is_ancestor_correct}
use volmount.Snap.Table.Root.{root_correct, IsRoot}

abbrev top : ℕ
top = 4294967295

abbrev chain : SnapshotTable
unfolding new_leaf
chain = new_leaf 0 1 1 0 0 ∷ new_leaf 4294967295 1 1 1 0 ∷ new_leaf 4294967294 1 1 2 0 ∷ []

record IsLink (i : ℕ) (s : SnapshotT) : Type 0 where
  skip0_none : s.skip0 ≡ 0
  skip1_none : s.skip1 ≡ 0
  skip2_none : s.skip2 ≡ 0
  no_bits : (bit : ℕ) → s.is_ancestor bit ≡ false
  links : s.parent ≢ 0 → (0 < i) × (i < 3) × (s.parent + i ≡ u32_max + 1)

chain-IsLink : (i : ℕ) (s : SnapshotT) → get_elem? chain i ≡ some s → IsLink i s
unfolding new_leaf
chain-IsLink zero s e = ground arith
chain-IsLink (suc zero) s e = ground arith
chain-IsLink (suc (suc zero)) s e = ground arith
chain-IsLink (suc (suc (suc i))) s e = absurd (ground arith)

chain-ParentsAbove : ParentsAbove chain
chain-ParentsAbove = record {
  parent_above = λ id s e n. ground (arith, (chain-IsLink (u32_max - id) s e).links n);
}

chain-IsWellFormed : IsWellFormed chain
chain-IsWellFormed = record {
  parent_above = λ id s e n. (chain-ParentsAbove.parent_above id s e n).0;
  skip0_above = λ id s e n. absurd (n (chain-IsLink (u32_max - id) s e).skip0_none);
  skip1_above = λ id s e n. absurd (n (chain-IsLink (u32_max - id) s e).skip1_none);
  skip2_above = λ id s e n. absurd (n (chain-IsLink (u32_max - id) s e).skip2_none);
  bits_above =
      λ id s bit e lt h. absurd (grind (arith, (chain-IsLink (u32_max - id) s e).no_bits bit));
}

is_ancestor_correct_example : Decides chain top 4294967293 (is_ancestor chain 4294967293 top)
is_ancestor_correct_example =
    is_ancestor_correct chain 4294967293 top chain-IsWellFormed (omega arith) (omega arith)

is_ancestor_test : is_ancestor chain 4294967293 top ≡ some true
unfolding is_ancestor then_near near test_ancestor_bitmap get jump climb new_leaf chain
is_ancestor_test = refl

abbrev built_leaf : SnapshotT
unfolding new_leaf
built_leaf = record (new_leaf 4294967294 1 1 2 0) {
  is_ancestor = bits_from chain 4294967293 128 4294967294;
}

root_correct_example :
    (root chain 4294967293 ≢ none)
    × ((r : ℕ)
        → (root chain 4294967293 ≡ some (some r)) ↔ (OnPath chain r 4294967293 × IsRoot chain r))
root_correct_example = root_correct chain 4294967293 chain-ParentsAbove (omega arith)

root_test : root chain 4294967293 ≡ some (some top)
unfolding root root_from get new_leaf chain
root_test = refl
