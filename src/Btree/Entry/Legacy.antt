-- ===== src/Btree/Entry/Legacy.antt =====
-- btree/key.rs: keys of the old interface against positions and entries.
use volmount.Common.{◌≡◌, ◌↔◌, arith, true, Ordering, some}
use volmount.Btree.Entry.{KeyType, BtreeKey, key_eq, key_cmp, key_type_from_u8, key_type_code}

-- Keys that compare as equal are equal by `==`, and the other way round.
pub key_cmp_eq : (a b : BtreeKey) → (key_cmp a b ≡ Ordering.eq) ↔ (key_eq a b ≡ true)
unfolding key_cmp key_eq
key_cmp_eq a b = ground arith

pub key_type_from_u8_lem : (t : KeyType) → key_type_from_u8 (key_type_code t) ≡ some t
unfolding key_type_from_u8
key_type_from_u8_lem t = ground arith
