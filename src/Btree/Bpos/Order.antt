-- ===== src/Btree/Bpos/Order.antt =====
-- btree/key.rs: the comparisons of positions are one total order.
use volmount.Common.{◌≡◌, ◌≢◌, ◌↔◌, ◌⊎◌, arith, true, not, Ordering}
use volmount.Btree.Bpos.{Bpos, bpos_cmp, bpos_eq, bpos_lt, bpos_le, bpos_gt, bpos_ge}

pub bpos_eq_iff : (l r : Bpos) → (bpos_eq l r ≡ true) ↔ (l ≡ r)
unfolding bpos_eq
bpos_eq_iff l r = ground arith

pub bpos_cmp_eq : (l r : Bpos) → (bpos_cmp l r ≡ Ordering.eq) ↔ (l ≡ r)
unfolding bpos_cmp
bpos_cmp_eq l r = ground arith

pub bpos_lt_trans : (a b c : Bpos) → bpos_lt a b ≡ true → bpos_lt b c ≡ true → bpos_lt a c ≡ true
unfolding bpos_lt
bpos_lt_trans a b c h k = ground arith

pub bpos_le_trans : (a b c : Bpos) → bpos_le a b ≡ true → bpos_le b c ≡ true → bpos_le a c ≡ true
unfolding bpos_le
bpos_le_trans a b c h k = ground arith

pub bpos_le_antisymm : (a b : Bpos) → bpos_le a b ≡ true → bpos_le b a ≡ true → a ≡ b
unfolding bpos_le
bpos_le_antisymm a b h k = ground arith

-- The five tests are one strict total order: exactly one of less, equal and greater holds, `le` and
-- `ge` are the negations, less-than is transitive, and equality is equality of all three fields.
pub bpos_order :
    (a b c : Bpos)
    → ((bpos_lt a b ≡ true) ⊎ ((a ≡ b) ⊎ (bpos_lt b a ≡ true)))
      × (bpos_lt a b ≡ true → a ≢ b)
      × (bpos_gt a b ≡ bpos_lt b a)
      × (bpos_le a b ≡ not (bpos_lt b a))
      × (bpos_ge a b ≡ not (bpos_lt a b))
      × ((bpos_eq a b ≡ true) ↔ (a ≡ b))
      × (bpos_lt a b ≡ true → bpos_lt b c ≡ true → bpos_lt a c ≡ true)
unfolding bpos_lt bpos_gt bpos_le bpos_ge
bpos_order a b c = (
  ground arith,
  ground arith,
  ground arith,
  ground arith,
  ground arith,
  bpos_eq_iff a b,
  bpos_lt_trans a b c,
)
