-- ===== src/Btree/Bpos/Neighbours.antt =====
-- btree/key.rs: `successor` and `predecessor` of a position.
use volmount.Common.{◌≡◌, ◌≢◌, arith, true}
use volmount.Btree.Bpos.{Bpos, InRange, max_pos, successor, predecessor, bpos_lt, bpos_le}

-- The successor of a position other than the greatest is the least position above it.
pub successor_least :
    (p q : Bpos)
    → InRange p
    → p ≢ max_pos
    → InRange q
    → InRange (successor p)
      × (bpos_lt p (successor p) ≡ true)
      × (bpos_lt p q ≡ true → bpos_le (successor p) q ≡ true)
unfolding successor bpos_lt bpos_le
successor_least p q h n k = (ground arith, ground arith, ground arith)

-- The two are inverse on all positions, also where they wrap around.
pub predecessor-successor :
    (p : Bpos) → InRange p → (predecessor (successor p) ≡ p) × (successor (predecessor p) ≡ p)
unfolding successor predecessor
predecessor-successor p h = (ground arith, ground arith)
