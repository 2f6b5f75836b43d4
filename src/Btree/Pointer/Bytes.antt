-- ===== src/Btree/Pointer/Bytes.antt =====
-- btree/types.rs: pointers and their bytes, both ways.
use volmount.Common.{
  ℕ, zero, suc, ◌/◌, ◌^◌, ap, ◌∙◌, ◌<◌, ◌≡◌, arith, refl, List, [], ◌∷◌, All, length, ok,
}
use volmount.Btree.Entry.{BtreePtrV2}
use volmount.Btree.Pointer.{to_bytes, from_bytes, to_le_bytes, from_le_bytes}

-- The ranges of a pointer's machine words.
pub record PtrInRange (p : BtreePtrV2) : Type 0 where
  pub block_addr_fits : p.block_addr < 2 ^ 64
  pub sectors_written_fits : p.sectors_written < 2 ^ 16
  pub level_fits : p.level < 2 ^ 8
  pub generation_fits : p.generation < 2 ^ 32

from_le_bytes-to_le_bytes : (n v : ℕ) → v < 256 ^ n → from_le_bytes (to_le_bytes n v) ≡ v
from_le_bytes-to_le_bytes zero v h = omega arith
from_le_bytes-to_le_bytes (suc n) v h =
    omega (arith, from_le_bytes-to_le_bytes n (v / 256) (omega arith))

cons_eq : {x y : ℕ} {xs ys : List ℕ} → x ≡ y → xs ≡ ys → x ∷ xs ≡ y ∷ ys
cons_eq p q = cc

to_le_bytes-from_le_bytes :
    (bs : List ℕ) → All (λ b. b < 256) bs → to_le_bytes (length bs) (from_le_bytes bs) ≡ bs
to_le_bytes-from_le_bytes [] h = refl
to_le_bytes-from_le_bytes (b ∷ bs) (h, hs) =
    cons_eq (omega arith)
      (ap (to_le_bytes (length bs)) (omega arith) ∙ to_le_bytes-from_le_bytes bs hs)

pointer_eq :
    (p q : BtreePtrV2)
    → p.block_addr ≡ q.block_addr
    → p.sectors_written ≡ q.sectors_written
    → p.level ≡ q.level
    → p.generation ≡ q.generation
    → p ≡ q
pointer_eq p q a b c d = ground arith

-- A pointer is read back from its bytes.
pub from_bytes-to_bytes : (p : BtreePtrV2) → PtrInRange p → from_bytes (to_bytes p) ≡ ok p
unfolding from_bytes to_bytes
from_bytes-to_bytes p h = ap ok (
    pointer_eq _ p (from_le_bytes-to_le_bytes 8 p.block_addr h.block_addr_fits)
      (from_le_bytes-to_le_bytes 2 p.sectors_written (omega (arith, h.sectors_written_fits))) refl
      (from_le_bytes-to_le_bytes 4 p.generation (omega (arith, h.generation_fits))))
