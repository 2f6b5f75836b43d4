-- ===== src/Btree/Pointer.antt =====
-- btree/types.rs: the 16 bytes of a child pointer on disk. Bytes are numbers below 256.
pub mod Bytes
use volmount.Common.{
  ℕ, zero, suc, ◌+◌, ◌*◌, ◌/◌, ◌%◌, ◌==◌, if◌then◌else◌, Bool, not, ◌&&◌, Option, none, some, List,
  [], ◌∷◌, ◌++◌, length, drop, get_elem?, Result, ok, err,
}
use volmount.Btree.Entry.{BtreePtrV2}

abbrev pub disk_bytes : ℕ
disk_bytes = 16

abbrev pub invalid : BtreePtrV2
invalid = record { block_addr = 0; sectors_written = 0; level = 0; generation = 0 }

unfoldable pub is_valid : BtreePtrV2 → Bool
is_valid p = not (p.block_addr == 0) && not (p.sectors_written == 0)

-- `to_le_bytes` of a word of `n` bytes, and `from_le_bytes`.
abbrev pub to_le_bytes : ℕ → ℕ → List ℕ
to_le_bytes zero v = []
to_le_bytes (suc n) v = v % 256 ∷ to_le_bytes n (v / 256)

abbrev pub from_le_bytes : List ℕ → ℕ
from_le_bytes [] = 0
from_le_bytes (b ∷ bs) = b + 256 * from_le_bytes bs

-- The bytes `[from, from + n)`.
abbrev pub take : ℕ → List ℕ → List ℕ
take zero xs = []
take (suc n) [] = []
take (suc n) (x ∷ xs) = x ∷ take n xs

unfoldable pub to_bytes : BtreePtrV2 → List ℕ
to_bytes p =
    to_le_bytes 8 p.block_addr
    ++ to_le_bytes 2 p.sectors_written
    ++ p.level ∷ 0 ∷ to_le_bytes 4 p.generation

-- The two `StorageError::InvalidData`.
pub data InvalidData : Type 0 where
  wrong_length : ℕ → InvalidData
  reserved_byte : InvalidData

abbrev byte : ℕ → List ℕ → ℕ
byte i bs = elim (get_elem? bs i) [ none ↦ 0 | some b ↦ b ]

unfoldable pub from_bytes : List ℕ → Result BtreePtrV2 InvalidData
from_bytes bytes =
    if not (length bytes == disk_bytes)
    then err (wrong_length (length bytes))
    else if not (byte 11 bytes == 0)
    then err reserved_byte
    else ok (record {
      block_addr = from_le_bytes (take 8 bytes);
      sectors_written = from_le_bytes (take 2 (drop 8 bytes));
      level = byte 10 bytes;
      generation = from_le_bytes (take 4 (drop 12 bytes));
    })
