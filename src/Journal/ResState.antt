-- ===== src/Journal/ResState.antt =====
-- journal/types.rs: `JournalResState`, the packed 64-bit word of journal reservations.
-- A mask is `%`, a shift is `/` or `*`, and `(v & !(mask << s)) | (x << s)` is `with_field v s w x`.
-- A compare-exchange loop is the one step that its last round makes on the current word.
pub mod Fields
pub mod Reservations
use volmount.Common.{
  ℕ, ◌+◌, ◌-◌, ◌*◌, ◌/◌, ◌%◌, ◌^◌, ltb, leb, ◌==◌, if◌then◌else◌, Bool, ◌||◌, Option, none, some,
  u64, add64, sub64,
}

abbrev pub buf_size_u64s : ℕ
buf_size_u64s = 32768 / 8

abbrev pub cur_entry_offset_mask : ℕ
cur_entry_offset_mask = 2 ^ 22 - 1

abbrev pub buf_count_max : ℕ
buf_count_max = 2 ^ 10 - 1

abbrev pub journal_entry_closed_val : ℕ
journal_entry_closed_val = cur_entry_offset_mask - 1

-- The bits `[shift, shift + width)` of a word, and the word with them set to `x`.
abbrev pub field : ℕ → ℕ → ℕ → ℕ
field v shift width = v / 2 ^ shift % 2 ^ width

abbrev pub with_field : ℕ → ℕ → ℕ → ℕ → ℕ
with_field v shift width x = v - field v shift width * 2 ^ shift + x * 2 ^ shift

abbrev pub count_shift : ℕ → ℕ
count_shift i = 24 + i * 10

abbrev pub new_state : ℕ
new_state = journal_entry_closed_val

unfoldable pub cur_entry_offset : ℕ → ℕ
cur_entry_offset v = v % 2 ^ 22

unfoldable pub idx : ℕ → ℕ
idx v = v / 2 ^ 22 % 2 ^ 2

unfoldable pub buf_count : ℕ → ℕ → ℕ
buf_count v i = field v (count_shift i) 10

-- The word with `req_u64s` more words in the entry and one more reservation of buffer `i`.
unfoldable pub reserved : ℕ → ℕ → ℕ → ℕ
unfolding cur_entry_offset
reserved v i req_u64s =
    let new = with_field v 0 22 ((cur_entry_offset v + req_u64s) % 2 ^ 22) in
    with_field new (count_shift i) 10 ((field v (count_shift i) 10 + 1) % 2 ^ 10)

unfoldable pub try_reserve : ℕ → ℕ → Option (ℕ × ℕ)
try_reserve req_u64s v =
    if ltb buf_size_u64s (add64 (cur_entry_offset v) req_u64s)
    then none
    else if buf_count v (idx v) == buf_count_max
    then none
    else some (v, reserved v (idx v) req_u64s)

-- The word left behind; the call returns the word before.
unfoldable pub release : ℕ → ℕ → ℕ
release i v = sub64 v (2 ^ count_shift i)

unfoldable pub close_entry : ℕ → ℕ × ℕ
unfolding cur_entry_offset
close_entry v = (cur_entry_offset v, with_field v 0 22 journal_entry_closed_val)

unfoldable pub open_entry : ℕ → ℕ → ℕ
open_entry new_idx v =
    let with_idx = with_field v 22 2 new_idx in
    let with_offset = with_field with_idx 0 22 0 in
    with_field with_offset (count_shift new_idx) 10 0

unfoldable pub align_idx_to_seq : ℕ → ℕ → ℕ
align_idx_to_seq seq v = with_field v 22 2 (sub64 seq 1 % 4)

unfoldable pub is_closed : ℕ → Bool
unfolding cur_entry_offset
is_closed v = leb journal_entry_closed_val (cur_entry_offset v)
