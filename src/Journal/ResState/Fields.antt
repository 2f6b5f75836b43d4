-- ===== src/Journal/ResState/Fields.antt =====
-- journal/types.rs: what each operation does to the fields of the reservation word.
use volmount.Common.{
  ℕ, zero, suc, ◌+◌, ◌-◌, ◌*◌, ◌/◌, ◌%◌, ◌^◌, ◌<◌, ◌≡◌, refl, arith, none, some, if◌then◌else◌, ltb,
  ◌==◌,
}
use volmount.Journal.ResState.{
  cur_entry_offset, idx, buf_count, reserved, try_reserve, release, close_entry, open_entry,
  align_idx_to_seq, journal_entry_closed_val,
}

-- The word that has these fields.
pub record Parts : Type 0 where
  pub offset : ℕ
  pub index : ℕ
  pub count0 : ℕ
  pub count1 : ℕ
  pub count2 : ℕ
  pub count3 : ℕ

abbrev pub pack : Parts → ℕ
pack p =
    p.offset
    + p.index * 2 ^ 22
    + p.count0 * 2 ^ 24
    + p.count1 * 2 ^ 34
    + p.count2 * 2 ^ 44
    + p.count3 * 2 ^ 54

pub record Fits (p : Parts) : Type 0 where
  pub offset_fits : p.offset < 2 ^ 22
  pub index_fits : p.index < 4
  pub count0_fits : p.count0 < 2 ^ 10
  pub count1_fits : p.count1 < 2 ^ 10
  pub count2_fits : p.count2 < 2 ^ 10
  pub count3_fits : p.count3 < 2 ^ 10

pub parts : ℕ → Parts
parts v = record {
  offset = v % 2 ^ 22;
  index = v / 2 ^ 22 % 4;
  count0 = v / 2 ^ 24 % 2 ^ 10;
  count1 = v / 2 ^ 34 % 2 ^ 10;
  count2 = v / 2 ^ 44 % 2 ^ 10;
  count3 = v / 2 ^ 54 % 2 ^ 10;
}

pub pack-parts : (v : ℕ) → v < 2 ^ 64 → Fits (parts v) × (pack (parts v) ≡ v)
unfolding parts
pack-parts v h = omega arith

-- The number of reservations of buffer `i`, and its change.
unfoldable pub count : Parts → ℕ → ℕ
count p zero = p.count0
count p (suc zero) = p.count1
count p (suc (suc zero)) = p.count2
count p (suc (suc (suc i))) = p.count3

unfoldable pub set_count : Parts → ℕ → ℕ → Parts
set_count p zero n = record p { count0 = n }
set_count p (suc zero) n = record p { count1 = n }
set_count p (suc (suc zero)) n = record p { count2 = n }
set_count p (suc (suc (suc i))) n = record p { count3 = n }

pub offset-pack : (p : Parts) → Fits p → cur_entry_offset (pack p) ≡ p.offset
unfolding cur_entry_offset
offset-pack p h = omega arith

pub idx-pack : (p : Parts) → Fits p → idx (pack p) ≡ p.index
unfolding idx
idx-pack p h = omega arith

pub buf_count-pack : (p : Parts) (i : ℕ) → Fits p → i < 4 → buf_count (pack p) i ≡ count p i
unfolding buf_count count
buf_count-pack p zero h k = omega arith
buf_count-pack p (suc zero) h k = omega arith
buf_count-pack p (suc (suc zero)) h k = omega arith
buf_count-pack p (suc (suc (suc zero))) h k = omega arith
buf_count-pack p (suc (suc (suc (suc i)))) h k = absurd (omega arith)

pub reserved-pack :
    (p : Parts) (i n : ℕ)
    → Fits p
    → i < 4
    → p.offset + n < 2 ^ 22
    → count p i + 1 < 2 ^ 10
    → reserved (pack p) i n
      ≡ pack (set_count (record p { offset = p.offset + n }) i (count p i + 1))
unfolding reserved count set_count
reserved-pack p zero n h k l m = omega arith
reserved-pack p (suc zero) n h k l m = omega arith
reserved-pack p (suc (suc zero)) n h k l m = omega arith
reserved-pack p (suc (suc (suc zero))) n h k l m = omega arith
reserved-pack p (suc (suc (suc (suc i)))) n h k l m = absurd (omega arith)

pub release-pack :
    (p : Parts) (i : ℕ)
    → Fits p
    → i < 4
    → 0 < count p i
    → release i (pack p) ≡ pack (set_count p i (count p i - 1))
unfolding release count set_count
release-pack p zero h k l = omega arith
release-pack p (suc zero) h k l = omega arith
release-pack p (suc (suc zero)) h k l = omega arith
release-pack p (suc (suc (suc zero))) h k l = omega arith
release-pack p (suc (suc (suc (suc i)))) h k l = absurd (omega arith)

pub close_entry-pack :
    (p : Parts)
    → Fits p
    → close_entry (pack p) ≡ (p.offset, pack (record p { offset = journal_entry_closed_val }))
unfolding close_entry
close_entry-pack p h = ground arith

pub open_entry-pack :
    (p : Parts) (i : ℕ)
    → Fits p
    → i < 4
    → open_entry i (pack p) ≡ pack (set_count (record p { offset = 0; index = i }) i 0)
unfolding open_entry set_count
open_entry-pack p zero h k = omega arith
open_entry-pack p (suc zero) h k = omega arith
open_entry-pack p (suc (suc zero)) h k = omega arith
open_entry-pack p (suc (suc (suc zero))) h k = omega arith
open_entry-pack p (suc (suc (suc (suc i)))) h k = absurd (omega arith)

pub align_idx_to_seq-pack :
    (p : Parts) (seq : ℕ)
    → Fits p
    → 0 < seq
    → seq < 2 ^ 64
    → align_idx_to_seq seq (pack p) ≡ pack (record p { index = (seq - 1) % 4 })
unfolding align_idx_to_seq
align_idx_to_seq-pack p seq h k l = omega arith

-- The fields after a successful reservation of `n` words.
abbrev pub after_reserve : Parts → ℕ → Parts
after_reserve p n = set_count (record p { offset = p.offset + n }) p.index (count p p.index + 1)

pub count-Fits : (p : Parts) (i : ℕ) → Fits p → count p i < 2 ^ 10
unfolding count
count-Fits p zero h = h.count0_fits
count-Fits p (suc zero) h = h.count1_fits
count-Fits p (suc (suc zero)) h = h.count2_fits
count-Fits p (suc (suc (suc i))) h = h.count3_fits

-- A reservation on a word with given fields: refused if the entry would pass the buffer's end (as a
-- closed entry does) or if the buffer has 1023 reservations; else only the offset and the count of
-- the open buffer change.
pub try_reserve-pack :
    (p : Parts) (n : ℕ)
    → Fits p
    → n < 2 ^ 32
    → try_reserve n (pack p) ≡ (
        if ltb 4096 (p.offset + n)
        then none
        else if count p p.index == 1023
        then none
        else some (pack p, pack (after_reserve p n)))
unfolding try_reserve
try_reserve-pack p n h k =
    rw (offset-pack p h, idx-pack p h, buf_count-pack p p.index h h.index_fits)
      (ground (arith, reserved-pack p p.index n, count-Fits p p.index h))

-- A change of one count is seen at that buffer alone.
pub count-set_count :
    (p : Parts) (i n j : ℕ)
    → i < 4
    → j < 4
    → count (set_count p i n) j ≡ (if i == j then n else count p j)
unfolding count set_count
count-set_count p zero n zero hi hj = refl
count-set_count p zero n (suc zero) hi hj = refl
count-set_count p zero n (suc (suc zero)) hi hj = refl
count-set_count p zero n (suc (suc (suc zero))) hi hj = refl
count-set_count p (suc zero) n zero hi hj = refl
count-set_count p (suc zero) n (suc zero) hi hj = refl
count-set_count p (suc zero) n (suc (suc zero)) hi hj = refl
count-set_count p (suc zero) n (suc (suc (suc zero))) hi hj = refl
count-set_count p (suc (suc zero)) n zero hi hj = refl
count-set_count p (suc (suc zero)) n (suc zero) hi hj = refl
count-set_count p (suc (suc zero)) n (suc (suc zero)) hi hj = refl
count-set_count p (suc (suc zero)) n (suc (suc (suc zero))) hi hj = refl
count-set_count p (suc (suc (suc zero))) n zero hi hj = refl
count-set_count p (suc (suc (suc zero))) n (suc zero) hi hj = refl
count-set_count p (suc (suc (suc zero))) n (suc (suc zero)) hi hj = refl
count-set_count p (suc (suc (suc zero))) n (suc (suc (suc zero))) hi hj = refl
count-set_count p (suc (suc (suc (suc i)))) n j hi hj = absurd (omega arith)
count-set_count p zero n (suc (suc (suc (suc j)))) hi hj = absurd (omega arith)
count-set_count p (suc zero) n (suc (suc (suc (suc j)))) hi hj = absurd (omega arith)
count-set_count p (suc (suc zero)) n (suc (suc (suc (suc j)))) hi hj = absurd (omega arith)
count-set_count p (suc (suc (suc zero))) n (suc (suc (suc (suc j)))) hi hj = absurd (omega arith)

-- It leaves the offset and the open buffer alone.
pub set_count_rest :
    (p : Parts) (i n : ℕ)
    → ((set_count p i n).offset ≡ p.offset) × ((set_count p i n).index ≡ p.index)
unfolding set_count
set_count_rest p zero n = (refl, refl)
set_count_rest p (suc zero) n = (refl, refl)
set_count_rest p (suc (suc zero)) n = (refl, refl)
set_count_rest p (suc (suc (suc i))) n = (refl, refl)

pub set_count-Fits : (p : Parts) (i n : ℕ) → Fits p → n < 2 ^ 10 → Fits (set_count p i n)
unfolding set_count
set_count-Fits p zero n h k = ground arith
set_count-Fits p (suc zero) n h k = ground arith
set_count-Fits p (suc (suc zero)) n h k = ground arith
set_count-Fits p (suc (suc (suc i))) n h k = ground arith
