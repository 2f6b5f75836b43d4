-- ===== src/Journal/ResState/Reservations.antt =====
-- journal/types.rs: all the reservations of the journal's buffers, under any sequence of
-- reservations, releases, closings and openings of entries.
pub mod Held
pub mod Invariant
pub mod Safety
use mathlib.Core.Path.{subst}
use volmount.Common.{
  ℕ, zero, suc, ◌+◌, ◌-◌, ◌*◌, ◌^◌, ◌<◌, ◌≤◌, ◌≡◌, ◌≢◌, ◌⊎◌, inl, inr, refl, arith, Option, none,
  some, Bool, true, false, List, [], ◌∷◌, get_elem?, if◌then◌else◌, ltb, ◌==◌, All, Bool-cases,
  All-imp, ◌∙◌, sym,
}
use volmount.Journal.ResState.{
  cur_entry_offset, idx, buf_count, try_reserve, release, close_entry, open_entry, new_state,
  is_closed, journal_entry_closed_val,
}
use volmount.Journal.ResState.Fields.{
  Parts, pack, Fits, count, set_count, try_reserve-pack, release-pack, close_entry-pack,
  open_entry-pack, after_reserve, offset-pack, idx-pack, buf_count-pack, count-set_count,
  set_count_rest, set_count-Fits, count-Fits,
}

-- `JournalRes`, without the copies of the entry's sequence number. The offset is in bytes.
pub record JournalRes : Type 0 where
  pub offset : ℕ
  pub u64s : ℕ
  pub buf_idx : ℕ

-- The reservation that `journal_res_get_fast` makes of a successful `try_reserve`.
unfoldable pub res_of : ℕ → ℕ → JournalRes
res_of req_u64s old = record {
  offset = cur_entry_offset old * 8;
  u64s = req_u64s;
  buf_idx = idx old;
}

pub record Entry : Type 0 where
  pub word : ℕ
  pub held : List JournalRes

abbrev pub remove : List JournalRes → ℕ → List JournalRes
remove [] k = []
remove (r ∷ rs) zero = rs
remove (r ∷ rs) (suc k) = r ∷ remove rs k

-- The journal opens an entry when none is open, in a buffer whose reservations have drained.
pub data Step (s : Entry) : Entry → Type 0 where
  get :
      (req_u64s old new : ℕ)
      → req_u64s < 2 ^ 32
      → try_reserve req_u64s s.word ≡ some (old, new)
      → Step s (record { word = new; held = res_of req_u64s old ∷ s.held })
  put :
      (k : ℕ) (r : JournalRes)
      → get_elem? s.held k ≡ some r
      → Step s (record { word = release r.buf_idx s.word; held = remove s.held k })
  close : Step s (record s { word = (close_entry s.word).1 })
  open_next :
      (i : ℕ)
      → i < 4
      → is_closed s.word ≡ true
      → buf_count s.word i ≡ 0
      → Step s (record s { word = open_entry i s.word })

pub data Reach : Entry → Type 0 where
  start : Reach (record { word = new_state; held = [] })
  next : {s t : Entry} → Reach s → Step s t → Reach t

-- How many reservations are held in buffer `i`.
unfoldable pub held_in : ℕ → List JournalRes → ℕ
held_in i [] = 0
held_in i (r ∷ rs) = (if r.buf_idx == i then 1 else 0) + held_in i rs

abbrev pub end_of : JournalRes → ℕ
end_of r = r.offset + r.u64s * 8

-- Two reservations of one buffer share no byte.
abbrev pub Apart : JournalRes → JournalRes → Type 0
Apart r s = r.buf_idx ≡ s.buf_idx → (end_of r ≤ s.offset) ⊎ (end_of s ≤ r.offset)

abbrev pub AllApart : List JournalRes → Type 0
AllApart [] = Unit
AllApart (r ∷ rs) = All (Apart r) rs × AllApart rs
