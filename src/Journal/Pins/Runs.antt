-- ===== src/Journal/Pins/Runs.antt =====
-- journal/reclaim.rs: the calls of the pin interface, and their runs.
use volmount.Common.{ℕ, suc, ◌+◌, ◌%◌, ◌<◌, ◌≤◌, ◌≡◌, false, Option, some}
use volmount.Journal.PinFifo.{fifo_length, new_fifo}
use volmount.Journal.Pins.{
  JournalEntryPin, Journal, update_last_seq, bch2_journal_pin_drop, bch2_journal_pin_set,
  bch2_journal_pin_copy, bch2_journal_pin_add, bch2_journal_pin_update, bch2_journal_pin_put,
  push_entry_list, count_at,
}
use volmount.Journal.Pins.Marks.{pinned}
use volmount.Journal.Pins.Calls.{marks}

pub data PinCall (F : Type 0) : Type 0 where
  drop_pin : ℕ → PinCall F
  set_pin : ℕ → ℕ → Option F → PinCall F
  copy_pin : ℕ → ℕ → Option F → PinCall F
  add_pin : ℕ → ℕ → Option F → PinCall F
  update_pin : ℕ → ℕ → Option F → PinCall F
  put_list : ℕ → PinCall F
  open_list : PinCall F
  update_seq : PinCall F

module _ {F : Type 0} where
  abbrev pub pin_call : PinCall F → Journal F → Option (Journal F)
  pin_call (drop_pin a) j = bch2_journal_pin_drop a j
  pin_call (set_pin t a f) j = bch2_journal_pin_set t a f j
  pin_call (copy_pin dst src f) j = bch2_journal_pin_copy dst src f j
  pin_call (add_pin t a f) j = bch2_journal_pin_add t a f j
  pin_call (update_pin t a f) j = bch2_journal_pin_update t a f j
  pin_call (put_list t) j = some (bch2_journal_pin_put t j).1
  pin_call open_list j = push_entry_list j
  pin_call update_seq j = some (update_last_seq j)

  -- The sequence number has a list in the ring.
  abbrev pub HasList : Journal F → ℕ → Type 0
  HasList j t =
      (j.seqs.last_seq_ondisk ≤ t) × (t < j.seqs.last_seq_ondisk + fifo_length j.seqs.pin_fifo)

  -- What a caller owes: pins at known addresses and lists that the ring has, a reference that no
  -- pin holds to put one, and room to open one.
  abbrev pub Allowed : ℕ → Journal F → PinCall F → Type 0
  Allowed size j (drop_pin a) = a < size
  Allowed size j (set_pin t a f) = (a < size) × HasList j t
  Allowed size j (copy_pin dst src f) = (dst < size) × (src < size)
  Allowed size j (add_pin t a f) = (a < size) × HasList j t
  Allowed size j (update_pin t a f) = (a < size) × HasList j t
  Allowed size j (put_list t) = HasList j t × (pinned size (marks j) t < count_at j (t % 128))
  Allowed size j open_list = fifo_length j.seqs.pin_fifo < 127
  Allowed size j update_seq = Unit {0}

  abbrev pub new_journal : (ℕ → JournalEntryPin F) → Journal F
  new_journal pins = record {
    seqs = record { pin_fifo = new_fifo; last_seq_ondisk = 0 };
    pins = pins;
    flush_in_progress = 0;
    flush_in_progress_dropped = false;
  }

  -- The journals after `n` allowed calls on a new one, none of whose pins is active.
  pub data Runs (size : ℕ) : ℕ → Journal F → Type 0 where
    start :
        (pins : ℕ → JournalEntryPin F)
        → ((a : ℕ) → (pins a).seq ≡ 0)
        → Runs size 0 (new_journal pins)
    calls :
        {n : ℕ} {j : Journal F} (c : PinCall F) (j' : Journal F)
        → Runs size n j
        → Allowed size j c
        → pin_call c j ≡ some j'
        → Runs size (suc n) j'
