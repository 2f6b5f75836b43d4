-- ===== src/Journal/Pins/Tests.antt =====
-- Runs of the pin interface.
use volmount.Common.{
  ℕ, ◌%◌, ◌≤◌, ◌≡◌, ◌==◌, refl, arith, none, some, if◌then◌else◌, min, max, Result, ok,
}
use volmount.Journal.PinFifo.{
  entry_for_seq, in_range, is_empty, is_full, push_back, new_fifo, fifo_length,
}
use volmount.Journal.Pins.{
  JournalEntryPin, Journal, btree0, push_entry_list, bch2_journal_pin_set, journal_pin_set_locked,
  journal_seq_pin, maybe_seq_pin, bch2_journal_pin_add, bch2_journal_pin_update, count_at,
}
use volmount.Journal.Pins.Marks.{pinned, set_mark}
use volmount.Journal.Pins.Calls.{marks}
use volmount.Journal.Pins.Runs.{
  PinCall, open_list, set_pin, drop_pin, pin_call, HasList, new_journal, Runs, start, calls,
}
use volmount.Journal.Pins.Safe.{runs_keep_pins, pin_calls-answer}
use volmount.Journal.Pins.Seqs.{pin_calls-seqs}

abbrev idle_pins : ℕ → JournalEntryPin ℕ
idle_pins a = record { seq = 0; pin_type = btree0; flush = none }

abbrev after : PinCall ℕ → Journal ℕ → Journal ℕ
after c j = elim (pin_call c j) [ some j' ↦ j' | none ↦ j ]

abbrev opened_once : Journal ℕ
opened_once = after open_list (new_journal idle_pins)

abbrev opened_twice : Journal ℕ
opened_twice = after open_list opened_once

-- A new journal numbers its first entry 1, and the list pushed for it is not the one found for 1.
first_entry_lost : journal_seq_pin opened_once 1 ≡ none
unfolding push_entry_list push_back is_full new_fifo fifo_length journal_seq_pin entry_for_seq
    in_range is_empty
first_entry_lost = refl

abbrev one_pinned : Journal ℕ
one_pinned = after (set_pin 1 3 (some 7)) opened_twice

one_pinned-Runs : Runs 5 3 one_pinned
unfolding push_entry_list push_back is_full new_fifo fifo_length bch2_journal_pin_set
    journal_pin_set_locked journal_seq_pin maybe_seq_pin entry_for_seq in_range is_empty
one_pinned-Runs =
    calls (set_pin 1 3 (some 7)) one_pinned
      (calls open_list opened_twice
        (calls open_list opened_once (start idle_pins (λ a. refl)) (omega arith) refl) (omega arith)
        refl)
      (omega arith, (omega arith, omega arith)) refl

one_pinned_seq : (one_pinned.pins 3).seq ≡ 1
unfolding push_entry_list push_back is_full new_fifo fifo_length bch2_journal_pin_set
    journal_pin_set_locked journal_seq_pin maybe_seq_pin entry_for_seq in_range is_empty
one_pinned_seq = refl

runs_keep_pins_example :
    HasList one_pinned (one_pinned.pins 3).seq
    × ((pinned 5 (marks one_pinned) (one_pinned.pins 3).seq
          ≤ count_at one_pinned ((one_pinned.pins 3).seq % 128))
        × (1 ≤ pinned 5 (marks one_pinned) (one_pinned.pins 3).seq))
runs_keep_pins_example =
    runs_keep_pins one_pinned one_pinned-Runs (omega arith) 3 (omega arith)
      (λ e. omega (arith, e, one_pinned_seq))

pin_calls-answer_example : (j' : Journal ℕ) × (pin_call (drop_pin 3) one_pinned ≡ some j')
pin_calls-answer_example =
    pin_calls-answer one_pinned one_pinned-Runs (omega arith) (drop_pin 3) (omega arith)

pin_calls-seqs_example :
    ((j' : Journal ℕ) × (bch2_journal_pin_set 1 3 none one_pinned ≡ some j')
      × ((b : ℕ) → marks j' b ≡ set_mark 3 1 (marks one_pinned) b))
    × (((j' : Journal ℕ) × (bch2_journal_pin_add 1 3 none one_pinned ≡ some j')
          × ((b : ℕ)
              → marks j' b
                ≡ set_mark 3
                    (if marks one_pinned 3 == 0 then 1 else min (marks one_pinned 3) 1)
                    (marks one_pinned)
                    b))
        × ((j' : Journal ℕ) × (bch2_journal_pin_update 1 3 none one_pinned ≡ some j')
            × ((b : ℕ)
                → marks j' b ≡ set_mark 3 (max (marks one_pinned 3) 1) (marks one_pinned) b)))
unfolding push_entry_list push_back is_full new_fifo fifo_length bch2_journal_pin_set
    journal_pin_set_locked journal_seq_pin maybe_seq_pin entry_for_seq in_range is_empty
pin_calls-seqs_example =
    pin_calls-seqs one_pinned one_pinned-Runs (omega arith) 3 1 none (omega arith)
      (omega arith, omega arith)

abbrev write_only : ℕ → ℕ → ℕ → Journal ℕ → Result (Unit {0}) ℕ × Journal ℕ
write_only f a t j = (ok tt, j)
