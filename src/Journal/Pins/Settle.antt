-- ===== src/Journal/Pins/Settle.antt =====
-- journal/reclaim.rs: the flush loop comes to an end.
use volmount.Common.{
  ℕ, zero, suc, ◌+◌, ◌≡◌, ◌==◌, if◌then◌else◌, false, Option, none, some, length, Result,
}
use volmount.Journal.Pins.{JournalEntryPinList, Journal, unlink_pin, on_some}
use volmount.Journal.Pins.Flush.{link_flushed}

unfoldable pub sum_below : ℕ → (ℕ → ℕ) → ℕ
sum_below zero w = 0
sum_below (suc n) w = w n + sum_below n w

-- The pins that are linked on a list's unflushed lists, and on those of the whole ring.
unfoldable pub unflushed_in : JournalEntryPinList → ℕ
unfolding sum_below
unflushed_in pl = sum_below 6 (λ t. length (pl.unflushed t))

abbrev pub list_weight : Option JournalEntryPinList → ℕ
list_weight none = 0
list_weight (some pl) = unflushed_in pl

unfoldable pub nr_unflushed : {F : Type 0} → Journal F → ℕ
nr_unflushed j = sum_below 128 (λ i. list_weight (j.seqs.pin_fifo.entries i))

abbrev moved_at : ℕ → ℕ → ℕ → Option JournalEntryPinList → Option JournalEntryPinList
moved_at a i k o =
    on_some (λ pl. if k == i then link_flushed a pl else pl) (on_some (unlink_pin a) o)

abbrev picked_pin : {F : Type 0} → ℕ → Journal F → Journal F
picked_pin a j = record j { flush_in_progress = a; flush_in_progress_dropped = false }

module _ {F E : Type 0} (run : F → ℕ → ℕ → Journal F → Result (Unit {0}) E × Journal F) where
  -- A callback that only asks for its pin's data to be written leaves the journal as it is.
  abbrev pub IsQuiet : Type 0
  IsQuiet = (f : F) (a t : ℕ) (j : Journal F) → (run f a t j).1 ≡ j
