-- ===== src/Journal/Pins/Flush.antt =====
-- journal/reclaim.rs: the flush of the pins up to a sequence number. The callback of a pin is run
-- by a function `run`, since its code belongs to the pin's owner.
use volmount.Common.{
  ℕ, zero, suc, ◌+◌, ◌-◌, if◌then◌else◌, false, Option, none, some, List, [], ◌∷◌, ◌++◌, Result, ok,
  err,
}
use volmount.Journal.PinFifo.{entry_for_seq}
use volmount.Journal.Pins.{
  JournalPinType, other, key_cache, btree0, btree1, btree2, btree3, type_index, JournalEntryPinList,
  Journal, at_list, each_list, unlink_pin, pin_list_index,
}

abbrev pub journal_pin_flush_order : List JournalPinType
journal_pin_flush_order = other ∷ key_cache ∷ btree0 ∷ btree1 ∷ btree2 ∷ btree3 ∷ []

abbrev pub first_of : List ℕ → Option ℕ
first_of [] = none
first_of (a ∷ _) = some a

abbrev pub link_flushed : ℕ → JournalEntryPinList → JournalEntryPinList
link_flushed a pl = record pl { flushed = pl.flushed ++ a ∷ [] }

module _ {F : Type 0} where
  -- The front pin of the first type whose front pin has a callback.
  unfoldable pub first_with_flush : Journal F → JournalEntryPinList → List JournalPinType → Option ℕ
  first_with_flush j pl [] = none
  first_with_flush j pl (ty ∷ tys) =
      let rest = first_with_flush j pl tys in
      elim (first_of (pl.unflushed (type_index ty))) [
        | none ↦ rest
        | some a ↦ elim (j.pins a).flush [ none ↦ rest | some _ ↦ some a ]
      ]

  -- The loop over the `n` sequence numbers from one on.
  unfoldable pub next_pin_from : ℕ → ℕ → Journal F → Option (ℕ × ℕ)
  next_pin_from zero seq j = none
  next_pin_from (suc n) seq j =
      let rest = next_pin_from n (suc seq) j in
      elim (entry_for_seq seq j.seqs.pin_fifo) [
        | none ↦ rest
        | some pl ↦
            if pl.unreplayed then none else elim (first_with_flush j pl journal_pin_flush_order) [
              | none ↦ rest
              | some a ↦ some (a, seq)
            ]
      ]

  unfoldable pub journal_get_next_pin : ℕ → Journal F → Option (ℕ × ℕ) × Journal F
  journal_get_next_pin to j =
      let found = next_pin_from (suc to - j.seqs.last_seq_ondisk) j.seqs.last_seq_ondisk j in
      elim found [
        | none ↦ (none, j)
        | some (a, seq) ↦
            (some (a, seq), record j { flush_in_progress = a; flush_in_progress_dropped = false })
      ]

  -- After the callback: a pin that was not dropped moves to the list of flushed pins.
  unfoldable pub flush_done : ℕ → ℕ → Journal F → Journal F
  flush_done a seq j = elim (pin_list_index j seq) [
    | none ↦ j
    | some i ↦
        let moved =
          at_list i (link_flushed a)
            (record j { seqs = each_list (λ k pl. unlink_pin a pl) j.seqs }) in
        record (if j.flush_in_progress_dropped then j else moved) {
          flush_in_progress = 0;
          flush_in_progress_dropped = false;
        }
  ]

module _ {F E : Type 0} (run : F → ℕ → ℕ → Journal F → Result (Unit {0}) E × Journal F) where
  abbrev pub run_flush : Option F → ℕ → ℕ → Journal F → Result (Unit {0}) E × Journal F
  run_flush none a seq j = (ok tt, j)
  run_flush (some f) a seq j = run f a seq j

  -- `none` when the fuel runs out.
  unfoldable pub journal_flush_pins : ℕ → ℕ → ℕ → Journal F → Option (Result ℕ E × Journal F)
  journal_flush_pins zero to nr j = none
  journal_flush_pins (suc fuel) to nr j =
      let (next, picked) = journal_get_next_pin to j in
      elim next [
        | none ↦ some (ok nr, picked)
        | some (a, seq) ↦
            let (answer, called) = run_flush (picked.pins a).flush a seq picked in
            let done = flush_done a seq called in
            elim answer [
              | err e ↦ some (err e, done)
              | ok _ ↦ journal_flush_pins fuel to (nr + 1) done
            ]
      ]
