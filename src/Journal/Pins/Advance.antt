-- ===== src/Journal/Pins/Advance.antt =====
-- journal/reclaim.rs and journal/types.rs: the counts of the pins when `last_seq_ondisk` advances
-- over released lists, and when an entry's list is pushed.
use volmount.Common.{
  ℕ, suc, ◌+◌, ◌-◌, ◌^◌, ◌<◌, ◌≤◌, ◌≡◌, ◌≢◌, arith, inl, inr, compare-cases, List, [], ◌∷◌, ◌++◌,
  length, drop, sym, ◌∙◌, lt→ltb, length-snoc,
}
use volmount.Journal.PinFifo.{SeqState, push_back, bch2_journal_maybe_update_last_seq}
use volmount.Journal.PinFifo.Queue.{push_back-Holds, queue_push, fifo_length_ring}
use volmount.Journal.PinFifo.Reclaim.{released, released-le, maybe_update_last_seq-released}
use volmount.Journal.Pins.{JournalEntryPinList, list_count, new_pin_list}
use volmount.Journal.Pins.Marks.{pinned, pinned-none, weight-pinned}
use volmount.Journal.Pins.Lists.{
  get-drop, length-drop, get-some, get-snoc, push_back-head, maybe_update_last_seq-tail,
  released_zero,
}
use volmount.Journal.Pins.Held.{Counts}

module _ {size n e : ℕ} {s : SeqState JournalEntryPinList} {m : ℕ → ℕ}
    {q : List JournalEntryPinList} where
  -- A released list has no pin on it.
  not_released :
      (a : ℕ)
      → a < size
      → m a ≢ 0
      → Counts size n e s m q
      → s.last_seq_ondisk + released list_count q ≤ m a
  not_released a small active c =
      let k = released list_count q in
      let d = m a - s.last_seq_ondisk in
      let (low, high) = c.covered a small active in
      elim (compare-cases (m a) (s.last_seq_ondisk + k)) [
        | inl less ↦
            let (pl, here) = get-some q d (omega arith) in
            let place : s.last_seq_ondisk + d ≡ m a = omega arith in
            let no_pin = released_zero list_count q d pl (omega arith) here in
            let (le_count, _) = c.counted d pl here in
            absurd
              (ground (arith, weight-pinned size a m (m a) small, rw place at le_count, no_pin))
        | inr (inl same) ↦ omega (arith, same)
        | inr (inr more) ↦ omega arith
      ]

  pub advanced :
      e + 128 < 2 ^ 64
      → Counts size n e s m q
      → Counts size n e
          (bch2_journal_maybe_update_last_seq list_count s)
          m
          (drop (released list_count q) q)
  advanced fits c =
      let k = released list_count q in
      let le = released-le list_count q in
      let gone = length-drop k q le in
      let (holds, moved, _) =
        maybe_update_last_seq-released list_count s q c.holds (omega (arith, c.ends)) in
      record {
        holds = holds;
        aligned = omega (
          arith,
          moved,
          c.aligned,
          gone,
          maybe_update_last_seq-tail list_count s,
          holds.counted,
          c.holds.counted,
          fifo_length_ring s.pin_fifo c.holds.head_fits c.holds.tail_fits,
          fifo_length_ring (bch2_journal_maybe_update_last_seq list_count s).pin_fifo
              holds.head_fits holds.tail_fits,
        );
        covered = λ a small active. rw moved (
          omega (arith, not_released a small active c),
          omega (arith, c.covered a small active, gone, le),
        );
        counted = λ d pl at.
            let place : s.last_seq_ondisk + k + d ≡ s.last_seq_ondisk + (k + d) = omega arith in
            rw (moved, place) (c.counted (k + d) pl (sym (get-drop k d q) ∙ at));
        ends = rw moved (omega (arith, gone, c.ends));
      }

  pub opened :
      1 ≤ n
      → length q < 127
      → Counts size n e s m q
      → Counts size n
          (suc e)
          (record s { pin_fifo = (push_back (new_pin_list 1) s.pin_fifo).1 })
          m
          (q ++ new_pin_list 1 ∷ [])
  unfolding queue_push
  opened one room c =
      let (_, holds) = push_back-Holds s.pin_fifo q (new_pin_list 1) c.holds in
      let grown = length-snoc q (new_pin_list 1) in
      record {
        holds = rw (lt→ltb (length q) 127 room, queue_push) at holds;
        aligned = c.aligned ∙ sym (push_back-head (new_pin_list 1) s.pin_fifo);
        covered = λ a small active. omega (arith, c.covered a small active, grown);
        counted = λ d pl at. elim (get-snoc q (new_pin_list 1) d pl at) [
          | inl old ↦ c.counted d pl old
          | inr (newest, new) ↦
              let bare : pinned size m (s.last_seq_ondisk + d) ≡ 0 =
                pinned-none size m _
                  (λ a small active same. omega (arith, c.covered a small active, newest, same)) in
              rw (new, bare) (omega arith, one)
        ];
        ends = omega (arith, grown, c.ends);
      }
