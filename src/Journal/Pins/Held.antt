-- ===== src/Journal/Pins/Held.antt =====
-- journal/reclaim.rs: the pin lists count the pins that stand on them, over each change of a list
-- and of the pins' sequence numbers.
use volmount.Common.{
  ℕ, ◌+◌, ◌-◌, ◌%◌, ◌<◌, ◌≤◌, ◌≡◌, ◌≢◌, arith, inl, inr, some, Option-cases, List, length,
  get_elem?, ◌∙◌,
}
use volmount.Journal.PinFifo.{SeqState, entry_for_seq}
use volmount.Journal.PinFifo.Queue.{Holds, fifo_length_ring}
use volmount.Journal.PinFifo.Reclaim.{entry_for_seq-Holds}
use volmount.Journal.Pins.{JournalEntryPinList, each_list, on_some}
use volmount.Journal.Pins.Marks.{pinned}
use volmount.Journal.Pins.Lists.{
  each_of, length-each_of, each_list-Holds, get-each_of, get-some, get-below,
}

-- The ring holds the lists `q`, of which the oldest is that of `last_seq_ondisk`; every active pin
-- at an address below `size` stands on one of them, and each list counts at least the pins on it.
-- No count is above `n`, and no list is that of a sequence number from `e` on.
pub record Counts (size n e : ℕ) (s : SeqState JournalEntryPinList) (m : ℕ → ℕ)
    (q : List JournalEntryPinList) : Type 0 where
  pub holds : Holds s.pin_fifo q
  pub aligned : s.last_seq_ondisk % 128 ≡ s.pin_fifo.head
  pub covered :
      (a : ℕ)
      → a < size
      → m a ≢ 0
      → (s.last_seq_ondisk ≤ m a) × (m a < s.last_seq_ondisk + length q)
  pub counted :
      (d : ℕ) (pl : JournalEntryPinList)
      → get_elem? q d ≡ some pl
      → (pinned size m (s.last_seq_ondisk + d) ≤ pl.count) × (pl.count ≤ n)
  pub ends : s.last_seq_ondisk + length q ≤ e

module _ {size n e : ℕ} {s : SeqState JournalEntryPinList} {m : ℕ → ℕ}
    {q : List JournalEntryPinList} where
  pub length-lt : Counts size n e s m q → length q < 128
  length-lt c =
      omega
        (arith, fifo_length_ring s.pin_fifo c.holds.head_fits c.holds.tail_fits, c.holds.counted)

  -- A change of each list and of the marks keeps the counts when it does so list by list.
  pub changed :
      (g : ℕ → JournalEntryPinList → JournalEntryPinList) (m' : ℕ → ℕ) (n' : ℕ)
      → Counts size n e s m q
      → ((a : ℕ)
          → a < size
          → m' a ≢ 0
          → (s.last_seq_ondisk ≤ m' a) × (m' a < s.last_seq_ondisk + length q))
      → ((d : ℕ) (pl : JournalEntryPinList)
          → d < length q
          → get_elem? q d ≡ some pl
          → (pinned size m' (s.last_seq_ondisk + d) ≤ (g ((s.last_seq_ondisk + d) % 128) pl).count)
            × ((g ((s.last_seq_ondisk + d) % 128) pl).count ≤ n'))
      → Counts size n' e (each_list g s) m' (each_of g s.pin_fifo.head q)
  changed g m' n' c cover count = record {
    holds = each_list-Holds g s q c.holds;
    aligned = c.aligned;
    covered = rw (length-each_of g s.pin_fifo.head q) cover;
    counted = λ d pl at. elim (Option-cases (get_elem? q d)) [
      | inl absent ↦ absurd (cc (at, rw absent at (changed_at d)))
      | inr (x, found) ↦
          let same : pl ≡ g ((s.last_seq_ondisk + d) % 128) x =
            cc (at, rw (found, place d) at (changed_at d)) in
          rw same (count d x (get-below q d x found) found)
    ];
    ends = rw (length-each_of g s.pin_fifo.head q) c.ends;
  }
    where
      place : (d : ℕ) → (s.pin_fifo.head + d) % 128 ≡ (s.last_seq_ondisk + d) % 128
      place d = omega (arith, c.aligned)

      changed_at :
          (d : ℕ)
          → get_elem? (each_of g s.pin_fifo.head q) d
            ≡ on_some (g ((s.pin_fifo.head + d) % 128)) (get_elem? q d)
      changed_at d = get-each_of g s.pin_fifo.head d q c.holds.head_fits

module _ {size n e : ℕ} {s : SeqState JournalEntryPinList} {m : ℕ → ℕ}
    {q : List JournalEntryPinList} where
  -- The pin list of an active pin's sequence number is found, and counts the pin.
  pub found_list :
      (t : ℕ)
      → Counts size n e s m q
      → s.last_seq_ondisk ≤ t
      → t < s.last_seq_ondisk + length q
      → (pl : JournalEntryPinList) × ((entry_for_seq t s.pin_fifo ≡ some pl)
          × ((get_elem? q (t - s.last_seq_ondisk) ≡ some pl)
              × ((pinned size m t ≤ pl.count) × (pl.count ≤ n))))
  found_list t c low high =
      let d = t - s.last_seq_ondisk in
      let at_t : s.last_seq_ondisk + d ≡ t = omega arith in
      let (pl, here) = get-some q d (omega arith) in
      (
        pl,
        (
          rw at_t at
                (entry_for_seq-Holds s.pin_fifo q s.last_seq_ondisk d c.holds c.aligned
                  (omega (arith, length-lt c))).0
              ∙ here,
          (here, rw at_t at (c.counted d pl here)),
        ),
      )
