-- ===== src/Journal/Pins/Safe.antt =====
-- journal/reclaim.rs: no run of the pin interface reclaims an entry that a pin needs.
use volmount.Common.{ℕ, suc, ◌+◌, ◌%◌, ◌^◌, ◌<◌, ◌≤◌, ◌≡◌, ◌≢◌, arith, some}
use volmount.Journal.Pins.{Journal, count_at}
use volmount.Journal.Pins.Marks.{pinned, weight-pinned}
use volmount.Journal.Pins.Held.{found_list}
use volmount.Journal.Pins.Calls.{marks}
use volmount.Journal.Pins.Runs.{PinCall, pin_call, HasList, Allowed, Runs}
use volmount.Journal.Pins.Steps.{runs-IsCounted, call-IsCounted, found_entry}

module _ {F : Type 0} {size n : ℕ} (j : Journal F) where
  -- In the journals that fewer than 2 ^ 32 - 128 calls make, each by its rules, of a new journal
  -- without active pins, the sequence number of every active pin still has its list in the ring,
  -- so `last_seq_ondisk` has not passed it, and the list counts at least the pins that stand on it,
  -- of which there is one.
  pub runs_keep_pins :
      Runs size n j
      → n + 128 < 2 ^ 32
      → (a : ℕ) → a < size
      → (j.pins a).seq ≢ 0
      → HasList j (j.pins a).seq
        × ((pinned size (marks j) (j.pins a).seq ≤ count_at j ((j.pins a).seq % 128))
            × (1 ≤ pinned size (marks j) (j.pins a).seq))
  runs_keep_pins run fits a small active =
      let k = runs-IsCounted run fits in
      let c = k.counts in
      let t = (j.pins a).seq in
      let (low, high) = c.covered a small active in
      let (pl, (found, (here, (le_count, _)))) = found_list t c low high in
      let at_index = found_entry t j.seqs.pin_fifo pl found in
      (
        (low, rw c.holds.counted at high),
        (rw (at_index, count_at) le_count, ground (arith, weight-pinned size a (marks j) t small)),
      )

  -- In those journals a call made by its rules answers: it never panics for a list that is missing.
  pub pin_calls-answer :
      Runs size n j
      → suc n + 128 < 2 ^ 32
      → (c : PinCall F) → Allowed size j c
      → (j' : Journal F) × (pin_call c j ≡ some j')
  pin_calls-answer run fits c ok_call =
      let k = runs-IsCounted run (omega arith) in
      let (j', answer, _) = call-IsCounted j c fits ok_call k.counts in (j', answer)
