-- ===== src/Journal/Tests.antt =====
-- journal/types.rs, journal/reclaim.rs: runs of the reservation word and of the ring of pin lists.
use volmount.Common.{
  ℕ, ◌+◌, ◌*◌, ◌^◌, ◌≤◌, ◌<◌, ◌≡◌, ◌≢◌, refl, arith, none, some, List, [], ◌∷◌, ltb, ◌==◌,
  if◌then◌else◌, All,
}
use volmount.Journal.PinFifo.{
  PinListFifo, new_fifo, push_back, SeqState, bch2_journal_maybe_update_last_seq,
}
use volmount.Journal.PinFifo.Queue.{
  Holds, new_fifo-Holds, push_back-Holds, queue_push, Call, push, pop, ring_calls, queue_calls,
  ring_calls-queue,
}
use volmount.Journal.PinFifo.Reclaim.{released, maybe_update_last_seq-released}
use volmount.Journal.ResState.{
  new_state, open_entry, try_reserve, buf_count, is_closed, idx, reserved,
}
use volmount.Journal.ResState.Fields.{Parts, pack, Fits, count, after_reserve, try_reserve-pack}
use volmount.Journal.ResState.Reservations.{
  get, open_next, Reach, start, next, held_in, AllApart, res_of,
}
use volmount.Journal.ResState.Reservations.Safety.{reservations_apart}

abbrev word0 : ℕ
word0 = open_entry 0 new_state

abbrev opened : Parts
opened = record { offset = 10; index = 1; count0 = 3; count1 = 1; count2 = 0; count3 = 0 }

opened-Fits : Fits opened
opened-Fits = ground arith

try_reserve-pack_example : try_reserve 20 (pack opened) ≡ (
    if ltb 4096 (10 + 20)
    then none
    else if count opened 1 == 1023
    then none
    else some (pack opened, pack (after_reserve opened 20)))
try_reserve-pack_example = try_reserve-pack opened 20 opened-Fits (omega arith)

-- Buffer 0 is opened, ten words are taken, then twenty.
abbrev taken : ℕ → ℕ → ℕ
taken offset held = offset + held * 2 ^ 24

two_reservations :
    Reach (record { word = taken 30 2; held = res_of 20 (taken 10 1) ∷ res_of 10 (taken 0 0) ∷ [] })
unfolding open_entry is_closed buf_count try_reserve idx reserved
two_reservations =
    next
      (next (next start (open_next 0 (omega arith) refl refl))
        (get 10 (taken 0 0) (taken 10 1) (omega arith) refl))
      (get 20 (taken 10 1) (taken 30 2) (omega arith) refl)

reservations_apart_example :
    ((i : ℕ)
      → i < 4
      → buf_count (taken 30 2) i ≡ held_in i (res_of 20 (taken 10 1) ∷ res_of 10 (taken 0 0) ∷ []))
    × All
        (λ r. (r.buf_idx < 4) × (r.offset + r.u64s * 8 ≤ 32768))
        (res_of 20 (taken 10 1) ∷ res_of 10 (taken 0 0) ∷ [])
    × AllApart (res_of 20 (taken 10 1) ∷ res_of 10 (taken 0 0) ∷ [])
reservations_apart_example = reservations_apart two_reservations

abbrev pushes_and_pops : List (Call ℕ)
pushes_and_pops = push 5 ∷ push 6 ∷ pop ∷ pop ∷ pop ∷ []

ring_calls-queue_example : ring_calls pushes_and_pops new_fifo ≡ queue_calls pushes_and_pops []
ring_calls-queue_example = ring_calls-queue pushes_and_pops

abbrev two_pins : PinListFifo ℕ
two_pins = (push_back 6 (push_back 0 new_fifo).1).1

two_pins-Holds : Holds two_pins (0 ∷ 6 ∷ [])
unfolding push_back queue_push
two_pins-Holds =
    (push_back-Holds (push_back 0 new_fifo).1 (0 ∷ []) 6
      (push_back-Holds new_fifo [] 0 new_fifo-Holds).1).1

abbrev seq_state : SeqState ℕ
seq_state = record { pin_fifo = two_pins; last_seq_ondisk = 3 }

maybe_update_last_seq-released_example :
    let s' = bch2_journal_maybe_update_last_seq (λ n. n) seq_state in
    Holds s'.pin_fifo (6 ∷ [])
    × (s'.last_seq_ondisk ≡ 4)
    × ((x : ℕ) (r : List ℕ) → 6 ∷ [] ≡ x ∷ r → x ≢ 0)
unfolding released
maybe_update_last_seq-released_example =
    maybe_update_last_seq-released (λ n. n) seq_state (0 ∷ 6 ∷ []) two_pins-Holds (omega arith)
