-- ===== src/Journal/Pins/Steps.antt =====
-- journal/reclaim.rs: each call of a run answers and keeps the counts of the pin lists.
use volmount.Common.{
  ℕ, suc, ◌+◌, ◌%◌, ◌^◌, ◌<◌, ◌≤◌, ◌≡◌, ◌==◌, refl, arith, Bool-cases, inl, inr, Option, some, List,
  [], length, sym, ltb, lt→ltb, not, ◌||◌,
}
use volmount.Journal.PinFifo.{PinListFifo, entry_for_seq, in_range, new_fifo}
use volmount.Journal.PinFifo.Queue.{push_back-Holds, queue_push, new_fifo-Holds}
use volmount.Journal.Pins.{
  JournalEntryPinList, JournalEntryPin, Journal, update_last_seq, bch2_journal_pin_add,
  bch2_journal_pin_update, bch2_journal_pin_put, push_entry_list, new_pin_list, count_at,
}
use volmount.Journal.Pins.Held.{Counts, found_list}
use volmount.Journal.Pins.Moves.{put_one}
use volmount.Journal.Pins.Advance.{advanced, opened}
use volmount.Journal.Pins.Calls.{
  marks, IsCounted, more, drop-IsCounted, set-IsCounted, copy-IsCounted,
}
use volmount.Journal.Pins.Runs.{
  PinCall, drop_pin, set_pin, copy_pin, add_pin, update_pin, put_list, open_list, update_seq,
  pin_call, Allowed, new_journal, Runs, start, calls,
}

pub found_entry :
    (t : ℕ) (f : PinListFifo JournalEntryPinList) (pl : JournalEntryPinList)
    → entry_for_seq t f ≡ some pl
    → f.entries (t % 128) ≡ some pl
unfolding entry_for_seq
found_entry t f pl h = elim (Bool-cases (in_range f (t % 128))) [
  | inl inside ↦ rw inside at h
  | inr outside ↦ absurd (cc (rw outside at h))
]

module _ {F : Type 0} {size n e : ℕ} (j : Journal F) where
  put-IsCounted :
      {q : List JournalEntryPinList} (t : ℕ)
      → n < 2 ^ 32
      → Allowed size j (put_list t)
      → Counts size n e j.seqs (marks j) q
      → IsCounted size n e (bch2_journal_pin_put t j).1
  unfolding bch2_journal_pin_put
  put-IsCounted t fits ((low, high), spare) c =
      let below = rw (sym c.holds.counted) at high in
      let (pl, (found, (here, _))) = found_list t c low below in
      let at_index = found_entry t j.seqs.pin_fifo pl found in
      let own_spare = rw (at_index, count_at) at spare in
      rw (found, bch2_journal_pin_put)
        (record {
          lists = _;
          counts =
              put_one t fits low below
                (λ other at. let same : other ≡ pl = cc (at, here) in rw same own_spare) c;
        })

  open-IsCounted :
      {q : List JournalEntryPinList}
      → 1 ≤ n
      → Allowed size j open_list
      → Counts size n e j.seqs (marks j) q
      → (j' : Journal F) × (push_entry_list j ≡ some j') × IsCounted size n (suc e) j'
  unfolding push_entry_list queue_push
  open-IsCounted {q} one room c =
      let short : length q < 127 = omega (arith, c.holds.counted) in
      let (answer, _) = push_back-Holds j.seqs.pin_fifo q (new_pin_list 1) c.holds in
      let accepted = rw (lt→ltb (length q) 127 short, queue_push) at answer in
      rw (accepted, push_entry_list) (_, refl, record { lists = _; counts = opened one short c })

  add-IsCounted :
      {q : List JournalEntryPinList} (a t : ℕ) (f : Option F)
      → suc n < 2 ^ 32
      → e + 128 < 2 ^ 64
      → Allowed size j (add_pin t a f)
      → Counts size n e j.seqs (marks j) q
      → (j' : Journal F) × (bch2_journal_pin_add t a f j ≡ some j') × IsCounted size (suc n) e j'
  unfolding bch2_journal_pin_add
  add-IsCounted {q} a t f fits ends (small, (low, high)) c =
      let below = rw (sym c.holds.counted) at high in
      elim (Bool-cases (not (not ((j.pins a).seq == 0)) || ltb t (j.pins a).seq)) [
        | inl moves ↦ rw moves (set-IsCounted j a t f small fits ends low below c)
        | inr stays ↦
            rw stays (j, refl, record { lists = q; counts = more (omega arith) (omega arith) c })
      ]

  update-IsCounted :
      {q : List JournalEntryPinList} (a t : ℕ) (f : Option F)
      → suc n < 2 ^ 32
      → e + 128 < 2 ^ 64
      → Allowed size j (update_pin t a f)
      → Counts size n e j.seqs (marks j) q
      → (j' : Journal F) × (bch2_journal_pin_update t a f j ≡ some j') × IsCounted size (suc n) e j'
  unfolding bch2_journal_pin_update
  update-IsCounted {q} a t f fits ends (small, (low, high)) c =
      let below = rw (sym c.holds.counted) at high in
      elim (Bool-cases (not (not ((j.pins a).seq == 0)) || ltb (j.pins a).seq t)) [
        | inl moves ↦ rw moves (set-IsCounted j a t f small fits ends low below c)
        | inr stays ↦
            rw stays (j, refl, record { lists = q; counts = more (omega arith) (omega arith) c })
      ]

module _ {F : Type 0} {size : ℕ} (j : Journal F) where
  weaker :
      {n e n' e' : ℕ} (o : Option (Journal F))
      → n ≤ n'
      → e ≤ e'
      → (j' : Journal F) × (o ≡ some j') × IsCounted size n e j'
      → (j' : Journal F) × (o ≡ some j') × IsCounted size n' e' j'
  weaker o le le' (j', eq, k) = (j', eq, record { lists = k.lists; counts = more le le' k.counts })

  pub call-IsCounted :
      {n : ℕ} {q : List JournalEntryPinList} (c : PinCall F)
      → suc n + 128 < 2 ^ 32
      → Allowed size j c
      → Counts size n n j.seqs (marks j) q
      → (j' : Journal F) × (pin_call c j ≡ some j') × IsCounted size (suc n) (suc n) j'
  unfolding update_last_seq
  call-IsCounted (drop_pin a) fits ok_call k =
      weaker _ (omega arith) (omega arith)
        (drop-IsCounted j a ok_call (omega arith) (omega arith) k)
  call-IsCounted (set_pin t a f) fits (small, (low, high)) k =
      weaker _ (omega arith) (omega arith) (
        set-IsCounted j a t f small (omega arith) (omega arith) low
          (rw (sym k.holds.counted) at high) k)
  call-IsCounted (copy_pin dst src f) fits (dst_small, src_small) k =
      weaker _ (omega arith) (omega arith)
        (copy-IsCounted j dst src f dst_small src_small (omega arith) (omega arith) k)
  call-IsCounted (add_pin t a f) fits ok_call k =
      weaker _ (omega arith) (omega arith)
        (add-IsCounted j a t f (omega arith) (omega arith) ok_call k)
  call-IsCounted (update_pin t a f) fits ok_call k =
      weaker _ (omega arith) (omega arith)
        (update-IsCounted j a t f (omega arith) (omega arith) ok_call k)
  call-IsCounted {n} (put_list t) fits ok_call k =
      weaker {n = n} {e = n} _ (omega arith) (omega arith)
        (_, refl, put-IsCounted j t (omega arith) ok_call k)
  call-IsCounted {n} open_list fits ok_call k =
      weaker {n = suc n} {e = suc n} _ (omega arith) (omega arith) (
        open-IsCounted {n = suc n} {e = n} j (omega arith) ok_call
          (more (omega arith) (omega arith) k))
  call-IsCounted {n} update_seq fits ok_call k =
      weaker {n = n} {e = n} _ (omega arith) (omega arith)
        (_, refl, record { lists = _; counts = advanced (omega arith) k })

module _ {F : Type 0} {size : ℕ} where
  new_journal-Counts :
      (pins : ℕ → JournalEntryPin F)
      → ((a : ℕ) → (pins a).seq ≡ 0)
      → Counts size 0 0 (new_journal pins).seqs (marks (new_journal pins)) []
  unfolding new_fifo
  new_journal-Counts pins idle = record {
    holds = new_fifo-Holds;
    aligned = omega arith;
    covered = λ a small active. absurd (active (idle a));
    counted = λ d pl at. absurd (cc (at));
    ends = omega arith;
  }

  pub runs-IsCounted :
      {n : ℕ} {j : Journal F} → Runs size n j → n + 128 < 2 ^ 32 → IsCounted size n n j
  runs-IsCounted (start pins idle) fits = record {
    lists = [];
    counts = new_journal-Counts pins idle;
  }
  runs-IsCounted (calls {n} {j} c j' before ok_call answer) fits =
      let k = runs-IsCounted before (omega arith) in
      let (j'', answer', k') = call-IsCounted j c fits ok_call k.counts in
      let same : j'' ≡ j' = cc (answer, answer') in rw same at k'
