-- ===== src/Journal/Pins/Calls.antt =====
-- journal/reclaim.rs: each call of the pin interface keeps the counts of the pin lists.
use mathlib.Core.Path.{subst}
use volmount.Common.{
  ℕ, suc, ◌+◌, ◌%◌, ◌^◌, ◌<◌, ◌≤◌, ◌≡◌, ◌≢◌, ◌==◌, if◌then◌else◌, refl, arith, Bool, true, false,
  Bool-cases, inl, inr, Option, some, List, length,
}
use volmount.Journal.PinFifo.{SeqState}
use volmount.Journal.Pins.{
  JournalEntryPinList, Journal, journal_seq_pin, maybe_seq_pin, update_last_seq,
  journal_pin_drop_locked, reclaimed, bch2_journal_pin_drop, journal_pin_set_locked,
  bch2_journal_pin_set, bch2_journal_pin_copy, dec_count, unlink_pin, pin_list_index,
}
use volmount.Journal.Pins.Held.{Counts, found_list}
use volmount.Journal.Pins.Moves.{dropped, taken}
use volmount.Journal.Pins.Lists.{length-each_of}
use volmount.Journal.Pins.Advance.{advanced}

abbrev pub marks : {F : Type 0} → Journal F → ℕ → ℕ
marks j a = (j.pins a).seq

pub record IsCounted {F : Type 0} (size n e : ℕ) (j : Journal F) : Type 0 where
  pub lists : List JournalEntryPinList
  pub counts : Counts size n e j.seqs (marks j) lists

same_marks :
    {size n e : ℕ} {s : SeqState JournalEntryPinList} {m m' : ℕ → ℕ} {q : List JournalEntryPinList}
    → ((b : ℕ) → m b ≡ m' b)
    → Counts size n e s m q
    → Counts size n e s m' q
same_marks {size} {n} {e} {s} {m} {m'} {q} h c = subst (λ f. Counts size n e s f q) (λ i b. h b i) c

pub more :
    {size n e n' e' : ℕ} {s : SeqState JournalEntryPinList} {m : ℕ → ℕ}
    {q : List JournalEntryPinList}
    → n ≤ n'
    → e ≤ e'
    → Counts size n e s m q
    → Counts size n' e' s m q
more le le' c = record {
  holds = c.holds;
  aligned = c.aligned;
  covered = c.covered;
  counted = λ d pl at. omega (arith, c.counted d pl at);
  ends = omega (arith, c.ends);
}

module _ {F : Type 0} {size n e : ℕ} (j : Journal F) where
  pub list_index :
      {q : List JournalEntryPinList} (t : ℕ)
      → Counts size n e j.seqs (marks j) q
      → j.seqs.last_seq_ondisk ≤ t
      → t < j.seqs.last_seq_ondisk + length q
      → pin_list_index j t ≡ some (t % 128)
  list_index t c low high =
      let (pl, (found, _)) = found_list t c low high in rw (found, pin_list_index) refl

  reclaimed-IsCounted :
      (b : Bool) → e + 128 < 2 ^ 64 → IsCounted size n e j → IsCounted size n e (reclaimed b j)
  unfolding update_last_seq
  reclaimed-IsCounted true fits k = record { lists = _; counts = advanced fits k.counts }
  reclaimed-IsCounted false fits k = k

module _ {F : Type 0} {size n e : ℕ} (j : Journal F) where
  set_locked-IsCounted :
      {q : List JournalEntryPinList} (a t : ℕ) (f : Option F)
      → a < size
      → suc n < 2 ^ 32
      → j.seqs.last_seq_ondisk ≤ t
      → t < j.seqs.last_seq_ondisk + length q
      → Counts size n e j.seqs (marks j) q
      → IsCounted size
          (suc n)
          e
          (journal_pin_set_locked (maybe_seq_pin j (j.pins a).seq) (t % 128) a t f j).1
  unfolding journal_pin_set_locked maybe_seq_pin journal_pin_drop_locked
  set_locked-IsCounted {q} a t f small fits low high c = elim (Bool-cases ((j.pins a).seq == 0)) [
    | inl idle ↦ rw idle (record {
      lists = _;
      counts =
          same_marks (λ b. ground arith)
            (taken a t (j.pins a).pin_type small fits (ground arith) low high c);
    })
    | inr busy ↦
        let active : (j.pins a).seq ≢ 0 = ground arith in
        let (own_low, own_high) = c.covered a small active in
        rw (busy, list_index j (j.pins a).seq c own_low own_high, journal_pin_drop_locked, busy)
          (record {
            lists = _;
            counts =
                same_marks (λ b. ground arith)
                  (taken a t (j.pins a).pin_type small fits (ground arith) low
                    (omega (
                      arith,
                      high,
                      length-each_of
                          (λ k pl.
                            if k == marks j a % 128
                            then dec_count (unlink_pin a pl)
                            else unlink_pin a pl)
                          j.seqs.pin_fifo.head q,
                    ))
                    (dropped a small (omega arith) active c));
          })
  ]

  pub drop-IsCounted :
      {q : List JournalEntryPinList} (a : ℕ)
      → a < size
      → n < 2 ^ 32
      → e + 128 < 2 ^ 64
      → Counts size n e j.seqs (marks j) q
      → (j' : Journal F) × (bch2_journal_pin_drop a j ≡ some j') × IsCounted size n e j'
  unfolding bch2_journal_pin_drop journal_seq_pin journal_pin_drop_locked
  drop-IsCounted {q} a small fits ends c = elim (Bool-cases ((j.pins a).seq == 0)) [
    | inl idle ↦ rw idle (j, refl, record { lists = q; counts = c })
    | inr busy ↦
        let active : (j.pins a).seq ≢ 0 = ground arith in
        let (low, high) = c.covered a small active in
        rw (busy, list_index j (j.pins a).seq c low high, journal_pin_drop_locked, busy)
          (
            _,
            refl,
            reclaimed-IsCounted _ _ ends (record {
              lists = _;
              counts = same_marks (λ b. ground arith) (dropped a small fits active c);
            }),
          )
  ]

  pub set-IsCounted :
      {q : List JournalEntryPinList} (a t : ℕ) (f : Option F)
      → a < size
      → suc n < 2 ^ 32
      → e + 128 < 2 ^ 64
      → j.seqs.last_seq_ondisk ≤ t
      → t < j.seqs.last_seq_ondisk + length q
      → Counts size n e j.seqs (marks j) q
      → (j' : Journal F) × (bch2_journal_pin_set t a f j ≡ some j') × IsCounted size (suc n) e j'
  unfolding bch2_journal_pin_set journal_seq_pin
  set-IsCounted a t f small fits ends low high c =
      rw (list_index j t c low high, bch2_journal_pin_set)
        (_, refl, reclaimed-IsCounted _ _ ends (set_locked-IsCounted a t f small fits low high c))

  pub copy-IsCounted :
      {q : List JournalEntryPinList} (dst src : ℕ) (f : Option F)
      → dst < size
      → src < size
      → suc n < 2 ^ 32
      → e + 128 < 2 ^ 64
      → Counts size n e j.seqs (marks j) q
      → (j' : Journal F) × (bch2_journal_pin_copy dst src f j ≡ some j')
        × IsCounted size (suc n) e j'
  unfolding bch2_journal_pin_copy journal_seq_pin
  copy-IsCounted {q} dst src f dst_small src_small fits ends c =
      elim (Bool-cases ((j.pins src).seq == 0)) [
        | inl idle ↦
            rw idle (j, refl, record { lists = q; counts = more (omega arith) (omega arith) c })
        | inr busy ↦
            let active : (j.pins src).seq ≢ 0 = ground arith in
            let (low, high) = c.covered src src_small active in
            rw (busy, list_index j (j.pins src).seq c low high)
              (
                _,
                refl,
                reclaimed-IsCounted _ _ ends
                    (set_locked-IsCounted dst (j.pins src).seq f dst_small fits low high c),
              )
      ]
