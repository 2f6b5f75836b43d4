-- ===== src/Journal/Pins/Order.antt =====
-- journal/reclaim.rs: which pin is flushed next.
use volmount.Common.{
  ℕ, zero, suc, ◌+◌, ◌<◌, ◌≤◌, ◌≡◌, ◌≢◌, arith, false, Bool-cases, inl, inr, compare-cases, none,
  some, Option-cases, List, [], ◌∷◌,
}
use volmount.Journal.PinFifo.{entry_for_seq}
use volmount.Journal.Pins.{JournalEntryPinList, Journal, type_index, JournalPinType}
use volmount.Journal.Pins.Flush.{journal_pin_flush_order, first_of, first_with_flush, next_pin_from}

module _ {F : Type 0} (j : Journal F) where
  -- A pin list that a flush passes over: missing, or replayed and with no front pin that has a
  -- callback.
  abbrev pub IsPassed : ℕ → Type 0
  IsPassed t =
      (pl : JournalEntryPinList)
      → entry_for_seq t j.seqs.pin_fifo ≡ some pl
      → (pl.unreplayed ≡ false) × (first_with_flush j pl journal_pin_flush_order ≡ none)

  -- The pin `a` of the list of `t` is the first that can be flushed from `seq` on, of `n` lists.
  pub record IsNext (n seq a t : ℕ) : Type 0 where
    pub front :
        (pl : JournalEntryPinList) × (entry_for_seq t j.seqs.pin_fifo ≡ some pl)
        × (ty : JournalPinType) × (first_of (pl.unflushed (type_index ty)) ≡ some a)
    pub low : seq ≤ t
    high : t < seq + n
    pub callback : (j.pins a).flush ≢ none
    passed : (u : ℕ) → seq ≤ u → u < t → IsPassed u

  later : (n seq a t : ℕ) → IsPassed seq → IsNext n (suc seq) a t → IsNext (suc n) seq a t
  later n seq a t here next = record {
    front = next.front;
    low = omega (arith, next.low);
    high = omega (arith, next.high);
    callback = next.callback;
    passed = λ u low high. elim (compare-cases seq u) [
      | inl less ↦ next.passed u less high
      | inr (inl same) ↦ rw same at here
      | inr (inr more) ↦ absurd (omega arith)
    ];
  }

  first_with_flush-flush :
      (pl : JournalEntryPinList) (tys : List JournalPinType) (a : ℕ)
      → first_with_flush j pl tys ≡ some a
      → (j.pins a).flush ≢ none
  unfolding first_with_flush
  first_with_flush-flush pl [] a h = absurd (cc (h))
  first_with_flush-flush pl (ty ∷ tys) a h =
      elim (Option-cases (first_of (pl.unflushed (type_index ty)))) [
        | inl bare ↦ first_with_flush-flush pl tys a (rw (bare, first_with_flush) at h)
        | inr (b, front) ↦ elim (Option-cases (j.pins b).flush) [
          | inl idle ↦ first_with_flush-flush pl tys a (rw (front, first_with_flush, idle) at h)
          | inr (f, called) ↦
              let picked : b ≡ a = cc (rw (front, first_with_flush, called) at h) in
              λ gone. cc (called, picked, gone)
        ]
      ]

  first_with_flush-front :
      (pl : JournalEntryPinList) (tys : List JournalPinType) (a : ℕ)
      → first_with_flush j pl tys ≡ some a
      → (ty : JournalPinType) × (first_of (pl.unflushed (type_index ty)) ≡ some a)
  unfolding first_with_flush
  first_with_flush-front pl [] a h = absurd (cc (h))
  first_with_flush-front pl (ty ∷ tys) a h =
      elim (Option-cases (first_of (pl.unflushed (type_index ty)))) [
        | inl bare ↦ first_with_flush-front pl tys a (rw (bare, first_with_flush) at h)
        | inr (b, front) ↦ elim (Option-cases (j.pins b).flush) [
          | inl idle ↦ first_with_flush-front pl tys a (rw (front, first_with_flush, idle) at h)
          | inr (f, called) ↦
              let picked : b ≡ a = cc (rw (front, first_with_flush, called) at h) in
              (ty, cc (front, picked))
        ]
      ]

  pub next_pin_from-IsNext :
      (n seq a t : ℕ) → next_pin_from n seq j ≡ some (a, t) → IsNext n seq a t
  unfolding next_pin_from first_with_flush
  next_pin_from-IsNext zero seq a t h = absurd (cc (h))
  next_pin_from-IsNext (suc n) seq a t h = elim (Option-cases (entry_for_seq seq j.seqs.pin_fifo)) [
    | inl missing ↦
        later n seq a t (λ pl found. absurd (cc (missing, found)))
          (next_pin_from-IsNext n (suc seq) a t (rw (missing, next_pin_from) at h))
    | inr (pl, found) ↦ elim (Bool-cases pl.unreplayed) [
      | inl waits ↦ absurd (cc (rw (found, next_pin_from, waits) at h))
      | inr replayed ↦ elim (Option-cases (first_with_flush j pl journal_pin_flush_order)) [
        | inl bare ↦
            later n seq a t
              (λ other at. let same : other ≡ pl = cc (at, found) in rw same (replayed, bare))
              (next_pin_from-IsNext n (suc seq) a t
                (rw (found, next_pin_from, replayed, bare) at h))
        | inr (b, picked) ↦
            let here = rw (found, next_pin_from, replayed, picked) at h in
            let same_pin : b ≡ a = cc (here) in
            let same_seq : seq ≡ t = cc (here) in
            record {
              front = (
                pl,
                rw same_seq at found,
                (first_with_flush-front pl journal_pin_flush_order b picked).0,
                rw same_pin at (first_with_flush-front pl journal_pin_flush_order b picked).1,
              );
              low = omega (arith, same_seq);
              high = omega (arith, same_seq);
              callback =
                  rw same_pin at (first_with_flush-flush pl journal_pin_flush_order b picked);
              passed = λ u low high. absurd (omega (arith, same_seq));
            }
      ]
    ]
  ]
