-- ===== src/Journal/Pins/Seqs.antt =====
-- journal/reclaim.rs: the sequence numbers of the pins after a call.
use volmount.Common.{
  ℕ, suc, ◌+◌, ◌^◌, ◌<◌, ◌≡◌, ◌==◌, if◌then◌else◌, refl, arith, Bool, true, false, Bool-cases, inl,
  inr, Option, none, some, Option-cases, not, ◌||◌, ltb, min, max, ap, sym, ◌∙◌, compare-cases,
  ==_same,
}
use volmount.Journal.Pins.{
  Journal, update_last_seq, bch2_journal_pin_set, bch2_journal_pin_add, journal_pin_set_locked,
  bch2_journal_pin_update, journal_pin_drop_locked, journal_seq_pin, maybe_seq_pin, reclaimed,
}
use volmount.Journal.Pins.Marks.{set_mark}
use volmount.Journal.Pins.Calls.{marks}
use volmount.Journal.Pins.Runs.{add_pin, update_pin, set_pin, Runs, HasList}
use volmount.Journal.Pins.Safe.{pin_calls-answer}

mark_own : (a b : ℕ) (m : ℕ → ℕ) → set_mark a (m a) m b ≡ m b
mark_own a b m = elim (compare-cases b a) [
  | inl less ↦ ground arith
  | inr (inl same) ↦ rw (same, ==_same a) refl
  | inr (inr more) ↦ ground arith
]

module _ {F : Type 0} (j : Journal F) where
  reclaimed-marks : (b : Bool) (a : ℕ) → marks (reclaimed b j) a ≡ marks j a
  unfolding update_last_seq
  reclaimed-marks true a = refl
  reclaimed-marks false a = refl

  drop_locked-marks :
      (l : Option ℕ) (a b : ℕ) → marks (journal_pin_drop_locked l a j).1 b ≡ marks j b
  unfolding journal_pin_drop_locked
  drop_locked-marks none a b = refl
  drop_locked-marks (some i) a b = elim (Bool-cases ((j.pins a).seq == 0)) [
    | inl idle ↦ rw (idle) refl
    | inr busy ↦ rw (busy) refl
  ]

  set_locked-marks :
      (l : Option ℕ) (i a t : ℕ) (f : Option F) (b : ℕ)
      → marks (journal_pin_set_locked l i a t f j).1 b ≡ set_mark a t (marks j) b
  unfolding journal_pin_set_locked
  set_locked-marks l i a t f b = elim (Bool-cases ((j.pins a).seq == 0)) [
    | inl idle ↦ rw idle (ground arith)
    | inr busy ↦ rw busy (ground (arith, drop_locked-marks l a b))
  ]

module _ {F : Type 0} (j j' : Journal F) where
  set-marks :
      (a t : ℕ) (f : Option F) (b : ℕ)
      → bch2_journal_pin_set t a f j ≡ some j'
      → marks j' b ≡ set_mark a t (marks j) b
  unfolding bch2_journal_pin_set
  set-marks a t f b h = elim (Option-cases (journal_seq_pin j t)) [
    | inl absent ↦ absurd (cc (rw (absent, bch2_journal_pin_set) at h))
    | inr (i, at) ↦
        let (reclaim, locked) = journal_pin_set_locked (maybe_seq_pin j (j.pins a).seq) i a t f j in
        let same : reclaimed reclaim locked ≡ j' = cc (rw (at, bch2_journal_pin_set) at h) in
        ap (λ k. marks k b) (sym same)
        ∙ reclaimed-marks locked reclaim b
        ∙ set_locked-marks j (maybe_seq_pin j (j.pins a).seq) i a t f b
  ]

  stays-marks :
      (a v b : ℕ) → v ≡ marks j a → some j ≡ some j' → marks j' b ≡ set_mark a v (marks j) b
  stays-marks a v b own h =
      let same : j ≡ j' = cc (h) in
      ap (λ k. marks k b) (sym same)
      ∙ sym (ap (λ u. set_mark a u (marks j) b) own ∙ mark_own a b (marks j))

  add-marks :
      (a t : ℕ) (f : Option F) (b : ℕ)
      → bch2_journal_pin_add t a f j ≡ some j'
      → marks j' b ≡ set_mark a (if marks j a == 0 then t else min (marks j a) t) (marks j) b
  unfolding bch2_journal_pin_add
  add-marks a t f b h =
      elim (Bool-cases (not (not ((j.pins a).seq == 0)) || ltb t (j.pins a).seq)) [
        | inl moves ↦
            let v : t ≡ (if marks j a == 0 then t else min (marks j a) t) = ground arith in
            set-marks a t f b (rw (moves, bch2_journal_pin_add) at h)
            ∙ ap (λ u. set_mark a u (marks j) b) v
        | inr stays ↦ stays-marks a _ b (ground arith) (rw (stays, bch2_journal_pin_add) at h)
      ]

  update-marks :
      (a t : ℕ) (f : Option F) (b : ℕ)
      → bch2_journal_pin_update t a f j ≡ some j'
      → marks j' b ≡ set_mark a (max (marks j a) t) (marks j) b
  unfolding bch2_journal_pin_update
  update-marks a t f b h =
      elim (Bool-cases (not (not ((j.pins a).seq == 0)) || ltb (j.pins a).seq t)) [
        | inl moves ↦
            let v : t ≡ max (marks j a) t = ground arith in
            set-marks a t f b (rw (moves, bch2_journal_pin_update) at h)
            ∙ ap (λ u. set_mark a u (marks j) b) v
        | inr stays ↦ stays-marks a _ b (ground arith) (rw (stays, bch2_journal_pin_update) at h)
      ]

module _ {F : Type 0} {size n : ℕ} (j : Journal F) where
  -- In those journals `bch2_journal_pin_add` leaves the pin at the smaller of its sequence number
  -- and the given one, or at the given one when it was not active, `bch2_journal_pin_update` leaves
  -- it at the larger, `bch2_journal_pin_set` at the given one, and each of them leaves every other
  -- pin's number as it was. The journals are those of fewer than 2 ^ 32 - 129 calls by the rules.
  pub pin_calls-seqs :
      Runs size n j
      → suc n + 128 < 2 ^ 32
      → (a t : ℕ) (f : Option F) → a < size
      → HasList j t
      → ((j' : Journal F) × (bch2_journal_pin_set t a f j ≡ some j')
          × ((b : ℕ) → marks j' b ≡ set_mark a t (marks j) b))
        × (((j' : Journal F) × (bch2_journal_pin_add t a f j ≡ some j')
              × ((b : ℕ)
                  → marks j' b
                    ≡ set_mark a (if marks j a == 0 then t else min (marks j a) t) (marks j) b))
            × ((j' : Journal F) × (bch2_journal_pin_update t a f j ≡ some j')
                × ((b : ℕ) → marks j' b ≡ set_mark a (max (marks j a) t) (marks j) b)))
  pin_calls-seqs run fits a t f small has =
      let (set_j, set_at) = pin_calls-answer j run fits (set_pin t a f) (small, has) in
      let (add_j, add_at) = pin_calls-answer j run fits (add_pin t a f) (small, has) in
      let (update_j, update_at) = pin_calls-answer j run fits (update_pin t a f) (small, has) in
      (
        (set_j, set_at, λ b. set-marks j set_j a t f b set_at),
        (
          (add_j, add_at, λ b. add-marks j add_j a t f b add_at),
          (update_j, update_at, λ b. update-marks j update_j a t f b update_at),
        ),
      )
