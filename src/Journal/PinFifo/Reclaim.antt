-- ===== src/Journal/PinFifo/Reclaim.antt =====
-- journal/reclaim.rs: the lookup of a sequence number's pin list, and the advance of
-- `last_seq_ondisk` over the released pin lists at the front.
use mathlib.Core.Path.{subst}
use volmount.Common.{
  ℕ, zero, suc, ◌+◌, ◌%◌, ◌^◌, ◌<◌, ◌≤◌, ◌≡◌, ◌≢◌, ◌==◌, if◌then◌else◌, refl, arith, Option, none,
  some, List, [], ◌∷◌, ap, length, map, get_elem?, ◌∙◌, sym, Bool-cases, inl, inr, ltb, ltb→lt,
  drop,
}
use volmount.Journal.PinFifo.{
  PinListFifo, step, in_range, entry_for_seq, drainable_from, drainable_front_count_zero,
  drain_front, SeqState, bch2_journal_maybe_update_last_seq, fifo_length,
}
use volmount.Journal.PinFifo.Ring.{slots}
use volmount.Journal.PinFifo.Queue.{
  Holds, fifo_length_ring, popped, popped-Holds, is_empty-nil, is_empty-cons,
}

module _ {A : Type 0} where
  slots-get :
      (e : ℕ → Option A) (q : List A) (h d : ℕ)
      → h < 128
      → slots e (length q) h ≡ map some q
      → d < length q
      → e ((h + d) % 128) ≡ get_elem? q d
  unfolding slots
  slots-get e [] h d hh filled hd = absurd (omega arith)
  slots-get e (x ∷ q) h zero hh filled hd =
      let i : (h + 0) % 128 ≡ h = omega arith in ap e i ∙ ground arith
  slots-get e (x ∷ q) h (suc d) hh filled hd =
      let i : (h + suc d) % 128 ≡ (step h + d) % 128 = omega arith in
      ap e i ∙ slots-get e q (step h) d (omega arith) (ground arith) (omega arith)

  get_elem?-none : (q : List A) (d : ℕ) → length q ≤ d → get_elem? q d ≡ none
  get_elem?-none [] d h = refl
  get_elem?-none (x ∷ q) zero h = absurd (omega arith)
  get_elem?-none (x ∷ q) (suc d) h = get_elem?-none q d (omega arith)

  in_range-eq :
      (f : PinListFifo A) (q : List A) (d : ℕ)
      → Holds f q
      → d < 128
      → in_range f ((f.head + d) % 128) ≡ ltb d (length q)
  unfolding in_range fifo_length
  in_range-eq f q d h hd = ground (arith, h.counted, h.head_fits, h.tail_fits)

  pub entry_for_seq-Holds :
      (f : PinListFifo A) (q : List A) (first d : ℕ)
      → Holds f q
      → first % 128 ≡ f.head
      → d < 128
      → (entry_for_seq (first + d) f ≡ get_elem? q d)
        × (entry_for_seq (first + d + 128) f ≡ entry_for_seq (first + d) f)
  unfolding entry_for_seq
  entry_for_seq-Holds f q first d h e hd =
      (found, ap (λ i. if in_range f i then f.entries i else none) again)
    where
      again : (first + d + 128) % 128 ≡ (first + d) % 128
      again = omega arith

      place : (first + d) % 128 ≡ (f.head + d) % 128
      place = omega (arith, e)

      found : entry_for_seq (first + d) f ≡ get_elem? q d
      found = elim (Bool-cases (ltb d (length q))) [
        | inl t ↦
            rw (place, in_range-eq f q d h hd, t, entry_for_seq)
              (slots-get f.entries q f.head d h.head_fits h.filled (ltb→lt d (length q) t))
        | inr t ↦
            rw (place, in_range-eq f q d h hd, t, entry_for_seq)
              (sym (get_elem?-none q d (ground arith)))
      ]

-- How many pin lists at the front have no pin left.
unfoldable pub released : {A : Type 0} → (A → ℕ) → List A → ℕ
released count [] = 0
released count (x ∷ q) = let n = released count q in if count x == 0 then suc n else 0

module _ {A : Type 0} (count : A → ℕ) where
  pub released-le : (q : List A) → released count q ≤ length q
  unfolding released
  released-le [] = omega arith
  released-le (x ∷ q) = ground (arith, released-le q)

  -- What stays at the front still has a pin.
  released_stop :
      (q : List A) (x : A) (r : List A) → drop (released count q) q ≡ x ∷ r → count x ≢ 0
  unfolding released
  released_stop [] x r e = absurd (cc)
  released_stop (y ∷ q) x r e = ground (arith, released_stop q x r)

  length-drainable_from :
      (f : PinListFifo A) (fuel i : ℕ) (q : List A)
      → i < 128
      → length q < 128
      → length q ≤ fuel
      → (i + length q) % 128 ≡ f.tail
      → slots f.entries (length q) i ≡ map some q
      → length (drainable_from count fuel f i) ≡ released count q
  unfolding drainable_from released slots
  length-drainable_from f zero i [] hi hq hf ht e = refl
  length-drainable_from f (suc fuel) i [] hi hq hf ht e = ground arith
  length-drainable_from f zero i (x ∷ q) hi hq hf ht e = absurd (omega arith)
  length-drainable_from f (suc fuel) i (x ∷ q) hi hq hf ht e =
      ground (arith, length-drainable_from f fuel (step i) q)

  drain_front-Holds :
      (ks : List ℕ) (f : PinListFifo A) (q : List A)
      → Holds f q
      → length ks ≤ length q
      → Holds (drain_front ks f) (drop (length ks) q)
  unfolding drain_front popped
  drain_front-Holds [] f q h le = h
  drain_front-Holds (k ∷ ks) f [] h le = absurd (omega arith)
  drain_front-Holds (k ∷ ks) f (x ∷ q) h le =
      rw (is_empty-cons f x q h)
        (drain_front-Holds ks (popped f) q (popped-Holds f x q h).1 (omega arith))

  length-drainable :
      (f : PinListFifo A) (q : List A)
      → Holds f q
      → length (drainable_front_count_zero count f) ≡ released count q
  unfolding drainable_front_count_zero released
  length-drainable f [] h = rw (is_empty-nil f h, drainable_front_count_zero)
  length-drainable f (x ∷ q) h = rw (is_empty-cons f x q h) (
      length-drainable_from f 128 f.head (x ∷ q) h.head_fits
        (omega (arith, h.counted, fifo_length_ring f h.head_fits h.tail_fits))
        (omega (arith, h.counted, fifo_length_ring f h.head_fits h.tail_fits))
        (rw h.counted (fifo_length_ring f h.head_fits h.tail_fits).1) h.filled)

  -- The advance drops exactly the pin lists at the front that have no pin left, moves
  -- `last_seq_ondisk` by their number, and stops at a pin list that still has one.
  pub maybe_update_last_seq-released :
      (s : SeqState A) (q : List A)
      → Holds s.pin_fifo q
      → s.last_seq_ondisk + 128 < 2 ^ 64
      → let s' = bch2_journal_maybe_update_last_seq count s in
        Holds s'.pin_fifo (drop (released count q) q)
        × (s'.last_seq_ondisk ≡ s.last_seq_ondisk + released count q)
        × ((x : A) (r : List A) → drop (released count q) q ≡ x ∷ r → count x ≢ 0)
  unfolding bch2_journal_maybe_update_last_seq
  maybe_update_last_seq-released s q h fits = elim (Bool-cases (length indices == 0)) [
    | inl none_free ↦
        let zero_free : released count q ≡ 0 = ground (arith, e) in
        rw (none_free, bch2_journal_maybe_update_last_seq, zero_free)
          (h, omega arith, rw zero_free at (released_stop q))
    | inr some_free ↦
        rw (some_free, bch2_journal_maybe_update_last_seq)
          (
            subst (λ n. Holds (drain_front indices s.pin_fifo) (drop n q)) e
                (drain_front-Holds indices s.pin_fifo q h (omega (arith, e, released-le q))),
            omega (
              arith,
              e,
              released-le q,
              h.counted,
              fifo_length_ring s.pin_fifo h.head_fits h.tail_fits,
            ),
            released_stop q,
          )
  ]
    where
      indices : List ℕ
      indices = drainable_front_count_zero count s.pin_fifo

      e : length indices ≡ released count q
      e = length-drainable s.pin_fifo q h
