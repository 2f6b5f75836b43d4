-- ===== src/Journal/Pins/Lists.antt =====
-- journal/reclaim.rs: the pin lists of the ring, oldest first, under a change of each of them.
use volmount.Common.{
  ℕ, zero, suc, ◌+◌, ◌%◌, ◌<◌, ◌≤◌, ◌≡◌, ◌==◌, refl, arith, Bool-cases, inl, inr, ◌⊎◌, ◌++◌, Option,
  some, List, [], ◌∷◌, length, map, get_elem?, drop, ap,
}
use volmount.Journal.PinFifo.{
  PinListFifo, step, SeqState, fifo_length, push_back, is_full, is_empty, drain_front,
  drainable_front_count_zero, bch2_journal_maybe_update_last_seq,
}
use volmount.Journal.PinFifo.Ring.{slots}
use volmount.Journal.PinFifo.Queue.{Holds}
use volmount.Journal.PinFifo.Reclaim.{released}
use volmount.Journal.Pins.{on_some, each_list}

module _ {A : Type 0} where
  -- The lists from the index `h` on, each changed by what its index says.
  unfoldable pub each_of : (ℕ → A → A) → ℕ → List A → List A
  each_of g h [] = []
  each_of g h (x ∷ q) = g h x ∷ each_of g (step h) q

  pub length-each_of : (g : ℕ → A → A) (h : ℕ) (q : List A) → length (each_of g h q) ≡ length q
  unfolding each_of
  length-each_of g h [] = refl
  length-each_of g h (x ∷ q) = omega (arith, length-each_of g (step h) q)

  slots-each :
      (e : ℕ → Option A) (g : ℕ → A → A) (h : ℕ) (q : List A)
      → slots e (length q) h ≡ map some q
      → slots (λ i. on_some (g i) (e i)) (length q) h ≡ map some (each_of g h q)
  unfolding slots each_of
  slots-each e g h [] filled = refl
  slots-each e g h (x ∷ q) filled =
      let first : e h ≡ some x = cc in
      let rest : slots e (length q) (step h) ≡ map some q = cc in
      rw (first, slots-each e g (step h) q rest) refl

  pub each_list-Holds :
      (g : ℕ → A → A) (s : SeqState A) (q : List A)
      → Holds s.pin_fifo q
      → Holds (each_list g s).pin_fifo (each_of g s.pin_fifo.head q)
  unfolding fifo_length
  each_list-Holds g s q h = record {
    head_fits = h.head_fits;
    tail_fits = h.tail_fits;
    counted = rw (length-each_of g s.pin_fifo.head q) h.counted;
    filled =
        rw (length-each_of g s.pin_fifo.head q)
          (slots-each s.pin_fifo.entries g s.pin_fifo.head q h.filled);
  }

  pub get-each_of :
      (g : ℕ → A → A) (h d : ℕ) (q : List A)
      → h < 128
      → get_elem? (each_of g h q) d ≡ on_some (g ((h + d) % 128)) (get_elem? q d)
  unfolding each_of
  get-each_of g h d [] fits = refl
  get-each_of g h zero (x ∷ q) fits = let i : (h + 0) % 128 ≡ h = omega arith in rw i refl
  get-each_of g h (suc d) (x ∷ q) fits =
      let i : (h + suc d) % 128 ≡ (step h + d) % 128 = omega arith in
      rw i (get-each_of g (step h) d q (omega arith))

  pub get-drop : (k d : ℕ) (q : List A) → get_elem? (drop k q) d ≡ get_elem? q (k + d)
  get-drop zero d q = ap (get_elem? q) (omega arith)
  get-drop (suc k) d [] = refl
  get-drop (suc k) d (x ∷ q) =
      let i : suc k + d ≡ suc (k + d) = omega arith in rw i (get-drop k d q)

  pub length-drop : (k : ℕ) (q : List A) → k ≤ length q → length (drop k q) + k ≡ length q
  length-drop zero q h = omega arith
  length-drop (suc k) [] h = absurd (omega arith)
  length-drop (suc k) (x ∷ q) h = omega (arith, length-drop k q (omega arith))

  pub get-some : (q : List A) (d : ℕ) → d < length q → (x : A) × (get_elem? q d ≡ some x)
  get-some [] d h = absurd (omega arith)
  get-some (x ∷ q) zero h = (x, refl)
  get-some (x ∷ q) (suc d) h = get-some q d (omega arith)

  pub get-below : (q : List A) (d : ℕ) (x : A) → get_elem? q d ≡ some x → d < length q
  get-below [] d x h = absurd (cc)
  get-below (y ∷ q) zero x h = omega arith
  get-below (y ∷ q) (suc d) x h = omega (arith, get-below q d x h)

  pub released_zero :
      (count : A → ℕ) (q : List A) (d : ℕ) (x : A)
      → d < released count q
      → get_elem? q d ≡ some x
      → count x ≡ 0
  unfolding released
  released_zero count [] d x h e = absurd (omega arith)
  released_zero count (y ∷ q) zero x h e = ground arith
  released_zero count (y ∷ q) (suc d) x h e = ground (arith, released_zero count q d x)

  pub get-snoc :
      (q : List A) (x : A) (d : ℕ) (y : A)
      → get_elem? (q ++ x ∷ []) d ≡ some y
      → (get_elem? q d ≡ some y) ⊎ ((d ≡ length q) × (y ≡ x))
  get-snoc [] x zero y at = inr (refl, cc)
  get-snoc [] x (suc d) y at = absurd (cc)
  get-snoc (z ∷ q) x zero y at = inl at
  get-snoc (z ∷ q) x (suc d) y at = elim (get-snoc q x d y at) [
    | inl old ↦ inl old
    | inr (last, new) ↦ inr (omega (arith, last), new)
  ]

  pub push_back-head : (x : A) (f : PinListFifo A) → (push_back x f).1.head ≡ f.head
  unfolding push_back
  push_back-head x f = elim (Bool-cases (is_full f)) [
    | inl full ↦ rw full refl
    | inr room ↦ rw room refl
  ]

  drain_front-tail : (ks : List ℕ) (f : PinListFifo A) → (drain_front ks f).tail ≡ f.tail
  unfolding drain_front
  drain_front-tail [] f = refl
  drain_front-tail (k ∷ ks) f = elim (Bool-cases (is_empty f)) [
    | inl bare ↦ rw (bare, drain_front) (drain_front-tail ks f)
    | inr some_list ↦ rw (some_list, drain_front) (drain_front-tail ks _)
  ]

  pub maybe_update_last_seq-tail :
      (count : A → ℕ) (s : SeqState A)
      → (bch2_journal_maybe_update_last_seq count s).pin_fifo.tail ≡ s.pin_fifo.tail
  unfolding bch2_journal_maybe_update_last_seq
  maybe_update_last_seq-tail count s =
      let ks = drainable_front_count_zero count s.pin_fifo in
      elim (Bool-cases (length ks == 0)) [
        | inl no_list ↦ rw no_list refl
        | inr some_list ↦ rw some_list (drain_front-tail ks s.pin_fifo)
      ]
