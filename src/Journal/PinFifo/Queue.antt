-- ===== src/Journal/PinFifo/Queue.antt =====
-- journal/reclaim.rs: the ring of pin lists is a bounded queue.
use mathlib.Core.Path.{ap₂}
use mathlib.Core.List.{map-append}
use volmount.Common.{
  suc, ◌+◌, ◌%◌, ◌<◌, ◌≡◌, refl, arith, Option, none, some, List, [], ◌∷◌, ◌++◌, length, map,
  Result, ok, err, true, false, ◌∙◌, sym, length-snoc, not, ltb, Bool-cases, inl, inr, ltb→lt,
  if◌then◌else◌,
}
use volmount.Journal.PinFifo.{
  PinListFifo, step, write, new_fifo, fifo_length, is_empty, is_full, front, push_back, pop_front,
}
use volmount.Journal.PinFifo.Ring.{slots, slots-snoc, slots-write}

module _ {A : Type 0} where
  -- The ring holds the queue `q`, oldest first.
  pub record Holds (f : PinListFifo A) (q : List A) : Type 0 where
    pub head_fits : f.head < 128
    pub tail_fits : f.tail < 128
    pub counted : length q ≡ fifo_length f
    pub filled : slots f.entries (length q) f.head ≡ map some q

  pub new_fifo-Holds : Holds new_fifo []
  unfolding new_fifo fifo_length slots
  new_fifo-Holds = record {
    head_fits = omega arith;
    tail_fits = omega arith;
    counted = refl;
    filled = refl;
  }

  pub fifo_length_ring :
      (f : PinListFifo A)
      → f.head < 128
      → f.tail < 128
      → (fifo_length f < 128) × ((f.head + fifo_length f) % 128 ≡ f.tail)
  unfolding fifo_length
  fifo_length_ring f h t = (ground arith, ground arith)

  pushed : PinListFifo A → A → PinListFifo A
  pushed f x = record f { entries = write f.entries f.tail (some x); tail = step f.tail }

  pushed-filled :
      (f : PinListFifo A) (q : List A) (x : A)
      → Holds f q
      → length q < 127
      → slots (write f.entries f.tail (some x)) (suc (length q)) f.head ≡ map some (q ++ x ∷ [])
  pushed-filled f q x h small =
      slots-snoc (write f.entries f.tail (some x)) (length q) f.head h.head_fits
      ∙ ap₂ (λ u v. u ++ v ∷ [])
          (slots-write f.entries f.tail (some x) (length q) f.head h.head_fits h.tail_fits
              (λ k hk. omega (arith, fifo_length_ring f h.head_fits h.tail_fits, h.counted))
            ∙ h.filled)
          (ground (arith, fifo_length_ring f h.head_fits h.tail_fits, h.counted))
      ∙ sym (map-append some q (x ∷ []))

  pushed-Holds :
      (f : PinListFifo A) (q : List A) (x : A)
      → Holds f q
      → length q < 127
      → Holds (pushed f x) (q ++ x ∷ [])
  unfolding pushed fifo_length
  pushed-Holds f q x h small = record {
    head_fits = h.head_fits;
    tail_fits = omega arith;
    counted = ground (arith, length-snoc q x, h.counted, h.tail_fits, h.head_fits);
    filled = rw (length-snoc q x) (pushed-filled f q x h small);
  }

  -- The specification: a queue of at most 127 pin lists.
  unfoldable pub queue_push : A → List A → Result (Unit {0}) A × List A
  queue_push x q = if ltb (length q) 127 then (ok tt, q ++ x ∷ []) else (err x, q)

  unfoldable pub queue_pop : List A → Option A × List A
  queue_pop [] = (none, [])
  queue_pop (x ∷ q) = (some x, q)

  is_full-eq : (f : PinListFifo A) (q : List A) → Holds f q → is_full f ≡ not (ltb (length q) 127)
  unfolding is_full
  is_full-eq f q h = ground (arith, h.counted, fifo_length_ring f h.head_fits h.tail_fits)

  pub push_back-Holds :
      (f : PinListFifo A) (q : List A) (x : A)
      → Holds f q
      → ((push_back x f).0 ≡ (queue_push x q).0) × Holds (push_back x f).1 (queue_push x q).1
  unfolding push_back queue_push pushed
  push_back-Holds f q x h = elim (Bool-cases (ltb (length q) 127)) [
    | inl small ↦
        rw (is_full-eq f q h, small, push_back)
          (refl, pushed-Holds f q x h (ltb→lt (length q) 127 small))
    | inr big ↦ rw (is_full-eq f q h, big, push_back) (refl, h)
  ]

  unfoldable pub popped : PinListFifo A → PinListFifo A
  popped f = record f { entries = write f.entries f.head none; head = step f.head }

  pub popped-Holds :
      (f : PinListFifo A) (x : A) (q : List A)
      → Holds f (x ∷ q)
      → (f.entries f.head ≡ some x) × Holds (popped f) q
  unfolding popped fifo_length slots
  popped-Holds f x q h = (
    ground arith,
    record {
      head_fits = omega arith;
      tail_fits = h.tail_fits;
      counted = ground (arith, h.counted, h.tail_fits, h.head_fits);
      filled =
          slots-write f.entries f.head none (length q) (step f.head) (omega arith) h.head_fits
            (λ k hk. ground (arith, fifo_length_ring f h.head_fits h.tail_fits, h.counted))
          ∙ ground arith;
    },
  )

  pub is_empty-nil : (f : PinListFifo A) → Holds f [] → is_empty f ≡ true
  unfolding is_empty fifo_length
  is_empty-nil f h = ground (arith, h.counted, h.tail_fits, h.head_fits)

  pub is_empty-cons :
      (f : PinListFifo A) (x : A) (q : List A) → Holds f (x ∷ q) → is_empty f ≡ false
  unfolding is_empty fifo_length
  is_empty-cons f x q h = ground (arith, h.counted, h.tail_fits, h.head_fits)

  pub pop_front-Holds :
      (f : PinListFifo A) (q : List A)
      → Holds f q
      → ((pop_front f).0 ≡ (queue_pop q).0)
        × (front f ≡ (queue_pop q).0)
        × Holds (pop_front f).1 (queue_pop q).1
  unfolding pop_front front popped queue_pop
  pop_front-Holds f [] h = rw (is_empty-nil f h, pop_front, front) (refl, refl, h)
  pop_front-Holds f (x ∷ q) h =
      let (e, h') = popped-Holds f x q h in rw (is_empty-cons f x q h, pop_front, front) (e, e, h')

-- The calls that change the ring, and what they answer.
pub data Call (A : Type 0) : Type 0 where
  push : A → Call A
  pop : Call A

pub data Reply (A : Type 0) : Type 0 where
  pushed_reply : Result (Unit {0}) A → Reply A
  popped_reply : Option A → Reply A

module _ {A : Type 0} where
  unfoldable pub ring_calls : List (Call A) → PinListFifo A → List (Reply A)
  ring_calls [] f = []
  ring_calls (push x ∷ cs) f =
      let (answer, f') = push_back x f in pushed_reply answer ∷ ring_calls cs f'
  ring_calls (pop ∷ cs) f = let (answer, f') = pop_front f in popped_reply answer ∷ ring_calls cs f'

  unfoldable pub queue_calls : List (Call A) → List A → List (Reply A)
  queue_calls [] q = []
  queue_calls (push x ∷ cs) q =
      let (answer, q') = queue_push x q in pushed_reply answer ∷ queue_calls cs q'
  queue_calls (pop ∷ cs) q =
      let (answer, q') = queue_pop q in popped_reply answer ∷ queue_calls cs q'

  ring_calls-Holds :
      (cs : List (Call A)) (f : PinListFifo A) (q : List A)
      → Holds f q
      → ring_calls cs f ≡ queue_calls cs q
  unfolding ring_calls queue_calls
  ring_calls-Holds [] f q h = refl
  ring_calls-Holds (push x ∷ cs) f q h =
      let (e, h') = push_back-Holds f q x h in
      cc (e, ring_calls-Holds cs (push_back x f).1 (queue_push x q).1 h')
  ring_calls-Holds (pop ∷ cs) f q h =
      let (e, _, h') = pop_front-Holds f q h in
      cc (e, ring_calls-Holds cs (pop_front f).1 (queue_pop q).1 h')

  -- Every run of pushes and pops on a new ring answers as a queue that holds at most 127 pin lists:
  -- in order, and refusing what does not fit.
  pub ring_calls-queue : (cs : List (Call A)) → ring_calls cs new_fifo ≡ queue_calls cs []
  ring_calls-queue cs = ring_calls-Holds cs new_fifo [] new_fifo-Holds
