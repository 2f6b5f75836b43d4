-- ===== src/Journal/PinFifo.antt =====
-- journal/reclaim.rs: `PinListFifo`, the ring of pin lists, and the advance of `last_seq_ondisk`.
-- A pin list is any type with a count of its pins; the array is a function on the indices.
pub mod Queue
pub mod Ring
pub mod Reclaim
use volmount.Common.{
  ℕ, zero, suc, ◌+◌, ◌-◌, ◌%◌, ◌==◌, ltb, leb, if◌then◌else◌, Bool, true, false, not, ◌&&◌, ◌||◌,
  Option, none, some, List, [], ◌∷◌, Result, ok, err, length, add64,
}

abbrev pub pin_fifo_size : ℕ
pin_fifo_size = 128

pub record PinListFifo (A : Type 0) : Type 0 where
  pub entries : ℕ → Option A
  pub head : ℕ
  pub tail : ℕ

abbrev pub write : {A : Type 0} → (ℕ → Option A) → ℕ → Option A → ℕ → Option A
write entries i v j = if i == j then v else entries j

-- One step round the ring.
abbrev pub step : ℕ → ℕ
step i = (i + 1) % pin_fifo_size

module _ {A : Type 0} where
  unfoldable pub new_fifo : PinListFifo A
  new_fifo = record { entries = λ _. none; head = 0; tail = 0 }

  unfoldable pub fifo_length : PinListFifo A → ℕ
  fifo_length f = if leb f.head f.tail then f.tail - f.head else pin_fifo_size - f.head + f.tail

  unfoldable pub is_empty : PinListFifo A → Bool
  is_empty f = f.head == f.tail

  unfoldable pub is_full : PinListFifo A → Bool
  is_full f = step f.tail == f.head

  unfoldable pub front : PinListFifo A → Option A
  unfolding is_empty
  front f = if is_empty f then none else f.entries f.head

  unfoldable pub push_back : A → PinListFifo A → Result (Unit {0}) A × PinListFifo A
  unfolding is_full
  push_back pl f =
      if is_full f
      then (err pl, f)
      else (ok tt, record f { entries = write f.entries f.tail (some pl); tail = step f.tail })

  unfoldable pub pop_front : PinListFifo A → Option A × PinListFifo A
  unfolding is_empty
  pop_front f = if is_empty f then (none, f) else (
    f.entries f.head,
    record f { entries = write f.entries f.head none; head = step f.head },
  )

  -- Whether an index lies between `head` and `tail`, going round.
  unfoldable pub in_range : PinListFifo A → ℕ → Bool
  unfolding is_empty
  in_range f i =
      not (is_empty f)
      && ((leb f.head f.tail && (leb f.head i && ltb i f.tail))
          || (ltb f.tail f.head && (leb f.head i || ltb i f.tail)))

  unfoldable pub entry_for_seq : ℕ → PinListFifo A → Option A
  entry_for_seq seq f = let i = seq % pin_fifo_size in if in_range f i then f.entries i else none

module _ {A : Type 0} (count : A → ℕ) where
  -- The loop of `drainable_front_count_zero`, on fuel.
  unfoldable pub drainable_from : ℕ → PinListFifo A → ℕ → List ℕ
  drainable_from zero f i = []
  drainable_from (suc fuel) f i =
      let rest = drainable_from fuel f (step i) in
      if i == f.tail
      then []
      else elim (f.entries i) [ some pl ↦ if count pl == 0 then i ∷ rest else [] | none ↦ [] ]

  unfoldable pub drainable_front_count_zero : PinListFifo A → List ℕ
  drainable_front_count_zero f = if is_empty f then [] else drainable_from pin_fifo_size f f.head

module _ {A : Type 0} where
  unfoldable pub drain_front : List ℕ → PinListFifo A → PinListFifo A
  unfolding is_empty
  drain_front [] f = f
  drain_front (_ ∷ indices) f = drain_front indices (
      if is_empty f
      then f
      else record f { entries = write f.entries f.head none; head = step f.head })

pub record SeqState (A : Type 0) : Type 0 where
  pub pin_fifo : PinListFifo A
  pub last_seq_ondisk : ℕ

module _ {A : Type 0} (count : A → ℕ) where
  unfoldable pub bch2_journal_maybe_update_last_seq : SeqState A → SeqState A
  bch2_journal_maybe_update_last_seq s =
      let indices = drainable_front_count_zero count s.pin_fifo in
      if length indices == 0 then s else record s {
        pin_fifo = drain_front indices s.pin_fifo;
        last_seq_ondisk = add64 s.last_seq_ondisk (length indices);
      }
