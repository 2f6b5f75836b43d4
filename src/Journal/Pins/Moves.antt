-- ===== src/Journal/Pins/Moves.antt =====
-- journal/reclaim.rs: the counts of the pin lists over the changes that the calls make: a pin leaves its
-- list or goes on one, and a reference is put.
use volmount.Common.{
  ℕ, suc, ◌+◌, ◌-◌, ◌%◌, ◌^◌, ◌<◌, ◌≤◌, ◌≡◌, ◌≢◌, ◌==◌, if◌then◌else◌, arith, false, compare-cases,
  inl, inr, ==_same, ==_differs, some, List, length, get_elem?,
}
use volmount.Journal.PinFifo.{SeqState}
use volmount.Journal.Pins.{
  JournalEntryPinList, each_list, unlink_pin, dec_count, inc_count, link_back, JournalPinType,
}
use volmount.Journal.Pins.Marks.{set_mark, pinned, pinned-set_mark, weight-pinned}
use volmount.Journal.Pins.Lists.{each_of}
use volmount.Journal.Pins.Held.{Counts, length-lt, changed}

module _ {size n e : ℕ} {s : SeqState JournalEntryPinList} {m : ℕ → ℕ}
    {q : List JournalEntryPinList} where
  -- Two sequence numbers of lists in the ring have one index only when they are equal.
  index-differs :
      (t u : ℕ)
      → Counts size n e s m q
      → s.last_seq_ondisk ≤ t
      → t < s.last_seq_ondisk + length q
      → s.last_seq_ondisk ≤ u
      → u < s.last_seq_ondisk + length q
      → t ≢ u
      → (t % 128 == u % 128) ≡ false
  index-differs t u c lt th lu uh far =
      ==_differs (t % 128) (u % 128) (λ same. far (omega (arith, length-lt c, same)))

  -- A change of one list, and of what no count depends on in the others.
  changed_one :
      (u : ℕ) (f g : JournalEntryPinList → JournalEntryPinList) (m' : ℕ → ℕ) (n' : ℕ)
      → Counts size n e s m q
      → s.last_seq_ondisk ≤ u
      → u < s.last_seq_ondisk + length q
      → ((a : ℕ)
          → a < size
          → m' a ≢ 0
          → (s.last_seq_ondisk ≤ m' a) × (m' a < s.last_seq_ondisk + length q))
      → ((pl : JournalEntryPinList)
          → get_elem? q (u - s.last_seq_ondisk) ≡ some pl
          → pinned size m u ≤ pl.count
          → pl.count ≤ n
          → (pinned size m' u ≤ (f pl).count) × ((f pl).count ≤ n'))
      → ((t : ℕ) (pl : JournalEntryPinList)
          → t ≢ u
          → pinned size m t ≤ pl.count
          → pl.count ≤ n
          → (pinned size m' t ≤ (g pl).count) × ((g pl).count ≤ n'))
      → Counts size n' e
          (each_list (λ k pl. if k == u % 128 then f pl else g pl) s)
          m'
          (each_of (λ k pl. if k == u % 128 then f pl else g pl) s.pin_fifo.head q)
  changed_one u f g m' n' c low high cover one others = changed _ m' n' c cover (λ d pl below at.
      let t = s.last_seq_ondisk + d in
      let (le_count, le_n) = c.counted d pl at in
      elim (compare-cases t u) [
        | inl less ↦
            let far : t ≢ u = λ eq. omega (arith, eq) in
            rw (index-differs t u c (omega arith) (omega arith) low high far)
              (others t pl far le_count le_n)
        | inr (inl same) ↦
            let place : u - s.last_seq_ondisk ≡ d = omega (arith, same) in
            rw (same, ==_same (u % 128)) (one pl (rw place at) (rw same at le_count) le_n)
        | inr (inr more) ↦
            let far : t ≢ u = λ eq. omega (arith, eq) in
            rw (index-differs t u c (omega arith) (omega arith) low high far)
              (others t pl far le_count le_n)
      ])

  -- `journal_pin_drop_locked` on an active pin, and its sequence number reset.
  pub dropped :
      (a : ℕ)
      → a < size
      → n < 2 ^ 32
      → m a ≢ 0
      → Counts size n e s m q
      → Counts size n e
          (each_list
            (λ k pl. if k == m a % 128 then dec_count (unlink_pin a pl) else unlink_pin a pl)
            s)
          (set_mark a 0 m)
          (each_of
            (λ k pl. if k == m a % 128 then dec_count (unlink_pin a pl) else unlink_pin a pl)
            s.pin_fifo.head
            q)
  dropped a small n_fits active c =
      let (low, high) = c.covered a small active in
      changed_one (m a) _ _ (set_mark a 0 m) n c low high
        (λ b b_small b_active. ground (arith, c.covered b b_small))
        (λ pl at le_count le_n. (
          ground
              (arith, pinned-set_mark size a 0 m (m a) small, weight-pinned size a m (m a) small),
          ground (arith, weight-pinned size a m (m a) small),
        ))
        (λ t pl far le_count le_n. (ground (arith, pinned-set_mark size a 0 m t small), le_n))

  -- A pin that is not active goes on the list of `t`.
  pub taken :
      (a t : ℕ) (ty : JournalPinType)
      → a < size
      → suc n < 2 ^ 32
      → m a ≡ 0
      → s.last_seq_ondisk ≤ t
      → t < s.last_seq_ondisk + length q
      → Counts size n e s m q
      → Counts size
          (suc n)
          e
          (each_list (λ k pl. if k == t % 128 then link_back ty a (inc_count pl) else pl) s)
          (set_mark a t m)
          (each_of
            (λ k pl. if k == t % 128 then link_back ty a (inc_count pl) else pl)
            s.pin_fifo.head
            q)
  taken a t ty small n_fits idle low high c =
      changed_one t _ _ (set_mark a t m) (suc n) c low high
        (λ b b_small b_active. ground (arith, c.covered b b_small))
        (λ pl at le_count le_n.
          (ground (arith, pinned-set_mark size a t m t small), ground (arith)))
        (λ u pl far le_count le_n.
          (ground (arith, pinned-set_mark size a t m u small), omega arith))

  -- A reference that no pin holds is put.
  pub put_one :
      (t : ℕ)
      → n < 2 ^ 32
      → s.last_seq_ondisk ≤ t
      → t < s.last_seq_ondisk + length q
      → ((pl : JournalEntryPinList)
          → get_elem? q (t - s.last_seq_ondisk) ≡ some pl
          → pinned size m t < pl.count)
      → Counts size n e s m q
      → Counts size n e
          (each_list (λ k pl. if k == t % 128 then dec_count pl else pl) s)
          m
          (each_of (λ k pl. if k == t % 128 then dec_count pl else pl) s.pin_fifo.head q)
  put_one t n_fits low high spare c =
      changed_one t _ _ m n c low high c.covered
        (λ pl at le_count le_n. (omega (arith, spare pl at), omega (arith, spare pl at)))
        (λ u pl far le_count le_n. (le_count, le_n))
