-- ===== src/Lock/WaitFifo/Push.antt =====
-- lock/wait_fifo.rs: which slot a waiter is put in.
use volmount.Common.{
  ℕ, zero, suc, ◌+◌, ◌^◌, ◌<◌, ◌≤◌, ◌≡◌, refl, true, false, Bool-cases, inl, inr, Option, none,
  some, length, get_elem?,
}
use volmount.Lock.WaitFifo.{WaiterBox, WaitFifo, slot_is_free, slot_from, find_free}

slot_is_free-none : (s : Option (Option WaiterBox)) → slot_is_free s ≡ true → s ≡ some none
slot_is_free-none none h = absurd (cc (h))
slot_is_free-none (some none) h = refl
slot_is_free-none (some (some w)) h = absurd (cc (h))

pub find_free-free :
    (n offset : ℕ) (f : WaitFifo) (i : ℕ)
    → find_free n offset f ≡ some i
    → get_elem? f.slots i ≡ some none
unfolding find_free
find_free-free zero offset f i h = absurd (cc (h))
find_free-free (suc n) offset f i h =
    elim (Bool-cases (slot_is_free (get_elem? f.slots (slot_from f offset)))) [
      | inl free ↦
          let same : slot_from f offset ≡ i = cc (rw (free, find_free) at h) in
          rw same at (slot_is_free-none (get_elem? f.slots (slot_from f offset)) free)
      | inr taken ↦ find_free-free n (suc offset) f i (rw (taken, find_free) at h)
    ]

-- The slot is taken.
abbrev pub IsTaken : WaitFifo → ℕ → Type 0
IsTaken f i = slot_is_free (get_elem? f.slots i) ≡ false

-- The size is not 0 and small enough for 16-bit sums, and the hint is a slot.
pub record IsSound (f : WaitFifo) : Type 0 where
  pub some_slot : 0 < f.size
  pub small : f.size + f.size ≤ 2 ^ 16
  pub hint : f.next_free < f.size
  pub enough : f.size ≤ length f.slots
