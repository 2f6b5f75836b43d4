-- ===== src/Lock/WaitFifo.antt =====
-- lock/wait_fifo.rs: the slots in which the waiters of a lock stand. A slot that was never written
-- and one that was emptied are both `none`. Each call is one step, so no compare-and-update fails;
-- a thread and a flag are named by a number.
pub mod Push
pub mod Remove
mod Tests
use volmount.Common.{
  ℕ, zero, suc, ◌+◌, ◌%◌, ◌==◌, ltb, if◌then◌else◌, Bool, true, false, not, ◌&&◌, Option, none,
  some, List, [], ◌∷◌, ◌++◌, length, get_elem?, set, u16,
}
use volmount.Lock.Six.{SixLockType}

pub record WaiterBox : Type 0 where
  pub trans_id : ℕ
  pub lock_type : SixLockType
  pub seq : ℕ
  pub thread : Option ℕ
  pub lock_acquired : Bool
  pub lock_acquired_flag : Option ℕ
  pub percpu_slot : ℕ

pub record WaitFifo : Type 0 where
  pub slots : List (Option WaiterBox)
  pub next_free : ℕ
  pub size : ℕ

abbrev pub empty_slots : ℕ → List (Option WaiterBox)
empty_slots zero = []
empty_slots (suc n) = none ∷ empty_slots n

-- `none` is the failed assertion that the size is not 0.
unfoldable pub new_wait_fifo : ℕ → Option WaitFifo
new_wait_fifo size =
    if size == 0
    then none
    else some (record { slots = empty_slots size; next_free = 0; size = size })

-- Whether a slot can be taken; an index that is out of range, where the source panics, cannot.
abbrev pub slot_is_free : Option (Option WaiterBox) → Bool
slot_is_free none = false
slot_is_free (some none) = true
slot_is_free (some (some w)) = false

-- The slot looked at after `offset` others; the sum is a 16-bit one.
abbrev pub slot_from : WaitFifo → ℕ → ℕ
slot_from f offset = u16 (f.next_free + offset) % f.size

-- The first free one of `n` slots.
unfoldable pub find_free : ℕ → ℕ → WaitFifo → Option ℕ
find_free zero offset f = none
find_free (suc n) offset f =
    let rest = find_free n (suc offset) f in
    let idx = slot_from f offset in if slot_is_free (get_elem? f.slots idx) then some idx else rest

unfoldable pub push : WaiterBox → WaitFifo → Option ℕ × WaitFifo
push w f = elim (find_free f.size 0 f) [
  | none ↦ (none, f)
  | some idx ↦
      (some idx, record f { slots = set f.slots idx (some w); next_free = u16 (idx + 1) % f.size })
]

-- The scan for a waiter, which empties its slot.
unfoldable pub remove_first :
    (WaiterBox → Bool) → List (Option WaiterBox) → Option WaiterBox × List (Option WaiterBox)
remove_first p [] = (none, [])
remove_first p (s ∷ ss) =
    let (found, rest) = remove_first p ss in
    elim s [
      | none ↦ (found, none ∷ rest)
      | some w ↦ if p w then (some w, none ∷ ss) else (found, some w ∷ rest)
    ]

unfoldable pub remove : ℕ → WaitFifo → Option WaiterBox × WaitFifo
remove trans_id f =
    let (found, slots) = remove_first (λ w. w.trans_id == trans_id) f.slots in
    (found, record f { slots = slots })

abbrev pub has_thread : ℕ → WaiterBox → Bool
has_thread id w = elim w.thread [ some t ↦ t == id | none ↦ false ]

unfoldable pub remove_by_thread : ℕ → WaitFifo → Option WaiterBox × WaitFifo
remove_by_thread id f =
    let (found, slots) = remove_first (has_thread id) f.slots in (found, record f { slots = slots })

-- A write out of range changes nothing.
unfoldable pub remove_by_index : ℕ → WaitFifo → WaitFifo
remove_by_index idx f = record f { slots = set f.slots idx none }

abbrev pub waiters : List (Option WaiterBox) → ℕ
waiters [] = 0
waiters (s ∷ ss) = let n = waiters ss in elim s [ none ↦ n | some _ ↦ suc n ]

unfoldable pub len : WaitFifo → ℕ
len f = waiters f.slots

abbrev pub all_free : List (Option WaiterBox) → Bool
all_free [] = true
all_free (s ∷ ss) = elim s [ none ↦ true | some _ ↦ false ] && all_free ss

unfoldable pub is_empty : WaitFifo → Bool
is_empty f = all_free f.slots

-- `none` is the failed assertion. The slots were taken out before their number is read, so the new
-- size is what is added.
unfoldable pub resize : ℕ → WaitFifo → Option WaitFifo
resize new_size f =
    if ltb f.size new_size
    then some (record f { slots = f.slots ++ empty_slots new_size; size = new_size })
    else none
