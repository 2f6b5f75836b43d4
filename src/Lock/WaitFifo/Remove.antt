-- ===== src/Lock/WaitFifo/Remove.antt =====
-- lock/wait_fifo.rs: a waiter that is pushed can be removed again.
use volmount.Common.{
  ℕ, zero, suc, ◌≡◌, ◌==◌, refl, Bool, true, false, inl, inr, Option, none, some, Option-cases,
  List, [], ◌∷◌, get_elem?, set, All, ==_same, ap, sym,
}
use volmount.Lock.WaitFifo.{
  WaiterBox, WaitFifo, remove_first, remove, remove_by_index, waiters, len, push, find_free,
}
use volmount.Lock.WaitFifo.Push.{find_free-free}

-- No waiter in a slot answers to the test.
abbrev pub Misses : (WaiterBox → Bool) → Option WaiterBox → Type 0
Misses p none = Unit {0}
Misses p (some w) = p w ≡ false

-- Setting and emptying a free slot.
pub remove_first-set :
    (p : WaiterBox → Bool) (ss : List (Option WaiterBox)) (i : ℕ) (w : WaiterBox)
    → get_elem? ss i ≡ some none
    → p w ≡ true
    → All (Misses p) ss
    → remove_first p (set ss i (some w)) ≡ (some w, ss)
unfolding remove_first
remove_first-set p [] i w free hit miss = absurd (cc (free))
remove_first-set p (none ∷ ss) zero w free hit miss = rw hit refl
remove_first-set p (some x ∷ ss) zero w free hit miss = absurd (cc (free))
remove_first-set p (none ∷ ss) (suc i) w free hit (m, miss) =
    rw (remove_first-set p ss i w free hit miss) refl
remove_first-set p (some x ∷ ss) (suc i) w free hit (m, miss) =
    rw (m, remove_first-set p ss i w free hit miss) refl

pub waiters-set :
    (ss : List (Option WaiterBox)) (i : ℕ) (w : WaiterBox)
    → get_elem? ss i ≡ some none
    → waiters (set ss i (some w)) ≡ suc (waiters ss)
waiters-set [] i w free = absurd (cc (free))
waiters-set (none ∷ ss) zero w free = refl
waiters-set (some x ∷ ss) zero w free = absurd (cc (free))
waiters-set (none ∷ ss) (suc i) w free = waiters-set ss i w free
waiters-set (some x ∷ ss) (suc i) w free = ap suc (waiters-set ss i w free)

set-set-free :
    (ss : List (Option WaiterBox)) (i : ℕ) (w : WaiterBox)
    → get_elem? ss i ≡ some none
    → set (set ss i (some w)) i none ≡ ss
set-set-free [] i w free = refl
set-set-free (none ∷ ss) zero w free = refl
set-set-free (some x ∷ ss) zero w free = absurd (cc (free))
set-set-free (s ∷ ss) (suc i) w free = ap (λ r. s ∷ r) (set-set-free ss i w free)

-- When no waiter of the transaction stands in a slot and there is room, the waiter that is pushed is
-- the one that `remove` gives for its transaction; `remove` and `remove_by_index` of the slot
-- that it was given both put every slot back; and while it waits there is one waiter more.
pub remove-push :
    (w : WaiterBox) (f : WaitFifo) (idx : ℕ)
    → All (Misses (λ x. x.trans_id == w.trans_id)) f.slots
    → (push w f).0 ≡ some idx
    → ((remove w.trans_id (push w f).1).0 ≡ some w)
      × (((remove w.trans_id (push w f).1).1.slots ≡ f.slots)
          × (((remove_by_index idx (push w f).1).slots ≡ f.slots)
              × (len (push w f).1 ≡ suc (len f))))
unfolding push remove remove_by_index len
remove-push w f idx miss answer = elim (Option-cases (find_free f.size 0 f)) [
  | inl full ↦ absurd (cc (rw (full, push) at answer))
  | inr (i, found) ↦
      let same : i ≡ idx = cc (rw (found, push) at answer) in
      let free = find_free-free f.size 0 f i found in
      let back =
        remove_first-set (λ x. x.trans_id == w.trans_id) f.slots i w free (==_same w.trans_id)
          miss in
      rw (found, push, remove, back, sym same)
        (refl, (refl, (set-set-free f.slots i w free, waiters-set f.slots i w free)))
]
