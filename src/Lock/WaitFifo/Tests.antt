-- ===== src/Lock/WaitFifo/Tests.antt =====
-- A waiter that is pushed and removed.
use volmount.Common.{ℕ, suc, ◌≡◌, refl, false, length, none, some, [], ◌∷◌}
use volmount.Lock.Six.{read}
use volmount.Lock.WaitFifo.{
  WaiterBox, WaitFifo, push, remove, remove_by_index, len, resize, find_free,
}
use volmount.Lock.WaitFifo.Remove.{remove-push}

abbrev waiter : ℕ → WaiterBox
waiter id = record {
  trans_id = id;
  lock_type = read;
  seq = 5;
  thread = none;
  lock_acquired = false;
  lock_acquired_flag = none;
  percpu_slot = 0;
}

abbrev one_waits : WaitFifo
one_waits = record { slots = none ∷ some (waiter 4) ∷ none ∷ []; next_free = 1; size = 3 }

pushed_at_2 : (push (waiter 6) one_waits).0 ≡ some 2
unfolding push find_free
pushed_at_2 = refl

-- The slots of a resized queue are more than its new size says.
resized : (f : WaitFifo) × (resize 4 one_waits ≡ some f) × (length f.slots ≡ 7)
unfolding resize
resized = (_, refl, refl)

remove-push_example :
    ((remove 6 (push (waiter 6) one_waits).1).0 ≡ some (waiter 6))
    × (((remove 6 (push (waiter 6) one_waits).1).1.slots ≡ one_waits.slots)
        × (((remove_by_index 2 (push (waiter 6) one_waits).1).slots ≡ one_waits.slots)
            × (len (push (waiter 6) one_waits).1 ≡ suc (len one_waits))))
remove-push_example = remove-push (waiter 6) one_waits 2 (tt, (refl, (tt, tt))) pushed_at_2
