-- ===== src/Lock/Tests.antt =====
-- lock/six.rs: a thread that reads, takes the intent lock, and writes once the reader is gone.
-- lock/deadlock.rs: two transactions that wait for each other, and a third that waits for one.
use volmount.Common.{ℕ, ◌+◌, ◌^◌, ◌≡◌, refl, true, false, some, List, [], ◌∷◌}
use volmount.Lock.Six.{World, new_lock, try_upgrade_intent_to_write, try_lock_write}
use volmount.Lock.Deadlock.{WaiterInfo, detect, run, round, visit, advance, scan}
use volmount.Lock.Deadlock.Detect.{Verdict, detect_correct}

abbrev waits : ℕ → ℕ → WaiterInfo
waits x y = record { trans_id = x; lock_id = 10 + y; waiting_for_trans_id = y }

abbrev two_cycle : List WaiterInfo
two_cycle = waits 3 1 ∷ waits 1 2 ∷ waits 2 1 ∷ []

abbrev chain : List WaiterInfo
chain = waits 3 1 ∷ waits 3 2 ∷ waits 1 2 ∷ []

cycle_test : detect 3 11 two_cycle ≡ some true
unfolding detect run round visit advance scan
cycle_test = refl

no_cycle_test : detect 3 11 chain ≡ some false
unfolding detect run round visit advance scan
no_cycle_test = refl

detect_correct_example : Verdict two_cycle 3 (detect 3 11 two_cycle)
detect_correct_example = detect_correct 3 11 two_cycle

abbrev threads : List ℕ
threads = 0 ∷ 0 ∷ []

-- Thread 0 reads and thread 1 takes the intent lock; it writes when thread 0 is done.
abbrev reading : World
reading = record { lock = record new_lock { state = 1 }; thread_read_cnt = 1 ∷ 0 ∷ [] }

abbrev intending : World
intending = record {
  lock = record new_lock { state = 1 + 2 ^ 26; intent_owner = some 1 };
  thread_read_cnt = 1 ∷ 0 ∷ [];
}

abbrev writing : World
writing = record {
  lock = record new_lock { state = 2 ^ 26 + 2 ^ 27; intent_owner = some 1; write_owner = some 1 };
  thread_read_cnt = 0 ∷ 0 ∷ [];
}

refused_test : try_upgrade_intent_to_write 1 intending ≡ (false, intending)
unfolding try_upgrade_intent_to_write
refused_test = refl

-- Thread 0 reads another lock, which its count includes: it gets the write lock while thread 1 reads.
abbrev elsewhere : World
elsewhere = record { lock = record new_lock { state = 1 }; thread_read_cnt = 1 ∷ 1 ∷ [] }

shared_count_test : (try_lock_write 0 elsewhere).0 ≡ true
unfolding try_lock_write
shared_count_test = refl
