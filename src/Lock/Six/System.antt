-- ===== src/Lock/Six/System.antt =====
-- lock/six.rs: threads that share one lock, each releasing or converting only what it holds.
use volmount.Common.{ℕ, ◌+◌, ◌*◌, ◌^◌, ◌<◌, ◌≡◌, ◌≢◌, Option, none, some, List, get_elem?, total}
use volmount.Lock.Six.{
  World, new_lock, reads_of, try_lock_read, unlock_read, try_lock_intent, unlock_intent,
  try_lock_write, unlock_write, try_upgrade_intent_to_write, downgrade_write_to_intent,
  downgrade_intent_to_read, try_upgrade_read_to_intent,
}

abbrev pub readers : World → ℕ
readers w = total (λ n. n) w.thread_read_cnt

-- A call of a thread; a refused call changes nothing, and is a step too. There are fewer than 2^26
-- read locks in all.
pub data Step (w : World) : World → Type 0 where
  lock_read :
      (tid : ℕ)
      → readers w + 1 < 2 ^ 26
      → get_elem? w.thread_read_cnt tid ≢ none
      → Step w (try_lock_read tid w).1
  release_read : (tid : ℕ) → 0 < reads_of tid w.thread_read_cnt → Step w (unlock_read tid w)
  lock_intent : (tid : ℕ) → Step w (try_lock_intent tid w).1
  release_intent : (tid : ℕ) → w.lock.intent_owner ≡ some tid → Step w (unlock_intent w)
  lock_write : (tid : ℕ) → Step w (try_lock_write tid w).1
  release_write : (tid : ℕ) → w.lock.write_owner ≡ some tid → Step w (unlock_write w)
  upgrade_intent :
      (tid : ℕ) → w.lock.intent_owner ≡ some tid → Step w (try_upgrade_intent_to_write tid w).1
  downgrade_write : (tid : ℕ) → w.lock.write_owner ≡ some tid → Step w (downgrade_write_to_intent w)
  downgrade_intent :
      (tid : ℕ)
      → w.lock.intent_owner ≡ some tid
      → readers w + 1 < 2 ^ 26
      → get_elem? w.thread_read_cnt tid ≢ none
      → Step w (downgrade_intent_to_read tid w)
  upgrade_read :
      (tid : ℕ) → 0 < reads_of tid w.thread_read_cnt → Step w (try_upgrade_read_to_intent tid w).1

-- From a new lock, with threads that hold nothing.
pub data Reach : World → Type 0 where
  start :
      (cnt : List ℕ)
      → total (λ n. n) cnt ≡ 0
      → Reach (record { lock = new_lock; thread_read_cnt = cnt })
  next : {w w' : World} → Reach w → Step w w' → Reach w'

-- Whether a lock has an owner, as a bit.
abbrev pub held : Option ℕ → ℕ
held none = 0
held (some t) = 1

-- The two bits follow the owners, and the low bits count the read locks.
pub record Inv (w : World) : Type 0 where
  pub word :
      w.lock.state
      ≡ readers w + held w.lock.intent_owner * 2 ^ 26 + held w.lock.write_owner * 2 ^ 27
  pub fits : readers w < 2 ^ 26
  -- The writer is the only reader, and the only holder of an intent lock.
  pub writer_alone :
      (t : ℕ) → w.lock.write_owner ≡ some t → readers w ≡ reads_of t w.thread_read_cnt
  pub one_owner : (t i : ℕ) → w.lock.write_owner ≡ some t → w.lock.intent_owner ≡ some i → i ≡ t
