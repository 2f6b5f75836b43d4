-- ===== src/Lock/Six.antt =====
-- lock/six.rs: `SixLock` in its standard mode (no per-cpu readers), while no thread sleeps on it: with
-- the three waiting bits clear, `wakeup_lock_type` returns at once. A compare-exchange loop is the one
-- step of its last round. `CELL.get()` of an owner or a recursion count is a field.
pub mod System
pub mod Exclusion
use volmount.Common.{
  ℕ, ◌+◌, ◌-◌, ◌/◌, ◌%◌, ◌^◌, ltb, ◌==◌, if◌then◌else◌, Bool, true, false, not, ◌&&◌, ◌||◌, Option,
  none, some, List, get_elem?, set, u32, add64,
}

pub data SixLockType : Type 0 where
  read intent write : SixLockType

abbrev type_code : SixLockType → ℕ
type_code read = 0
type_code intent = 1
type_code write = 2

unfoldable pub lock_conflicts : SixLockType → SixLockType → Bool
lock_conflicts held want = ltb 1 (type_code held + type_code want)

pub record SixLock : Type 0 where
  pub state : ℕ
  pub seq : ℕ
  pub intent_owner : Option ℕ
  pub intent_recurse : ℕ
  pub write_owner : Option ℕ
  pub write_recurse : ℕ

-- A lock, and `THREAD_READ_CNT` of every thread, in the order of the threads' numbers.
pub record World : Type 0 where
  pub lock : SixLock
  pub thread_read_cnt : List ℕ

abbrev pub new_lock : SixLock
new_lock = record {
  state = 0;
  seq = 0;
  intent_owner = none;
  intent_recurse = 0;
  write_owner = none;
  write_recurse = 0;
}

-- Tests, sets and clears one bit of a word.
abbrev pub has_bit : ℕ → ℕ → Bool
has_bit k v = v / 2 ^ k % 2 == 1

abbrev pub set_bit : ℕ → ℕ → ℕ
set_bit k v = if has_bit k v then v else v + 2 ^ k

abbrev pub clear_bit : ℕ → ℕ → ℕ
clear_bit k v = if has_bit k v then v - 2 ^ k else v

abbrev pub has_intent_lock : ℕ → Bool
has_intent_lock v = has_bit 26 v

abbrev pub has_write_lock : ℕ → Bool
has_write_lock v = has_bit 27 v

abbrev pub read_count : ℕ → ℕ
read_count v = v % 2 ^ 26

abbrev pub reads_of : ℕ → List ℕ → ℕ
reads_of tid cnt = elim (get_elem? cnt tid) [ none ↦ 0 | some n ↦ n ]

abbrev pub owned_by : ℕ → Option ℕ → Bool
owned_by tid none = false
owned_by tid (some owner) = owner == tid

unfoldable pub try_lock_read : ℕ → World → Bool × World
try_lock_read tid w =
    let state = w.lock.state in
    if has_write_lock state || has_bit 30 state then (false, w) else (
      true,
      record {
        lock = record (w.lock) { state = u32 (state + 1) };
        thread_read_cnt = set w.thread_read_cnt tid (reads_of tid w.thread_read_cnt + 1);
      },
    )

unfoldable pub unlock_read : ℕ → World → World
unlock_read tid w = record {
  lock = record (w.lock) { state = u32 (w.lock.state + 2 ^ 32 - 1) };
  thread_read_cnt = set w.thread_read_cnt tid (reads_of tid w.thread_read_cnt - 1);
}

unfoldable pub try_lock_intent : ℕ → World → Bool × World
try_lock_intent tid w =
    let l = w.lock in
    if owned_by tid l.intent_owner
    then (true, record w { lock = record l { intent_recurse = u32 (l.intent_recurse + 1) } })
    else if has_intent_lock l.state || has_write_lock l.state
    then (false, w)
    else (
      true,
      record w { lock = record l { state = set_bit 26 l.state; intent_owner = some tid } },
    )

unfoldable pub unlock_intent : World → World
unlock_intent w =
    let l = w.lock in
    if ltb 0 l.intent_recurse
    then record w { lock = record l { intent_recurse = l.intent_recurse - 1 } }
    else record w { lock = record l { intent_owner = none; state = clear_bit 26 l.state } }

unfoldable pub try_lock_write : ℕ → World → Bool × World
try_lock_write tid w =
    let l = w.lock in
    let others = read_count l.state - reads_of tid w.thread_read_cnt in
    if has_write_lock l.state
    then if owned_by tid l.write_owner
      then (true, record w { lock = record l { write_recurse = u32 (l.write_recurse + 1) } })
      else (false, w)
    else if has_intent_lock l.state
    then (false, w)
    else if not (others == 0)
    then (false, w)
    else (true, record w { lock = record l { state = set_bit 27 l.state; write_owner = some tid } })

unfoldable pub unlock_write : World → World
unlock_write w =
    let l = w.lock in
    if ltb 0 l.write_recurse
    then record w { lock = record l { write_recurse = l.write_recurse - 1 } }
    else record w {
      lock = record l { write_owner = none; seq = add64 l.seq 1; state = clear_bit 27 l.state };
    }

unfoldable pub try_upgrade_intent_to_write : ℕ → World → Bool × World
try_upgrade_intent_to_write tid w =
    let l = w.lock in
    if ltb 0 (read_count l.state)
    then (false, w)
    else if has_write_lock l.state
    then (false, w)
    else (true, record w { lock = record l { state = set_bit 27 l.state; write_owner = some tid } })

unfoldable pub downgrade_write_to_intent : World → World
downgrade_write_to_intent w =
    let l = w.lock in
    record w {
      lock = record l { write_owner = none; seq = add64 l.seq 1; state = clear_bit 27 l.state };
    }

unfoldable pub downgrade_intent_to_read : ℕ → World → World
downgrade_intent_to_read tid w =
    let l = w.lock in
    record {
      lock = record l { state = clear_bit 26 (u32 (l.state + 1)); intent_owner = none };
      thread_read_cnt = set w.thread_read_cnt tid (reads_of tid w.thread_read_cnt + 1);
    }

unfoldable pub try_upgrade_read_to_intent : ℕ → World → Bool × World
try_upgrade_read_to_intent tid w =
    let l = w.lock in
    if has_intent_lock l.state || has_write_lock l.state
    then (false, w)
    else if read_count l.state == 0
    then (false, w)
    else (
      true,
      record {
        lock = record l { state = set_bit 26 (l.state - 1); intent_owner = some tid };
        thread_read_cnt = set w.thread_read_cnt tid (reads_of tid w.thread_read_cnt - 1);
      },
    )
