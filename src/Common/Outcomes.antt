-- ===== src/Common/Outcomes.antt =====
-- `Result<A, E>`, and the arithmetic of atomics that wrap.
use Prim.Native.Nat.{ℕ, ◌+◌, ◌-◌, ◌^◌}
use volmount.Common.Tests.{u64}

pub data Result {ℓ κ} (A : Type ℓ) (E : Type κ) : Type (ℓ ⊔ κ) where
  ok : A → Result A E
  err : E → Result A E

-- `AtomicU64::fetch_add` and `fetch_sub`: the value left behind.
abbrev pub add64 : ℕ → ℕ → ℕ
add64 a b = u64 (a + b)

abbrev pub sub64 : ℕ → ℕ → ℕ
sub64 a b = u64 (a + 2 ^ 64 - u64 b)
