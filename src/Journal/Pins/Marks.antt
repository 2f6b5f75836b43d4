-- ===== src/Journal/Pins/Marks.antt =====
-- journal/reclaim.rs: how many pins of a store stand on a sequence number.
use volmount.Common.{
  ℕ, zero, suc, ◌+◌, ◌<◌, ◌≤◌, ◌≡◌, ◌≢◌, ◌==◌, if◌then◌else◌, refl, arith, inl, inr, compare-cases,
  ==_same, ==_differs,
}

-- A mark is the sequence number of a pin, 0 for a pin that is not active.
abbrev pub weight : ℕ → ℕ → ℕ
weight s m = if m == 0 then 0 else if m == s then 1 else 0

abbrev pub set_mark : ℕ → ℕ → (ℕ → ℕ) → ℕ → ℕ
set_mark a v m b = if b == a then v else m b

-- The active pins on `s` among the addresses below `n`.
unfoldable pub pinned : ℕ → (ℕ → ℕ) → ℕ → ℕ
pinned zero m s = 0
pinned (suc n) m s = weight s (m n) + pinned n m s

pinned-beyond : (n a v : ℕ) (m : ℕ → ℕ) (s : ℕ) → n ≤ a → pinned n (set_mark a v m) s ≡ pinned n m s
unfolding pinned
pinned-beyond zero a v m s h = refl
pinned-beyond (suc n) a v m s h = ground (arith, pinned-beyond n a v m s)

pub pinned-set_mark :
    (n a v : ℕ) (m : ℕ → ℕ) (s : ℕ)
    → a < n
    → pinned n (set_mark a v m) s + weight s (m a) ≡ pinned n m s + weight s v
unfolding pinned
pinned-set_mark zero a v m s h = absurd (omega arith)
pinned-set_mark (suc n) a v m s h = elim (compare-cases a n) [
  | inl below ↦
      let off = ==_differs n a (λ e. omega (arith, e)) in
      rw off (omega (arith, pinned-set_mark n a v m s below))
  | inr (inl e) ↦ rw (e, ==_same n) (omega (arith, pinned-beyond n n v m s (omega arith)))
  | inr (inr above) ↦ absurd (omega arith)
]

pub weight-pinned : (n a : ℕ) (m : ℕ → ℕ) (s : ℕ) → a < n → weight s (m a) ≤ pinned n m s
unfolding pinned
weight-pinned zero a m s h = absurd (omega arith)
weight-pinned (suc n) a m s h = elim (compare-cases a n) [
  | inl below ↦ omega (arith, weight-pinned n a m s below)
  | inr (inl e) ↦ rw e (omega arith)
  | inr (inr above) ↦ absurd (omega arith)
]

pub pinned-none :
    (n : ℕ) (m : ℕ → ℕ) (s : ℕ) → ((a : ℕ) → a < n → m a ≢ 0 → m a ≢ s) → pinned n m s ≡ 0
unfolding pinned
pinned-none zero m s off = refl
pinned-none (suc n) m s off =
    ground (arith, off n (omega arith), pinned-none n m s (λ a h. off a (omega arith)))
