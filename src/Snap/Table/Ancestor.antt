-- ===== src/Snap/Table/Ancestor.antt =====
-- snap/table.rs: `is_ancestor` is right about every table that is well formed.
use mathlib.Core.Path.{subst}
use volmount.Common.{
  ℕ, zero, suc, ◌+◌, ◌-◌, ◌<◌, ◌≤◌, ◌≡◌, ◌≢◌, inl, inr, refl, arith, some, true, false, ltb, ◌==◌,
  Option-cases, Bool-cases, compare-cases, ◌&&◌, dec_lt, ℕ_discrete,
}
use volmount.Snap.Meta.{SnapshotT}
use volmount.Snap.Table.{
  SnapshotTable, refused, reached, u32_max, get, get_ancestor_below, bit_of, test_ancestor_bitmap,
  is_ancestor_bitmap, jump, climb, arrived, near, then_near, is_ancestor,
}
use volmount.Snap.Table.Path.{Anc, IsWellFormed, get-entry_of}
use volmount.Snap.Table.Climb.{at_end, climb-Decides}
use volmount.Snap.Table.Jump.{
  Decides, LiveAnc-missing, LiveAnc-root, refuses, ahead_jump, below-missing, below-root, below-lt,
}

module _ (t : SnapshotTable) (wf : IsWellFormed t) (a : ℕ) where
  set_bit :
      (c : ℕ)
      → test_ancestor_bitmap t c a ≡ true
      → (s : SnapshotT) × (get t c ≡ some s)
        × (bit_of c a < 128)
        × (s.is_ancestor (bit_of c a) ≡ true)
  unfolding test_ancestor_bitmap
  set_bit c e = elim (Option-cases (get t c)) [
    | inl g ↦ absurd (ground arith)
    | inr (s, g) ↦ (s, g, ground arith, ground arith)
  ]

  test_bit : (c : ℕ) → c < a → a ≤ u32_max → test_ancestor_bitmap t c a ≡ true → Anc t a c
  test_bit c lt le e =
      let (s, g, b, h) = set_bit c e in
      subst (λ x. Anc t x c) (omega arith)
        (wf.bits_above c s (bit_of c a) (get-entry_of t c s g) b h)

  near-bit : (c : ℕ) → c ≢ 0 → c < a → test_ancestor_bitmap t c a ≡ true → near t a c ≡ some true
  unfolding near
  near-bit c n lt e = ground arith

  near-climb :
      (c : ℕ)
      → (ltb c a && test_ancestor_bitmap t c a) ≡ false
      → near t a c ≡ arrived a (climb (suc a) t a c)
  unfolding near
  near-climb c e = ground arith

  near-Decides : (c : ℕ) → c ≢ 0 → a ≤ u32_max → Decides t a c (near t a c)
  near-Decides c n le = elim (Bool-cases (ltb c a && test_ancestor_bitmap t c a)) [
    | inl e ↦ rw (near-bit c n (ground arith) (ground arith)) (record {
      answers = ground arith;
      sound = λ _. inr (test_bit c (ground arith) le (ground arith));
      complete = λ _. refl;
    })
    | inr e ↦ rw (near-climb c e) (climb-Decides t wf a a c n (omega arith))
  ]

  jump-end : (fuel c : ℕ) → a - is_ancestor_bitmap ≤ c → jump (suc fuel) t a c ≡ reached c
  unfolding jump
  jump-end fuel c le = ground arith

  jump-refused :
      (fuel c : ℕ)
      → c ≢ 0
      → c < a - is_ancestor_bitmap
      → get_ancestor_below t c a ≡ 0
      → jump (suc fuel) t a c ≡ refused
  unfolding jump
  jump-refused fuel c n lt e = ground arith

  jump-below :
      (fuel c : ℕ)
      → c ≢ 0
      → c < a - is_ancestor_bitmap
      → get_ancestor_below t c a ≢ 0
      → jump (suc fuel) t a c ≡ jump fuel t a (get_ancestor_below t c a)
  unfolding jump
  jump-below fuel c n lt e = ground arith

  jump_round :
      (fuel c : ℕ)
      → c ≢ 0
      → a ≤ u32_max
      → ((s : SnapshotT)
          → c < a
          → get t c ≡ some s
          → get_ancestor_below t c a ≢ 0
          → Decides t a c (then_near t a (jump fuel t a (get_ancestor_below t c a))))
      → Decides t a c (then_near t a (jump (suc fuel) t a c))
  unfolding then_near
  jump_round fuel c n le f = elim (dec_lt c (a - is_ancestor_bitmap)) [
    | no h ↦ rw (jump-end fuel c (omega arith)) (near-Decides c n le)
    | yes lt ↦ elim (Option-cases (get t c)) [
      | inl e ↦
          rw (jump-refused fuel c n lt (below-missing t wf a c (omega arith) e))
            (refuses (omega arith) (LiveAnc-missing e))
      | inr (s, e) ↦ elim (ℕ_discrete (get_ancestor_below t c a) 0) [
        | yes z ↦
            rw (jump-refused fuel c n lt z)
              (refuses (omega arith) (LiveAnc-root s e (below-root t wf a c (omega arith) s e z)))
        | no m ↦ rw (jump-below fuel c n lt m) (f s (omega arith) e m)
      ]
    ]
  ]

  -- So does the skip list, with the same number of rounds.
  jump-Decides :
      (fuel c : ℕ)
      → c ≢ 0
      → a ≤ u32_max
      → a ≤ fuel + c
      → Decides t a c (then_near t a (jump (suc fuel) t a c))
  jump-Decides zero c n le l = jump_round 0 c n le (λ s lt e m. absurd (omega arith))
  jump-Decides (suc fuel) c n le l = jump_round (suc fuel) c n le (λ s lt e m.
      ahead_jump t wf a c lt s _ e m (
        jump-Decides fuel (get_ancestor_below t c a) m le
          (omega (arith, below-lt t wf a c lt s e m))))

is_ancestor-same : (t : SnapshotTable) (a : ℕ) → is_ancestor t a a ≡ some true
unfolding is_ancestor
is_ancestor-same t a = ground arith

is_ancestor-beyond : (t : SnapshotTable) (id a : ℕ) → a < id → is_ancestor t id a ≡ some (id == a)
unfolding is_ancestor
is_ancestor-beyond t id a lt = ground arith

is_ancestor-near :
    (t : SnapshotTable) (id a : ℕ)
    → id ≢ 0
    → id < a
    → a < is_ancestor_bitmap
    → is_ancestor t id a ≡ near t a id
unfolding is_ancestor then_near
is_ancestor-near t id a n lt le = ground arith

is_ancestor-far :
    (t : SnapshotTable) (id a : ℕ)
    → id ≢ 0
    → id < a
    → is_ancestor_bitmap ≤ a
    → is_ancestor t id a ≡ then_near t a (jump (suc a) t a id)
unfolding is_ancestor
is_ancestor-far t id a n lt le = ground arith

-- In a well-formed table `is_ancestor id a` returns, for ids that are not 0. It returns `true` only if `a` is
-- `id` or is reached from `id` along parents, and it does return `true` if every snapshot before
-- `a` on the way is live.
pub is_ancestor_correct :
    (t : SnapshotTable) (id a : ℕ)
    → IsWellFormed t
    → id ≢ 0
    → a ≤ u32_max
    → Decides t a id (is_ancestor t id a)
is_ancestor_correct t id a wf n le = elim (compare-cases id a) [
  | inl lt ↦ elim (dec_lt a is_ancestor_bitmap) [
    | yes h ↦ rw (is_ancestor-near t id a n lt h) (near-Decides t wf a id n le)
    | no h ↦
        rw (is_ancestor-far t id a n lt (omega arith)) (jump-Decides t wf a a id n le (omega arith))
  ]
  | inr (inl e) ↦
      rw (e, is_ancestor-same t a)
        (record { answers = ground arith; sound = λ _. inl refl; complete = λ _. refl })
  | inr (inr gt) ↦ rw (is_ancestor-beyond t id a gt) (at_end t wf a id (omega arith))
]
