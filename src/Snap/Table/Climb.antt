-- ===== src/Snap/Table/Climb.antt =====
-- snap/table.rs: the climb from parent to parent, the last stage of `is_ancestor`.
use mathlib.Core.Path.{subst}
use volmount.Common.{
  ℕ, zero, suc, ◌+◌, ◌<◌, ◌≤◌, ◌≡◌, ◌≢◌, inl, inr, refl, arith, none, some, ◌==◌, Option-cases,
  dec_lt, ℕ_discrete,
}
use volmount.Snap.Meta.{SnapshotT}
use volmount.Snap.Table.{SnapshotTable, refused, reached, get, climb, arrived}
use volmount.Snap.Table.Path.{one, more, LiveAnc, IsWellFormed, get-entry_of}
use volmount.Snap.Table.Jump.{Decides, LiveAnc-missing, LiveAnc-root, refuses, ahead_parent}

module _ (t : SnapshotTable) (wf : IsWellFormed t) (a : ℕ) where
  LiveAnc-lt : {c : ℕ} → LiveAnc t a c → c < a
  LiveAnc-lt (one s e p n) = ground (arith, wf.parent_above _ s (get-entry_of t _ s e))
  LiveAnc-lt (more s e n h) =
      omega (arith, wf.parent_above _ s (get-entry_of t _ s e) n, LiveAnc-lt h)

  -- A loop that stops at once.
  pub at_end : (c : ℕ) → a ≤ c → Decides t a c (some (c == a))
  at_end c le = record {
    answers = ground arith;
    sound = λ e. inl (ground arith);
    complete =
        λ on. elim on [ inl e ↦ ground arith | inr l ↦ absurd (omega (arith, LiveAnc-lt l)) ];
  }

  climb-zero : (fuel : ℕ) → climb (suc fuel) t a 0 ≡ reached 0
  unfolding climb
  climb-zero fuel = refl

  climb-end : (fuel c : ℕ) → a ≤ c → climb (suc fuel) t a c ≡ reached c
  unfolding climb
  climb-end fuel c le = ground arith

  climb-missing : (fuel c : ℕ) → c ≢ 0 → c < a → get t c ≡ none → climb (suc fuel) t a c ≡ refused
  unfolding climb
  climb-missing fuel c n lt e = ground arith

  climb-parent :
      (fuel c : ℕ) (s : SnapshotT)
      → c ≢ 0
      → c < a
      → get t c ≡ some s
      → climb (suc fuel) t a c ≡ climb fuel t a s.parent
  unfolding climb
  climb-parent fuel c s n lt e = ground arith

  root_below :
      (c : ℕ) (s : SnapshotT)
      → c < a
      → get t c ≡ some s
      → s.parent ≡ 0
      → Decides t a c (some (0 == a))
  root_below c s lt e z =
      subst (λ b. Decides t a c (some b)) (ground arith) (refuses lt (LiveAnc-root s e z))

  climb_round :
      (fuel c : ℕ)
      → c ≢ 0
      → ((s : SnapshotT)
          → c < a
          → get t c ≡ some s
          → Decides t a c (arrived a (climb fuel t a s.parent)))
      → Decides t a c (arrived a (climb (suc fuel) t a c))
  climb_round fuel c n f = elim (dec_lt c a) [
    | no h ↦ rw (climb-end fuel c (omega arith)) (at_end c (omega arith))
    | yes lt ↦ elim (Option-cases (get t c)) [
      | inl e ↦ rw (climb-missing fuel c n lt e) (refuses lt (LiveAnc-missing e))
      | inr (s, e) ↦ rw (climb-parent fuel c s n lt e) (f s lt e)
    ]
  ]

  -- The climb decides, with one round for each id up to the ancestor.
  pub climb-Decides :
      (fuel c : ℕ) → c ≢ 0 → a ≤ fuel + c → Decides t a c (arrived a (climb (suc fuel) t a c))
  climb-Decides zero c n le = climb_round 0 c n (λ s lt e. absurd (omega arith))
  climb-Decides (suc fuel) c n le = climb_round (suc fuel) c n (λ s lt e.
      elim (ℕ_discrete s.parent 0) [
        | yes z ↦ rw (z, climb-zero fuel) (root_below c s lt e z)
        | no m ↦ ahead_parent t wf a c lt s _ e m (
            climb-Decides fuel s.parent m
              (omega (arith, wf.parent_above c s (get-entry_of t c s e) m)))
      ])
