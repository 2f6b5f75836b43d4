-- ===== src/Snap/Table/Root.antt =====
-- snap/table.rs: `root` finds the root of a snapshot's tree.
use mathlib.Core.Path.{subst}
use volmount.Common.{
  ℕ, zero, suc, ◌+◌, ◌-◌, ◌<◌, ◌≤◌, ◌≡◌, ◌≢◌, ◌↔◌, inl, inr, refl, arith, none, some, ap, sym, ◌∙◌,
  Option-cases, ℕ_discrete,
}
use volmount.Snap.Meta.{SnapshotT}
use volmount.Snap.Table.{SnapshotTable, u32_max, get, root_from, root}
use volmount.Snap.Table.Path.{ParentsAbove, one, more, get-entry_of}
use volmount.Snap.Table.Jump.{OnPath, LiveAnc-missing, LiveAnc-step}

-- A live snapshot without a parent.
pub record IsRoot (t : SnapshotTable) (r : ℕ) : Type 0 where
  pub entry : SnapshotT
  pub live : get t r ≡ some entry
  pub no_parent : entry.parent ≡ 0

module _ (t : SnapshotTable) (above : ParentsAbove t) where
  root_from-missing : (fuel c : ℕ) → get t c ≡ none → root_from (suc fuel) t c ≡ some none
  unfolding root_from
  root_from-missing fuel c e = ground arith

  root_from-none : (c : ℕ) → root_from 0 t c ≡ none
  unfolding root_from
  root_from-none c = refl

  root_from-root :
      (fuel c : ℕ) (s : SnapshotT)
      → get t c ≡ some s
      → s.parent ≡ 0
      → root_from (suc fuel) t c ≡ some (some c)
  unfolding root_from
  root_from-root fuel c s e z = ground arith

  root_from-parent :
      (fuel c : ℕ) (s : SnapshotT)
      → get t c ≡ some s
      → s.parent ≢ 0
      → root_from (suc fuel) t c ≡ root_from fuel t s.parent
  unfolding root_from
  root_from-parent fuel c s e n = ground arith

  root_from-ends : (fuel c : ℕ) → c ≤ u32_max → u32_max < fuel + c → root_from fuel t c ≢ none
  root_from-ends zero c le lt = absurd (omega arith)
  root_from-ends (suc fuel) c le lt = elim (Option-cases (get t c)) [
    | inl e ↦ rw (root_from-missing fuel c e) (ground arith)
    | inr (s, e) ↦ elim (ℕ_discrete s.parent 0) [
      | yes z ↦ rw (root_from-root fuel c s e z) (ground arith)
      | no n ↦
          let (l, m) = above.parent_above c s (get-entry_of t c s e) n in
          rw (root_from-parent fuel c s e n) (root_from-ends fuel s.parent m (omega arith))
    ]
  ]

  ahead :
      (r c : ℕ) (s : SnapshotT)
      → get t c ≡ some s
      → s.parent ≢ 0
      → OnPath t r s.parent
      → OnPath t r c
  ahead r c s e n (inl p) = inr (one s e p (λ z. n (p ∙ z)))
  ahead r c s e n (inr l) = inr (more s e n l)

  root_from_sound : (fuel c r : ℕ) → root_from fuel t c ≡ some (some r) → OnPath t r c × IsRoot t r
  root_from_sound zero c r h = absurd (grind (arith, root_from-none c))
  root_from_sound (suc fuel) c r h = elim (Option-cases (get t c)) [
    | inl e ↦ absurd (grind (arith, root_from-missing fuel c e))
    | inr (s, e) ↦ elim (ℕ_discrete s.parent 0) [
      | yes z ↦
          let p : c ≡ r = grind (arith, root_from-root fuel c s e z) in
          (inl p, subst (IsRoot t) p (record { entry = s; live = e; no_parent = z }))
      | no n ↦
          let (on, i) = root_from_sound fuel s.parent r (sym (root_from-parent fuel c s e n) ∙ h) in
          (ahead r c s e n on, i)
    ]
  ]

  root_from_complete :
      (fuel c r : ℕ)
      → c ≤ u32_max
      → u32_max < fuel + c
      → OnPath t r c
      → IsRoot t r
      → root_from fuel t c ≡ some (some r)
  root_from_complete zero c r le lt on i = absurd (omega arith)
  root_from_complete (suc fuel) c r le lt (inl p) i =
      root_from-root fuel c i.entry (ap (get t) p ∙ i.live) i.no_parent ∙ ap (λ x. some (some x)) p
  root_from_complete (suc fuel) c r le lt (inr l) i = elim (Option-cases (get t c)) [
    | inl e ↦ absurd (LiveAnc-missing e l)
    | inr (s, e) ↦
        let (n, on) = LiveAnc-step s e l in
        let (lt', le') = above.parent_above c s (get-entry_of t c s e) n in
        root_from-parent fuel c s e n ∙ root_from_complete fuel s.parent r le' (omega arith) on i
  ]

-- `root` returns, in a table whose parents are above their children, and it returns `r` exactly when
-- `r` is a live snapshot without a parent that is `id` or is reached from it through live ones.
pub root_correct :
    (t : SnapshotTable) (id : ℕ)
    → ParentsAbove t
    → id ≤ u32_max
    → (root t id ≢ none) × ((r : ℕ) → (root t id ≡ some (some r)) ↔ (OnPath t r id × IsRoot t r))
unfolding root
root_correct t id above le = (
  root_from-ends t above (suc (u32_max - id)) id le (omega arith),
  λ r. (
    root_from_sound t above (suc (u32_max - id)) id r,
    λ (on, i). root_from_complete t above (suc (u32_max - id)) id r le (omega arith) on i,
  ),
)
