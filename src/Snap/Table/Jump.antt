-- ===== src/Snap/Table/Jump.antt =====
-- snap/table.rs: what an answer to a question of ancestry must satisfy, and how one at an ancestor
-- serves its descendants.
use mathlib.Core.Path.{subst}
use volmount.Common.{
  ℕ, ◌<◌, ◌≤◌, ◌≡◌, ◌≢◌, ◌⊎◌, inl, inr, refl, arith, Option, none, some, Bool, true, false, sym,
  ◌∙◌,
}
use volmount.Snap.Meta.{SnapshotT}
use volmount.Snap.Table.{SnapshotTable, get, get_ancestor_below}
use volmount.Snap.Table.Path.{
  Anc, LiveAnc, one, more, IsWellFormed, get-entry_of, Anc-trans, Anc-lt, LiveAnc-after,
}

-- `c` is `a`, or below it with live snapshots between.
abbrev pub OnPath : SnapshotTable → ℕ → ℕ → Type 0
OnPath t a c = (c ≡ a) ⊎ LiveAnc t a c

-- An answer on whether `a` is an ancestor of `c`: there is one, it is never wrong, and it is `true`
-- when the snapshots between are live.
pub record Decides (t : SnapshotTable) (a c : ℕ) (answer : Option Bool) : Type 0 where
  pub answers : answer ≢ none
  pub sound : answer ≡ some true → (c ≡ a) ⊎ Anc t a c
  pub complete : OnPath t a c → answer ≡ some true

pub same_parent :
    {o : Option SnapshotT} (s s' : SnapshotT) → o ≡ some s → o ≡ some s' → s.parent ≡ s'.parent
same_parent s s' e f = grind arith

pub LiveAnc-step :
    {t : SnapshotTable} {a c : ℕ} (s : SnapshotT)
    → get t c ≡ some s
    → LiveAnc t a c
    → (s.parent ≢ 0) × OnPath t a s.parent
LiveAnc-step s e (one s' f p n) =
    (λ z. n (sym p ∙ sym (same_parent s s' e f) ∙ z), inl (same_parent s s' e f ∙ p))
LiveAnc-step {t} {a} s e (more s' f n h) = (
  λ z. n (sym (same_parent s s' e f) ∙ z),
  inr (subst (LiveAnc t a) (sym (same_parent s s' e f)) h),
)

LiveAnc-get : {t : SnapshotTable} {a c : ℕ} → LiveAnc t a c → get t c ≢ none
LiveAnc-get (one s e p n) = grind arith
LiveAnc-get (more s e n h) = grind arith

-- No live path starts at a snapshot that is missing, deleted, or without a parent.
pub LiveAnc-missing : {t : SnapshotTable} {a c : ℕ} → get t c ≡ none → ¬ LiveAnc t a c
LiveAnc-missing e h = LiveAnc-get h e

pub LiveAnc-root :
    {t : SnapshotTable} {a c : ℕ} (s : SnapshotT)
    → get t c ≡ some s
    → s.parent ≡ 0
    → ¬ LiveAnc t a c
LiveAnc-root s e z h = (LiveAnc-step s e h).0 z

pub refuses : {t : SnapshotTable} {a c : ℕ} → c < a → ¬ LiveAnc t a c → Decides t a c (some false)
refuses {t} {a} {c} lt h = record {
  answers = grind arith;
  sound = λ e. absurd (grind arith);
  complete = λ on. elim on [ inl e ↦ absurd (omega arith) | inr l ↦ absurd (h l) ];
}

module _ (t : SnapshotTable) (wf : IsWellFormed t) (a c : ℕ) (lt : c < a) where
  -- An answer at an ancestor that no live path passes by serves its descendant.
  ahead :
      (x : ℕ) (o : Option Bool)
      → Anc t x c
      → (LiveAnc t a c → OnPath t a x)
      → Decides t a x o
      → Decides t a c o
  ahead x o h f d = record {
    answers = d.answers;
    sound = λ e. elim (d.sound e) [
      | inl p ↦ inr (subst (λ y. Anc t y c) p h)
      | inr k ↦ inr (Anc-trans h k)
    ];
    complete = λ on. elim on [ inl e ↦ absurd (omega arith) | inr l ↦ d.complete (f l) ];
  }

  pub ahead_parent :
      (s : SnapshotT) (o : Option Bool)
      → get t c ≡ some s
      → s.parent ≢ 0
      → Decides t a s.parent o
      → Decides t a c o
  ahead_parent s o e n =
      ahead s.parent o (one s (get-entry_of t c s e) refl n) (λ l. (LiveAnc-step s e l).1)

  pub ahead_below :
      (x : ℕ) (o : Option Bool) → Anc t x c → x ≤ a → Decides t a x o → Decides t a c o
  ahead_below x o h le = ahead x o h (λ l. LiveAnc-after t wf h l le)

  -- Where the skip list leads from a snapshot that has a parent.
  below_cases :
      (s : SnapshotT)
      → get t c ≡ some s
      → get_ancestor_below t c a ≢ 0
      → (get_ancestor_below t c a ≡ s.parent)
        ⊎ (Anc t (get_ancestor_below t c a) c × (get_ancestor_below t c a ≤ a))
  unfolding get_ancestor_below
  below_cases s e n = ground (
    arith,
    wf.skip0_above c s (get-entry_of t c s e),
    wf.skip1_above c s (get-entry_of t c s e),
    wf.skip2_above c s (get-entry_of t c s e),
  )

  pub below-missing : get t c ≡ none → get_ancestor_below t c a ≡ 0
  unfolding get_ancestor_below
  below-missing e = ground arith

  pub below-root : (s : SnapshotT) → get t c ≡ some s → get_ancestor_below t c a ≡ 0 → s.parent ≡ 0
  unfolding get_ancestor_below
  below-root s e z = ground arith

  pub below-lt :
      (s : SnapshotT)
      → get t c ≡ some s
      → get_ancestor_below t c a ≢ 0
      → c < get_ancestor_below t c a
  below-lt s e n = elim (below_cases s e n) [
    | inl p ↦ omega (arith, wf.parent_above c s (get-entry_of t c s e) (λ z. n (p ∙ z)), p)
    | inr (h, le) ↦ Anc-lt t wf h
  ]

  pub ahead_jump :
      (s : SnapshotT) (o : Option Bool)
      → get t c ≡ some s
      → get_ancestor_below t c a ≢ 0
      → Decides t a (get_ancestor_below t c a) o
      → Decides t a c o
  ahead_jump s o e n d = elim (below_cases s e n) [
    | inl p ↦ ahead_parent s o e (λ z. n (p ∙ z)) (subst (λ x. Decides t a x o) p d)
    | inr (h, le) ↦ ahead_below (get_ancestor_below t c a) o h le d
  ]
