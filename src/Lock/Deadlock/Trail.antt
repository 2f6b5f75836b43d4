-- ===== src/Lock/Deadlock/Trail.antt =====
-- lock/deadlock.rs: the stack is a trail of waiting transactions, and the visited ones are done with.
use mathlib.Core.Path.{subst}
use volmount.Common.{
  contains, ℕ, ◌≡◌, ◌≢◌, ◌⊎◌, inl, inr, refl, arith, true, false, none, some, List, [], ◌∷◌,
  ℕ_discrete, sym, ◌∙◌, Option-cases,
}
use volmount.Lock.Deadlock.{gray, black, DfsStackEntry, WaiterInfo, color_of}
use volmount.Lock.Deadlock.Waiters.{Waits}

-- A chain of one or more waits leads from `x` to an id.
pub data Reach (ws : List WaiterInfo) (x : ℕ) : ℕ → Type 0 where
  one : {y : ℕ} → Waits x y ws → Reach ws x y
  more : {y z : ℕ} → Reach ws x z → Waits z y ws → Reach ws x y

-- `start` is caught behind a cycle of waiters.
pub data Deadlock (ws : List WaiterInfo) (start : ℕ) : Type 0 where
  on_cycle : Reach ws start start → Deadlock ws start
  behind : (x : ℕ) → Reach ws start x → Reach ws x x → Deadlock ws start

abbrev pub InStack : ℕ → List DfsStackEntry → Type 0
InStack x s = color_of x s ≢ none

InStack-cases :
    (x : ℕ) (e : DfsStackEntry) (s : List DfsStackEntry)
    → InStack x (e ∷ s)
    → (e.trans_id ≡ x) ⊎ InStack x s
InStack-cases x e s h = elim (Option-cases (color_of x s)) [
  | inl n ↦ inl (ground arith)
  | inr (c, p) ↦ inr (λ z. absurd (grind arith))
]

pub top_in : (e : DfsStackEntry) (s : List DfsStackEntry) → InStack e.trans_id (e ∷ s)
top_in e s = ground arith

module _ (ws : List WaiterInfo) (start : ℕ) where
  -- All gray, each waiting for the one above it, from `start` up; no id twice, and none visited.
  pub data Trail (visited : List ℕ) : List DfsStackEntry → Type 0 where
    bottom :
        (e : DfsStackEntry)
        → e.state ≡ gray
        → e.trans_id ≡ start
        → contains e.trans_id visited ≡ false
        → Trail visited (e ∷ [])
    above :
        (e d : DfsStackEntry) (s : List DfsStackEntry)
        → e.state ≡ gray
        → Waits d.trans_id e.trans_id ws
        → color_of e.trans_id (d ∷ s) ≡ none
        → contains e.trans_id visited ≡ false
        → Trail visited (d ∷ s)
        → Trail visited (e ∷ d ∷ s)

  pub Trail-gray :
      {visited : List ℕ} {s : List DfsStackEntry} (x : ℕ)
      → Trail visited s
      → color_of x s ≢ some black
  Trail-gray x (bottom e g p v) = ground arith
  Trail-gray x (above e d s g w n v t) = ground (arith, Trail-gray x t)

  pub Trail-unseen :
      {visited : List ℕ} {s : List DfsStackEntry} (x : ℕ)
      → Trail visited s
      → InStack x s
      → contains x visited ≡ false
  Trail-unseen {visited} x (bottom e g p v) h = elim (InStack-cases x e [] h) [
    | inl q ↦ subst (λ z. contains z visited ≡ false) q v
    | inr k ↦ absurd (k refl)
  ]
  Trail-unseen {visited} x (above e d s g w n v t) h = elim (InStack-cases x e (d ∷ s) h) [
    | inl q ↦ subst (λ z. contains z visited ≡ false) q v
    | inr k ↦ Trail-unseen x t k
  ]

  -- Visiting another transaction keeps the trail.
  pub Trail-visit :
      {visited : List ℕ} {s : List DfsStackEntry} (x : ℕ)
      → Trail visited s
      → color_of x s ≡ none
      → Trail (x ∷ visited) s
  Trail-visit x (bottom e g p v) k = bottom e g p (ground arith)
  Trail-visit x (above e d s g w n v t) k =
      above e d s g w n (grind arith) (Trail-visit x t (grind arith))

  Reach-step : {x y z : ℕ} → (x ≡ y) ⊎ Reach ws x y → Waits y z ws → Reach ws x z
  Reach-step {x} {y} {z} (inl p) w = one (subst (λ v. Waits v z ws) (sym p) w)
  Reach-step (inr r) w = more r w

  -- A transaction of the trail is the top, or leads to it.
  pub Trail-top :
      {visited : List ℕ} (x : ℕ) (e : DfsStackEntry) (s : List DfsStackEntry)
      → Trail visited (e ∷ s)
      → InStack x (e ∷ s)
      → (x ≡ e.trans_id) ⊎ Reach ws x e.trans_id
  Trail-top x e s (bottom _ g p v) h = elim (InStack-cases x e [] h) [
    | inl q ↦ inl (sym q)
    | inr k ↦ absurd (k refl)
  ]
  Trail-top x e s (above _ d s' g w n v t) h = elim (InStack-cases x e (d ∷ s') h) [
    | inl q ↦ inl (sym q)
    | inr k ↦ inr (Reach-step (Trail-top x d s' t k) w)
  ]

  -- So the start does.
  pub Trail-start :
      {visited : List ℕ} {s : List DfsStackEntry} (x : ℕ)
      → Trail visited s
      → InStack x s
      → (start ≡ x) ⊎ Reach ws start x
  Trail-start x (bottom e g p v) h = elim (InStack-cases x e [] h) [
    | inl q ↦ inl (sym p ∙ q)
    | inr k ↦ absurd (k refl)
  ]
  Trail-start x (above e d s g w n v t) h = elim (InStack-cases x e (d ∷ s) h) [
    | inl q ↦ inr (subst (Reach ws start) q (Reach-step (Trail-start d.trans_id t (top_in d s)) w))
    | inr k ↦ Trail-start x t k
  ]

  -- A wait of the top for a transaction of the trail closes a cycle.
  pub cycle-Deadlock :
      {visited : List ℕ} (x : ℕ) (e : DfsStackEntry) (s : List DfsStackEntry)
      → Trail visited (e ∷ s)
      → color_of x (e ∷ s) ≡ some gray
      → Waits e.trans_id x ws
      → Deadlock ws start
  cycle-Deadlock x e s t c w =
      let i : InStack x (e ∷ s) = grind arith in
      let r = Reach-step (Trail-top x e s t i) w in
      elim (Trail-start x t i) [
        | inl p ↦ on_cycle (subst (λ z. Reach ws z z) (sym p) r)
        | inr q ↦ behind x q r
      ]

  -- A visited transaction waits only for ones that were visited before it.
  pub data Done : List ℕ → Type 0 where
    nothing : Done []
    after :
        (v : ℕ) (vs : List ℕ)
        → contains v vs ≡ false
        → ((h : ℕ) → Waits v h ws → contains h vs ≡ true)
        → Done vs
        → Done (v ∷ vs)

  Done-closed :
      {vs : List ℕ} (x h : ℕ) → Done vs → contains x vs ≡ true → Waits x h ws → contains h vs ≡ true
  Done-closed x h nothing c w = absurd (ground arith)
  Done-closed x h (after v vs n f d) c w = elim (ℕ_discrete v x) [
    | yes p ↦ ground (arith, f h (subst (λ z. Waits z h ws) (sym p) w))
    | no q ↦ ground (arith, Done-closed x h d (ground arith) w)
  ]

  Done-below :
      (v : ℕ) (vs : List ℕ) {y : ℕ}
      → Done vs
      → ((h : ℕ) → Waits v h ws → contains h vs ≡ true)
      → Reach ws v y
      → contains y vs ≡ true
  Done-below v vs d f (one w) = f _ w
  Done-below v vs d f (more {z = z} r w) = Done-closed z _ d (Done-below v vs d f r) w

  Done-acyclic : {vs : List ℕ} (x : ℕ) → Done vs → contains x vs ≡ true → ¬ Reach ws x x
  Done-acyclic x nothing c r = absurd (ground arith)
  Done-acyclic x (after v vs n f d) c r = elim (ℕ_discrete v x) [
    | yes p ↦
        let q = Done-below v vs d f (subst (λ z. Reach ws z z) (sym p) r) in absurd (grind arith)
    | no q ↦ Done-acyclic x d (ground arith) r
  ]

  Done-Reach :
      {vs : List ℕ} {x y : ℕ} → Done vs → contains x vs ≡ true → Reach ws x y → contains y vs ≡ true
  Done-Reach d c (one w) = Done-closed _ _ d c w
  Done-Reach d c (more r w) = Done-closed _ _ d (Done-Reach d c r) w

  -- When the start has been visited, it is behind no cycle.
  pub Done-free : {vs : List ℕ} → Done vs → contains start vs ≡ true → ¬ Deadlock ws start
  Done-free d c (on_cycle r) = Done-acyclic start d c r
  Done-free d c (behind x q r) = Done-acyclic x d (Done-Reach d c q) r
