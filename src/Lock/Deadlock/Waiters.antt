-- ===== src/Lock/Deadlock/Waiters.antt =====
-- lock/deadlock.rs: what the `for` over the waiters of one transaction finds.
use mathlib.Core.Path.{subst}
use volmount.Common.{
  contains, ℕ, ◌≡◌, ◌≢◌, ◌⊎◌, inl, inr, refl, arith, Bool, true, false, Option, none, some, List,
  [], ◌∷◌, ℕ_discrete,
}
use volmount.Lock.Deadlock.{
  DfsColor, gray, black, DfsStackEntry, WaiterInfo, color_of, Scan, cycle, descend, no_more, scan,
  verdict,
}

-- Transaction `x` waits for a lock that `y` holds.
pub data Waits (x y : ℕ) : List WaiterInfo → Type 0 where
  here :
      {w : WaiterInfo} {ws : List WaiterInfo}
      → w.trans_id ≡ x
      → w.waiting_for_trans_id ≡ y
      → Waits x y (w ∷ ws)
  there : {w : WaiterInfo} {ws : List WaiterInfo} → Waits x y ws → Waits x y (w ∷ ws)

Waits-cases :
    {x y : ℕ} {w : WaiterInfo} {ws : List WaiterInfo}
    → Waits x y (w ∷ ws)
    → ((w.trans_id ≡ x) × (w.waiting_for_trans_id ≡ y)) ⊎ Waits x y ws
Waits-cases (here p q) = inl (p, q)
Waits-cases (there h) = inr h

not_Waits-nil : {x y : ℕ} → ¬ Waits x y []
not_Waits-nil h = elim h [ ]

module _ (current : ℕ) (stack : List DfsStackEntry) (visited : List ℕ) where
  abbrev Passed : ℕ → Type 0
  Passed h = (color_of h stack ≡ some black) ⊎ (contains h visited ≡ true)

  -- What an end of the scan says of the waiters that it went over.
  pub data Finds (ws : List WaiterInfo) : Scan → Type 0 where
    finds_cycle : (h : ℕ) → Waits current h ws → color_of h stack ≡ some gray → Finds ws cycle
    finds_new :
        (h : ℕ)
        → Waits current h ws
        → color_of h stack ≡ none
        → contains h visited ≡ false
        → Finds ws (descend h)
    finds_no_more :
        ((h : ℕ)
          → Waits current h ws
          → (color_of h stack ≡ some black) ⊎ (contains h visited ≡ true))
        → Finds ws no_more

  passes :
      (w : WaiterInfo) (ws : List WaiterInfo) (r : Scan)
      → (w.trans_id ≡ current → Passed w.waiting_for_trans_id)
      → Finds ws r
      → Finds (w ∷ ws) r
  passes w ws cycle f (finds_cycle h k e) = finds_cycle h (there k) e
  passes w ws (descend _) f (finds_new h k e c) = finds_new h (there k) e c
  passes w ws no_more f (finds_no_more g) =
      finds_no_more
        (λ h k. elim (Waits-cases k) [ inl (p, q) ↦ subst Passed q (f p) | inr k' ↦ g h k' ])

  scan-other :
      (w : WaiterInfo) (ws : List WaiterInfo)
      → w.trans_id ≢ current
      → scan current stack visited (w ∷ ws) ≡ scan current stack visited ws
  unfolding scan
  scan-other w ws n = ground arith

  scan-mine :
      (w : WaiterInfo) (ws : List WaiterInfo)
      → w.trans_id ≡ current
      → scan current stack visited (w ∷ ws)
        ≡ verdict
            (color_of w.waiting_for_trans_id stack)
            (contains w.waiting_for_trans_id visited)
            w.waiting_for_trans_id
            (scan current stack visited ws)
  unfolding scan
  scan-mine w ws e = ground arith

  verdict-Finds :
      (w : WaiterInfo) (ws : List WaiterInfo) (c : Option DfsColor) (seen : Bool) (r : Scan)
      → w.trans_id ≡ current
      → color_of w.waiting_for_trans_id stack ≡ c
      → contains w.waiting_for_trans_id visited ≡ seen
      → Finds ws r
      → Finds (w ∷ ws) (verdict c seen w.waiting_for_trans_id r)
  verdict-Finds w ws (some gray) seen r p e s f = finds_cycle w.waiting_for_trans_id (here p refl) e
  verdict-Finds w ws (some black) seen r p e s f = passes w ws r (λ _. inl e) f
  verdict-Finds w ws none true r p e s f = passes w ws r (λ _. inr s) f
  verdict-Finds w ws none false r p e s f = finds_new w.waiting_for_trans_id (here p refl) e s

  pub scan-Finds : (ws : List WaiterInfo) → Finds ws (scan current stack visited ws)
  unfolding scan
  scan-Finds [] = finds_no_more (λ h k. absurd (not_Waits-nil k))
  scan-Finds (w ∷ ws) = elim (ℕ_discrete w.trans_id current) [
    | no n ↦
        rw (scan-other w ws n)
          (passes w ws (scan current stack visited ws) (λ e. absurd (n e)) (scan-Finds ws))
    | yes e ↦
        rw (scan-mine w ws e)
          (verdict-Finds w ws _ _ (scan current stack visited ws) e refl refl (scan-Finds ws))
  ]
