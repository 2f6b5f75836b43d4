-- ===== src/Lock/Deadlock/Fresh.antt =====
-- lock/deadlock.rs: the waiters whose holder the search has not met yet get fewer.
use volmount.Common.{
  contains, ℕ, ◌+◌, ◌≤◌, ◌<◌, ◌≡◌, arith, Bool, true, false, none, some, List, [], ◌∷◌, length,
  if◌then◌else◌, ap, ◌∙◌,
}
use volmount.Lock.Deadlock.{gray, black, DfsStackEntry, WaiterInfo, color_of, Search}
use volmount.Lock.Deadlock.Waiters.{Waits, here, there}

-- The search has met a transaction: it is on the stack, or visited.
unfoldable pub met : Search → ℕ → Bool
met s x = elim (color_of x s.stack) [ some c ↦ true | none ↦ contains x s.visited ]

unfoldable pub fresh : (ℕ → Bool) → List WaiterInfo → ℕ
fresh known [] = 0
fresh known (w ∷ ws) = (if known w.waiting_for_trans_id then 0 else 1) + fresh known ws

pub fresh-le : (known : ℕ → Bool) (ws : List WaiterInfo) → fresh known ws ≤ length ws
unfolding fresh
fresh-le known [] = omega arith
fresh-le known (w ∷ ws) = ground (arith, fresh-le known ws)

module _ (known known' : ℕ → Bool) (grows : (x : ℕ) → known x ≡ true → known' x ≡ true) where
  pub fresh_grows : (ws : List WaiterInfo) → fresh known' ws ≤ fresh known ws
  unfolding fresh
  fresh_grows [] = omega arith
  fresh_grows (w ∷ ws) = ground (arith, fresh_grows ws, grows w.waiting_for_trans_id)

  pub fresh_met :
      {x h : ℕ} (ws : List WaiterInfo)
      → Waits x h ws
      → known h ≡ false
      → known' h ≡ true
      → fresh known' ws < fresh known ws
  unfolding fresh
  fresh_met [] k e f = elim k [ ]
  fresh_met (w ∷ ws) (here p q) e f =
      ground (arith, fresh_grows ws, ap known q ∙ e, ap known' q ∙ f)
  fresh_met (w ∷ ws) (there k) e f =
      ground (arith, fresh_met ws k e f, grows w.waiting_for_trans_id)

-- A transaction that leaves the stack is met as before.
pub met_leaves :
    (e : DfsStackEntry) (r : List DfsStackEntry) (v : List ℕ) (x : ℕ)
    → met (record { stack = record e { state = black } ∷ r; visited = v }) x ≡ true
    → met (record { stack = r; visited = e.trans_id ∷ v }) x ≡ true
unfolding met
met_leaves e r v x h = ground arith

pub met_black :
    (e : DfsStackEntry) (r : List DfsStackEntry) (v : List ℕ) (x : ℕ)
    → met (record { stack = e ∷ r; visited = v }) x ≡ true
    → met (record { stack = record e { state = black } ∷ r; visited = v }) x ≡ true
unfolding met
met_black e r v x h = ground arith

pub met_pushed :
    (y : ℕ) (r : List DfsStackEntry) (v : List ℕ) (x : ℕ)
    → met (record { stack = r; visited = v }) x ≡ true
    → met (record { stack = record { trans_id = y; state = gray } ∷ r; visited = v }) x ≡ true
unfolding met
met_pushed y r v x h = ground arith

pub met_new :
    (y : ℕ) (r : List DfsStackEntry) (v : List ℕ)
    → met (record { stack = record { trans_id = y; state = gray } ∷ r; visited = v }) y ≡ true
unfolding met
met_new y r v = ground arith

pub unmet :
    (y : ℕ) (r : List DfsStackEntry) (v : List ℕ)
    → color_of y r ≡ none
    → contains y v ≡ false
    → met (record { stack = r; visited = v }) y ≡ false
unfolding met
unmet y r v n c = ground arith
