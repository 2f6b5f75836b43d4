-- ===== src/Lock/Deadlock/Detect.antt =====
-- lock/deadlock.rs: `detect` returns, and its answer is right.
use volmount.Common.{
  contains, ℕ, zero, suc, ◌+◌, ◌*◌, ◌-◌, ◌≤◌, ◌<◌, ◌≡◌, ◌≢◌, refl, arith, Bool, true, false, Option,
  none, some, List, [], ◌∷◌, length, inl, inr, dec_lt,
}
use volmount.Lock.Deadlock.{
  gray, black, DfsStackEntry, WaiterInfo, Search, Scan, cycle, descend, no_more, scan, Round,
  answer, go_on, advance, visit, round, run, first_search, detect,
}
use volmount.Lock.Deadlock.Waiters.{Waits, Finds, finds_cycle, finds_new, finds_no_more, scan-Finds}
use volmount.Lock.Deadlock.Trail.{
  Deadlock, Trail, bottom, above, Trail-gray, Trail-visit, cycle-Deadlock, Done, nothing, after,
  Done-free,
}
use volmount.Lock.Deadlock.Fresh.{
  met, fresh, fresh-le, fresh_grows, fresh_met, met_leaves, met_black, met_pushed, met_new, unmet,
}

module _ (ws : List WaiterInfo) (start : ℕ) where
  -- What holds between two rounds: the stack is a trail, or one whose top has turned black, or empty.
  data Inv : Search → Type 0 where
    searching :
        (e : DfsStackEntry) (s : List DfsStackEntry) (visited : List ℕ)
        → Trail ws start visited (e ∷ s)
        → Done ws start visited
        → Inv (record { stack = e ∷ s; visited = visited })
    leaving :
        (e : DfsStackEntry) (s : List DfsStackEntry) (visited : List ℕ)
        → Trail ws start visited (e ∷ s)
        → ((h : ℕ) → Waits e.trans_id h ws → contains h visited ≡ true)
        → Done ws start visited
        → Inv (record { stack = record e { state = black } ∷ s; visited = visited })
    ended :
        (visited : List ℕ)
        → contains start visited ≡ true
        → Done ws start visited
        → Inv (record { stack = []; visited = visited })

  -- Rounds that are left at most.
  work : {s : Search} → Inv s → ℕ
  work {s} (searching e r v t d) = 3 * fresh (met s) ws + 2 * length s.stack
  work {s} (leaving e r v t f d) = 3 * fresh (met s) ws + 2 * length s.stack - 1
  work {s} (ended v c d) = 0

  -- An answer, or the next search, after one round.
  data Next (s : Search) (left : ℕ) : Round → Type 0 where
    says_true : Deadlock ws start → Next s left (answer true)
    says_false : ¬ Deadlock ws start → Next s left (answer false)
    too_deep : 64 ≤ length s.stack → Next s left (answer false)
    goes_on :
        (s' : Search) (j : Inv s')
        → work j < left
        → length s'.stack + fresh (met s') ws ≤ length s.stack + fresh (met s) ws
        → Next s left (go_on s')

  left_after :
      (e : DfsStackEntry) (r : List DfsStackEntry) (v : List ℕ)
      → fresh (met (record { stack = r; visited = e.trans_id ∷ v })) ws
        ≤ fresh (met (record { stack = record e { state = black } ∷ r; visited = v })) ws
  left_after e r v = fresh_grows _ _ (met_leaves e r v) ws

  leaving-Next :
      (e : DfsStackEntry) (r : List DfsStackEntry) (v : List ℕ)
      → (t : Trail ws start v (e ∷ r)) → (f : (h : ℕ) → Waits e.trans_id h ws → contains h v ≡ true)
      → (d : Done ws start v)
      → Next
          (record { stack = record e { state = black } ∷ r; visited = v })
          (work (leaving e r v t f d))
          (go_on (record { stack = r; visited = e.trans_id ∷ v }))
  unfolding work
  leaving-Next e r v (bottom _ g p u) f d =
      goes_on (record { stack = []; visited = e.trans_id ∷ v })
        (ended (e.trans_id ∷ v) (ground arith) (after e.trans_id v u f d)) (omega arith)
        (omega (arith, left_after e [] v))
  leaving-Next e r v (above _ c s g w n u t) f d =
      goes_on (record { stack = c ∷ s; visited = e.trans_id ∷ v })
        (searching c s (e.trans_id ∷ v) (Trail-visit ws start e.trans_id t n)
          (after e.trans_id v u f d))
        (omega (arith, left_after e (c ∷ s) v)) (omega (arith, left_after e (c ∷ s) v))

  advance-Next :
      (e : DfsStackEntry) (r : List DfsStackEntry) (v : List ℕ) (t : Trail ws start v (e ∷ r))
      (d : Done ws start v) (found : Scan)
      → Finds e.trans_id (e ∷ r) v ws found
      → Next
          (record { stack = e ∷ r; visited = v })
          (work (searching e r v t d))
          (advance e r v found)
  unfolding advance work
  advance-Next e r v t d cycle (finds_cycle h w c) = says_true (cycle-Deadlock ws start h e r t c w)
  advance-Next e r v t d (descend _) (finds_new h w n u) =
      let less =
        fresh_met _ _ (met_pushed h (e ∷ r) v) ws w (unmet h (e ∷ r) v n u) (met_new h (e ∷ r) v) in
      goes_on _
        (searching (record { trans_id = h; state = gray }) (e ∷ r) v
          (above (record { trans_id = h; state = gray }) e r refl w n u t) d)
        (omega (arith, less)) (omega (arith, less))
  advance-Next e r v t d no_more (finds_no_more g) =
      let same = fresh_grows _ _ (met_black e r v) ws in
      goes_on _
        (leaving e r v t
          (λ h w. elim (g h w) [ inl b ↦ absurd (Trail-gray ws start h t b) | inr c ↦ c ]) d)
        (omega (arith, same)) (omega (arith, same))

  top_gray :
      (e : DfsStackEntry) (r : List DfsStackEntry) (v : List ℕ)
      → Trail ws start v (e ∷ r)
      → e.state ≡ gray
  top_gray e r v (bottom _ g p u) = g
  top_gray e r v (above _ c s g w n u t) = g

  round-deep :
      (e : DfsStackEntry) (r : List DfsStackEntry) (v : List ℕ)
      → e.state ≡ gray
      → 64 ≤ length (e ∷ r)
      → round ws (record { stack = e ∷ r; visited = v }) ≡ answer false
  unfolding round visit
  round-deep e r v g le = ground arith

  round-gray :
      (e : DfsStackEntry) (r : List DfsStackEntry) (v : List ℕ)
      → e.state ≡ gray
      → length (e ∷ r) < 64
      → round ws (record { stack = e ∷ r; visited = v })
        ≡ advance e r v (scan e.trans_id (e ∷ r) v ws)
  unfolding round visit
  round-gray e r v g lt = ground arith

  round-Next : (s : Search) (i : Inv s) → Next s (work i) (round ws s)
  unfolding round visit
  round-Next _ (searching e r v t d) = elim (dec_lt (length (e ∷ r)) 64) [
    | yes lt ↦
        rw (round-gray e r v (top_gray e r v t) lt)
          (advance-Next e r v t d _ (scan-Finds e.trans_id (e ∷ r) v ws))
    | no n ↦ rw (round-deep e r v (top_gray e r v t) (omega arith)) (too_deep (omega arith))
  ]
  round-Next _ (leaving e r v t f d) = leaving-Next e r v t f d
  round-Next _ (ended v c d) = says_false (Done-free ws start d c)

  -- What an answer must satisfy: there is one; a deadlock that it reports is one; and if it reports
  -- none, while fewer than 63 transactions wait, there is none.
  pub record Verdict (found : Option Bool) : Type 0 where
    pub answers : found ≢ none
    pub sound : found ≡ some true → Deadlock ws start
    pub complete : length ws < 63 → found ≡ some false → ¬ Deadlock ws start

  after_round : ℕ → Round → Option Bool
  after_round fuel (answer b) = some b
  after_round fuel (go_on s') = run fuel ws s'

  run-after : (fuel : ℕ) (s : Search) → run (suc fuel) ws s ≡ after_round fuel (round ws s)
  unfolding run after_round
  run-after fuel s = refl

  after_round-Verdict :
      (fuel left : ℕ) (s : Search) (r : Round)
      → length s.stack + fresh (met s) ws ≤ suc (length ws)
      → ((s' : Search) (j : Inv s')
          → work j < left
          → length s'.stack + fresh (met s') ws ≤ suc (length ws)
          → Verdict (run fuel ws s'))
      → Next s left r
      → Verdict (after_round fuel r)
  unfolding after_round
  after_round-Verdict fuel left s (answer _) le f (says_true d) = record {
    answers = ground arith;
    sound = λ _. d;
    complete = λ _ e. absurd (ground arith);
  }
  after_round-Verdict fuel left s (answer _) le f (says_false n) = record {
    answers = ground arith;
    sound = λ e. absurd (ground arith);
    complete = λ _ _. n;
  }
  after_round-Verdict fuel left s (answer _) le f (too_deep d) = record {
    answers = ground arith;
    sound = λ e. absurd (ground arith);
    complete = λ small _. absurd (omega arith);
  }
  after_round-Verdict fuel left s (go_on _) le f (goes_on s' j lt b) = f s' j lt (omega arith)

  run-Verdict :
      (fuel : ℕ) (s : Search) (i : Inv s)
      → work i < fuel
      → length s.stack + fresh (met s) ws ≤ suc (length ws)
      → Verdict (run fuel ws s)
  run-Verdict zero s i lt le = absurd (omega arith)
  run-Verdict (suc fuel) s i lt le = rw (run-after fuel s) (
      after_round-Verdict fuel (work i) s (round ws s) le
        (λ s' j l b. run-Verdict fuel s' j (omega arith) b) (round-Next s i))

  first-Inv : Inv (first_search start)
  first-Inv =
      searching (record { trans_id = start; state = gray }) [] []
        (bottom (record { trans_id = start; state = gray }) refl refl refl) nothing

  first-work : work first-Inv < 3 * length ws + 3
  unfolding work first-Inv
  first-work = omega (arith, fresh-le (met (first_search start)) ws)

-- `detect` always returns. If it reports a deadlock, a chain of waits leads from the transaction to a
-- cycle of waits, or the transaction is on one; if it reports none, and there are fewer than 63
-- waiters, then there is no such cycle.
pub detect_correct :
    (start lock : ℕ) (ws : List WaiterInfo) → Verdict ws start (detect start lock ws)
unfolding detect
detect_correct start lock ws =
    run-Verdict ws start (3 * length ws + 3) (first_search start) (first-Inv ws start)
      (first-work ws start) (omega (arith, fresh-le (met (first_search start)) ws))
