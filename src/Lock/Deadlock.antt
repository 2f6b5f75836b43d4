-- ===== src/Lock/Deadlock.antt =====
-- lock/deadlock.rs: `DeadlockDetector::detect`, a depth-first search along the waiters. The stack
-- and the visited transactions are lists, latest first. The loop takes fuel.
pub mod Waiters
pub mod Fresh
pub mod Trail
pub mod Detect
use volmount.Common.{
  contains, ℕ, zero, suc, ◌+◌, ◌*◌, leb, ◌==◌, if◌then◌else◌, Bool, true, false, ◌||◌, Option, none,
  some, List, [], ◌∷◌, length,
}

pub data DfsColor : Type 0 where
  gray black : DfsColor

pub record DfsStackEntry : Type 0 where
  pub trans_id : ℕ
  pub state : DfsColor

pub record WaiterInfo : Type 0 where
  pub trans_id : ℕ
  pub lock_id : ℕ
  pub waiting_for_trans_id : ℕ

abbrev pub max_depth : ℕ
max_depth = 64

-- The color of the entry that `stack.iter().position(..)` finds, from the bottom.
abbrev pub color_of : ℕ → List DfsStackEntry → Option DfsColor
color_of x [] = none
color_of x (e ∷ es) = elim (color_of x es) [
  | some c ↦ some c
  | none ↦ if e.trans_id == x then some e.state else none
]

-- How the `for` over the waiters ends.
pub data Scan : Type 0 where
  cycle : Scan
  descend : ℕ → Scan
  no_more : Scan

abbrev verdict : Option DfsColor → Bool → ℕ → Scan → Scan
verdict (some gray) seen holder rest = cycle
verdict (some black) seen holder rest = rest
verdict none true holder rest = rest
verdict none false holder rest = descend holder

unfoldable pub scan : ℕ → List DfsStackEntry → List ℕ → List WaiterInfo → Scan
scan current stack visited [] = no_more
scan current stack visited (w ∷ ws) =
    let rest = scan current stack visited ws in
    let holder = w.waiting_for_trans_id in
    if w.trans_id == current
    then verdict (color_of holder stack) (contains holder visited) holder rest
    else rest

pub record Search : Type 0 where
  pub stack : List DfsStackEntry
  pub visited : List ℕ

pub data Round : Type 0 where
  answer : Bool → Round
  go_on : Search → Round

-- What a gray transaction on top of the stack leads to.
unfoldable pub advance : DfsStackEntry → List DfsStackEntry → List ℕ → Scan → Round
advance top below visited cycle = answer true
advance top below visited (descend holder) =
    go_on (record {
      stack = record { trans_id = holder; state = gray } ∷ top ∷ below;
      visited = visited;
    })
advance top below visited no_more =
    go_on (record { stack = record top { state = black } ∷ below; visited = visited })

-- One round of the `loop`, on the top of the stack by its color.
unfoldable pub visit :
    List WaiterInfo → DfsStackEntry → List DfsStackEntry → List ℕ → DfsColor → Round
unfolding scan advance
visit ws top below visited black =
    go_on (record { stack = below; visited = top.trans_id ∷ visited })
visit ws top below visited gray =
    if leb max_depth (length (top ∷ below))
    then answer false
    else advance top below visited (scan top.trans_id (top ∷ below) visited ws)

unfoldable pub round : List WaiterInfo → Search → Round
unfolding visit
round ws s = elim s.stack [
  | [] ↦ answer false
  | top ∷ below ↦ visit ws top below s.visited top.state
]

unfoldable pub run : ℕ → List WaiterInfo → Search → Option Bool
run zero ws s = none
run (suc fuel) ws s = elim (round ws s) [ answer b ↦ some b | go_on s' ↦ run fuel ws s' ]

abbrev pub first_search : ℕ → Search
first_search start = record { stack = record { trans_id = start; state = gray } ∷ []; visited = [] }

unfoldable pub detect : ℕ → ℕ → List WaiterInfo → Option Bool
detect start_trans_id start_lock_id waiters =
    run (3 * length waiters + 3) waiters (first_search start_trans_id)
