-- ===== src/Alloc/Reservation/Ledger.antt =====
-- alloc/reservation.rs: one tracker with all its live reservations, under any sequence of calls.
use volmount.Common.{
  ℕ, ◌+◌, ◌*◌, ◌^◌, ◌≤◌, ◌<◌, ◌≡◌, arith, Result, ok, err, List, [], ◌∷◌, none, some, get_elem?,
  set, total, total-set, total-get-le, Option-cases, inl, inr, u64, refl, ◌∙◌,
}
use volmount.Alloc.Bucket.{BchDataType}
use volmount.Alloc.Reservation.{
  BchReservationFlags, no_flags, nofail, partial, DiskReservation, ReservationTracker,
  bch2_disk_reservation_add, bch2_disk_reservation_get, bch2_disk_reservation_commit,
  bch2_disk_reservation_put, AddressSpaceExhausted,
}
use volmount.Alloc.Reservation.Calls.{Moves, add-Moves, commit-Moves, put-Moves}

pub record Ledger : Type 0 where
  pub tracker : ReservationTracker
  pub live : List DiskReservation

-- A call on the `i`-th live reservation; `get` makes a new one.
pub data Call : Type 0 where
  add : (i sectors : ℕ) → BchDataType → BchReservationFlags → Call
  get : (sectors nr_replicas : ℕ) → BchDataType → BchReservationFlags → Call
  commit : (i used_sectors : ℕ) → Call
  put : (i : ℕ) → Call

-- The call's effect on the reservation that it names, given the tracker and that reservation.
on_one : Call → ReservationTracker → DiskReservation → ReservationTracker × DiskReservation
on_one (add i s d f) t r = let (_, t', r') = bch2_disk_reservation_add t r s d f in (t', r')
on_one (get s n d f) t r = (t, r)
on_one (commit i used) t r = bch2_disk_reservation_commit t r used
on_one (put i) t r = bch2_disk_reservation_put t r

at : ℕ → Call → Ledger → Ledger
unfolding on_one
at i c l = elim (get_elem? l.live i) [
  | none ↦ l
  | some r ↦ let (t', r') = on_one c l.tracker r in record { tracker = t'; live = set l.live i r' }
]

opened :
    ReservationTracker
    → List DiskReservation
    → Result DiskReservation AddressSpaceExhausted × ReservationTracker
    → Ledger
opened t live (ok r, t') = record { tracker = t'; live = r ∷ live }
opened t live (err e, t') = record { tracker = t'; live = live }

unfoldable pub call : Call → Ledger → Ledger
unfolding at opened
call (add i s d f) l = at i (add i s d f) l
call (get s n d f) l = opened l.tracker l.live (bch2_disk_reservation_get l.tracker s n d f)
call (commit i used) l = at i (commit i used) l
call (put i) l = at i (put i) l

unfoldable pub calls : List Call → Ledger → Ledger
unfolding call
calls [] l = l
calls (c ∷ cs) l = calls cs (call c l)

-- The sectors that a call asks for.
abbrev pub requested : Call → ℕ
requested (add i s d f) = s
requested (get s n d f) = u64 (s * n)
requested (commit i used) = 0
requested (put i) = 0

abbrev sectors_of : DiskReservation → ℕ
sectors_of r = r.sectors

-- The tracker counts exactly the sectors of the live reservations.
abbrev pub IsBalanced : Ledger → Type 0
IsBalanced l = l.tracker.total_reserved ≡ total (λ r. r.sectors) l.live

on_one-Moves :
    (c : Call) (t : ReservationTracker) (r : DiskReservation)
    → r.sectors ≤ t.total_reserved
    → t.total_reserved + requested c < 2 ^ 64
    → let (t', r') = on_one c t r in
      Moves t r t' r' × (t'.total_reserved ≤ t.total_reserved + requested c)
unfolding on_one
on_one-Moves (add i s d f) t r h fits = let (m, _, up) = add-Moves t r s d f h fits in (m, up)
on_one-Moves (get s n d f) t r h fits = omega arith
on_one-Moves (commit i used) t r h fits =
    let (m, e) = commit-Moves t r used h (omega arith) in (m, omega (arith, m.same, e))
on_one-Moves (put i) t r h fits =
    let (m, e) = put-Moves t r h (omega arith) in (m, omega (arith, m.same, e))

-- What a call keeps of a balanced ledger, and how far it may go.
record Keeps (c : Call) (l l' : Ledger) : Type 0 where
  balanced : IsBalanced l'
  budget : l'.tracker.max_reserved ≡ l.tracker.max_reserved
  up : l'.tracker.total_reserved ≤ l.tracker.total_reserved + requested c

at-Keeps :
    (i : ℕ) (c : Call) (l : Ledger)
    → IsBalanced l
    → l.tracker.total_reserved + requested c < 2 ^ 64
    → Keeps c l (at i c l)
unfolding at
at-Keeps i c l b fits = elim (Option-cases (get_elem? l.live i)) [
  | inl e ↦ rw (e, at) (record { balanced = b; budget = refl; up = omega arith })
  | inr (r, e) ↦
      let le = total-get-le (λ x. x.sectors) l.live i r e in
      let (m, up) = on_one-Moves c l.tracker r (omega (arith, le, b)) fits in
      rw (e, at)
        (record {
          balanced =
              omega (
                arith,
                m.same,
                b,
                total-set (λ x. x.sectors) l.live i r (on_one c l.tracker r).1 e,
              );
          budget = m.budget;
          up = up;
        })
]

get-Keeps :
    (s n : ℕ) (d : BchDataType) (f : BchReservationFlags) (l : Ledger)
    → IsBalanced l
    → l.tracker.total_reserved + u64 (s * n) < 2 ^ 64
    → Keeps (get s n d f) l (call (get s n d f) l)
unfolding call bch2_disk_reservation_get
get-Keeps s n d no_flags l b fits = ground arith
get-Keeps s n d nofail l b fits = ground arith
get-Keeps s n d partial l b fits = ground arith

call-Keeps :
    (c : Call) (l : Ledger)
    → IsBalanced l
    → l.tracker.total_reserved + requested c < 2 ^ 64
    → Keeps c l (call c l)
unfolding call
call-Keeps (add i s d f) l b fits = at-Keeps i (add i s d f) l b fits
call-Keeps (get s n d f) l b fits = get-Keeps s n d f l b fits
call-Keeps (commit i used) l b fits = at-Keeps i (commit i used) l b fits
call-Keeps (put i) l b fits = at-Keeps i (put i) l b fits

-- In every run of calls whose requests fit in a `u64` together, the tracker counts exactly the
-- sectors of the live reservations, and its budget never changes.
pub calls-IsBalanced :
    (cs : List Call) (l : Ledger)
    → IsBalanced l
    → l.tracker.total_reserved + total requested cs < 2 ^ 64
    → IsBalanced (calls cs l) × ((calls cs l).tracker.max_reserved ≡ l.tracker.max_reserved)
unfolding calls
calls-IsBalanced [] l b fits = (b, refl)
calls-IsBalanced (c ∷ cs) l b fits =
    let k = call-Keeps c l b (omega arith) in
    let (b', e) = calls-IsBalanced cs (call c l) k.balanced (omega (arith, k.up)) in
    (b', e ∙ k.budget)
