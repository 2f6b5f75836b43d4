-- ===== src/Journal/ResState/Reservations/Held.antt =====
-- journal/types.rs: lists of held reservations.
use mathlib.Core.Path.{subst}
use volmount.Common.{
  ℕ, zero, suc, ◌+◌, ◌≡◌, ◌≢◌, refl, arith, some, List, [], ◌∷◌, get_elem?, if◌then◌else◌, ◌==◌,
  All,
}
use volmount.Journal.ResState.Fields.{Parts, count}
use volmount.Journal.ResState.Reservations.{JournalRes, remove, held_in, Apart, AllApart}

-- The counts do not depend on the offset or the open buffer.
pub count_rest : (p : Parts) (o x j : ℕ) → count (record p { offset = o; index = x }) j ≡ count p j
unfolding count
count_rest p o x zero = refl
count_rest p o x (suc zero) = refl
count_rest p o x (suc (suc zero)) = refl
count_rest p o x (suc (suc (suc j))) = refl

pub held_in-remove :
    (rs : List JournalRes) (k : ℕ) (r : JournalRes) (j : ℕ)
    → get_elem? rs k ≡ some r
    → held_in j rs ≡ held_in j (remove rs k) + (if r.buf_idx == j then 1 else 0)
unfolding held_in
held_in-remove [] k r j e = absurd (cc)
held_in-remove (x ∷ rs) zero r j e = ground arith
held_in-remove (x ∷ rs) (suc k) r j e = omega (arith, held_in-remove rs k r j e)

pub All-remove {κ} :
    (P : JournalRes → Type κ) (rs : List JournalRes) (k : ℕ) → All P rs → All P (remove rs k)
All-remove P [] k h = tt
All-remove P (r ∷ rs) zero h = h.1
All-remove P (r ∷ rs) (suc k) h = (h.0, All-remove P rs k h.1)

pub All-get {κ} :
    (P : JournalRes → Type κ) (rs : List JournalRes) (k : ℕ) (r : JournalRes)
    → get_elem? rs k ≡ some r
    → All P rs
    → P r
All-get P [] k r e h = absurd (cc)
All-get P (x ∷ rs) zero r e h = let q : x ≡ r = cc in subst P q h.0
All-get P (x ∷ rs) (suc k) r e h = All-get P rs k r e h.1

pub AllApart-remove : (rs : List JournalRes) (k : ℕ) → AllApart rs → AllApart (remove rs k)
AllApart-remove [] k h = tt
AllApart-remove (r ∷ rs) zero h = h.1
AllApart-remove (r ∷ rs) (suc k) h = (All-remove (Apart r) rs k h.0, AllApart-remove rs k h.1)

-- With none held in buffer `i`, every held reservation is of another buffer.
pub none_held : (rs : List JournalRes) (i : ℕ) → held_in i rs ≡ 0 → All (λ r. r.buf_idx ≢ i) rs
unfolding held_in
none_held [] i h = tt
none_held (r ∷ rs) i h = (λ e. ground arith, none_held rs i (omega arith))
