-- ===== src/Alloc/OpenBucket/Pins/Count.antt =====
-- alloc/open_bucket.rs: pins that are taken and given back.
use mathlib.Core.Path.{fun_ext}
use volmount.Common.{
  ℕ, ◌+◌, ◌-◌, ◌^◌, ◌<◌, ◌≤◌, ◌≡◌, ◌≢◌, refl, arith, ◌==◌, false, ap, u32, ℕ_discrete, ==_same,
  ==_differs, Bool, if◌then◌else◌, true, ◌⊎◌, inl, inr, Bool-cases, ◌∙◌,
}
use volmount.Alloc.OpenBucket.{OpenBucket, BchOpenBuckets, put}
use volmount.Alloc.OpenBucket.Pins.{inc_pin, dec_pin_and_put, pin_up, pin_down}

down_up : (n : ℕ) → n + 1 < 2 ^ 32 → u32 (u32 (n + 1) + 2 ^ 32 - 1) ≡ n
down_up n lt = omega arith

entry_back :
    (e : OpenBucket)
    → e.pin + 1 < 2 ^ 32
    → record e { pin = u32 (u32 (e.pin + 1) + 2 ^ 32 - 1) } ≡ e
entry_back e lt = ap (λ n. record e { pin = n }) (down_up e.pin lt)

still_pinned :
    (i : ℕ) (p : BchOpenBuckets)
    → 1 ≤ (p.entries i).pin
    → (p.entries i).pin + 1 < 2 ^ 32
    → (((pin_up i p).entries i).pin == 1) ≡ false
unfolding pin_up
still_pinned i p pinned lt =
    rw (==_same i) (==_differs (u32 ((p.entries i).pin + 1)) 1 (omega arith))

pins_back :
    (i j : ℕ) (p : BchOpenBuckets)
    → (p.entries i).pin + 1 < 2 ^ 32
    → (pin_down i (pin_up i p)).entries j ≡ p.entries j
unfolding pin_down pin_up
pins_back i j p lt = elim (ℕ_discrete j i) [
  | yes e ↦ rw (e, ==_same i) (entry_back (p.entries i) lt)
  | no ne ↦ rw (==_differs j i ne) refl
]

pin_down-pin_up :
    (i : ℕ) (p : BchOpenBuckets) → (p.entries i).pin + 1 < 2 ^ 32 → pin_down i (pin_up i p) ≡ p
unfolding pin_down pin_up
pin_down-pin_up i p lt = ap (λ f. record p { entries = f }) (fun_ext (λ j. pins_back i j p lt))

-- After `inc_pin` of a pinned entry, whose count does not reach the end of its word, `dec_pin_and_put`
-- does not close the entry and gives back the pool as it was.
pub dec_pin_and_put-inc_pin :
    (idx : ℕ) (p : BchOpenBuckets)
    → idx ≢ 0
    → 1 ≤ (p.entries idx).pin
    → (p.entries idx).pin + 1 < 2 ^ 32
    → dec_pin_and_put idx (inc_pin idx p) ≡ (false, p)
unfolding dec_pin_and_put inc_pin
dec_pin_and_put-inc_pin idx p k pinned lt =
    rw (==_differs idx 0 k, still_pinned idx p pinned lt)
      (ap (λ q. (false, q)) (pin_down-pin_up idx p lt))

if_true {ℓ} : {A : Type ℓ} (b : Bool) (x y : A) → b ≡ true → (if b then x else y) ≡ x
if_true b x y e = rw e refl

if_false {ℓ} : {A : Type ℓ} (b : Bool) (x y : A) → b ≡ false → (if b then x else y) ≡ y
if_false b x y e = rw e refl

pub unpinned :
    (idx : ℕ) (p : BchOpenBuckets)
    → (dec_pin_and_put idx p ≡ (false, p))
      ⊎ ((dec_pin_and_put idx p ≡ (true, put idx (pin_down idx p)))
          ⊎ (dec_pin_and_put idx p ≡ (false, pin_down idx p)))
unfolding dec_pin_and_put
unpinned idx p = elim (Bool-cases (idx == 0)) [
  | inl z ↦ inl (if_true (idx == 0) _ _ z)
  | inr n ↦ elim (Bool-cases ((p.entries idx).pin == 1)) [
    | inl l ↦ inr (inl (if_false (idx == 0) _ _ n ∙ if_true ((p.entries idx).pin == 1) _ _ l))
    | inr m ↦ inr (inr (if_false (idx == 0) _ _ n ∙ if_false ((p.entries idx).pin == 1) _ _ m))
  ]
]
