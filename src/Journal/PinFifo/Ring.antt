-- ===== src/Journal/PinFifo/Ring.antt =====
-- journal/reclaim.rs: the slots of the ring from one index on, and how writes change them.
use volmount.Common.{
  ℕ, zero, suc, ◌+◌, ◌%◌, ◌<◌, ◌≡◌, ◌≢◌, refl, arith, Option, List, [], ◌∷◌, ◌++◌, ap,
}
use volmount.Journal.PinFifo.{step, write}

module _ {A : Type 0} where
  unfoldable pub slots : (ℕ → Option A) → ℕ → ℕ → List (Option A)
  slots e zero i = []
  slots e (suc n) i = e i ∷ slots e n (step i)

  pub slots-snoc :
      (e : ℕ → Option A) (n i : ℕ)
      → i < 128
      → slots e (suc n) i ≡ slots e n i ++ e ((i + n) % 128) ∷ []
  unfolding slots
  slots-snoc e zero i h = let q : (i + 0) % 128 ≡ i = omega arith in ground (arith, ap e q)
  slots-snoc e (suc n) i h =
      let q : (step i + n) % 128 ≡ (i + suc n) % 128 = omega arith in
      ground (arith, slots-snoc e n (step i) (omega arith), ap e q)

  -- A write outside the range changes no slot of it.
  pub slots-write :
      (e : ℕ → Option A) (t : ℕ) (v : Option A) (n i : ℕ)
      → i < 128
      → t < 128
      → ((k : ℕ) → k < n → (i + k) % 128 ≢ t)
      → slots (write e t v) n i ≡ slots e n i
  unfolding slots
  slots-write e t v zero i h ht far = refl
  slots-write e t v (suc n) i h ht far =
      let here : i ≢ t = λ q. far 0 (omega arith) (omega (arith)) in
      ground (
        arith,
        slots-write e t v n (step i) (omega arith) ht
            (λ k hk q. far (suc k) (omega arith) (omega arith)),
      )
