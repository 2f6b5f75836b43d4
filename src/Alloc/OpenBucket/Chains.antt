-- ===== src/Alloc/OpenBucket/Chains.antt =====
-- alloc/open_bucket.rs: lists that are linked by index, and the removal of an element.
use mathlib.Core.Path.{subst}
use volmount.Common.{
  ℕ, zero, suc, ◌<◌, ◌≡◌, ◌≢◌, refl, arith, true, false, ◌==◌, if◌then◌else◌, some, List, [], ◌∷◌,
  length, contains, NoDup, ℕ_discrete, ◌∙◌, sym, ap, inl, inr, ◌⊎◌,
}
use volmount.Alloc.OpenBucket.{store, OpenBucket, find_prev}

-- The indices that follow one another from `c` to the end.
pub data Chain (next : ℕ → ℕ) : ℕ → List ℕ → Type 0 where
  ends : Chain next 0 []
  link : (i : ℕ) (is : List ℕ) → i ≢ 0 → Chain next (next i) is → Chain next i (i ∷ is)

pub Chain-frame :
    {f g : ℕ → ℕ} {c : ℕ} {is : List ℕ}
    → ((x : ℕ) → contains x is ≡ true → f x ≡ g x)
    → Chain f c is
    → Chain g c is
Chain-frame h ends = ends
Chain-frame {f} {g} h (link i is n k) =
    link i is n
      (subst (λ x. Chain g x is) (h i (ground arith)) (Chain-frame (λ x m. h x (ground arith)) k))

-- The list without an element, and the element before it.
abbrev pub without : ℕ → List ℕ → List ℕ
without x [] = []
without x (y ∷ ys) = if y == x then ys else y ∷ without x ys

abbrev pub before : ℕ → ℕ → List ℕ → ℕ
before prev x [] = prev
before prev x (y ∷ ys) = if y == x then prev else before y x ys

pub without-head : (i y : ℕ) (is : List ℕ) → i ≡ y → without y (i ∷ is) ≡ is
without-head i y is e = ground arith

pub without-tail : (i y : ℕ) (is : List ℕ) → i ≢ y → without y (i ∷ is) ≡ i ∷ without y is
without-tail i y is e = ground arith

pub contains-without_in :
    (x y : ℕ) (is : List ℕ) → contains x (without y is) ≡ true → contains x is ≡ true
contains-without_in x y [] h = h
contains-without_in x y (i ∷ is) h = ground (arith, contains-without_in x y is)

pub contains-without_other :
    (x y : ℕ) (is : List ℕ) → contains x is ≡ true → x ≢ y → contains x (without y is) ≡ true
contains-without_other x y [] h n = h
contains-without_other x y (i ∷ is) h n = ground (arith, contains-without_other x y is)

pub contains-without_none : (y : ℕ) (is : List ℕ) → NoDup is → contains y (without y is) ≡ false
contains-without_none y [] d = refl
contains-without_none y (i ∷ is) (n, d) = elim (ℕ_discrete i y) [
  | yes e ↦ ap (contains y) (without-head i y is e) ∙ ap (λ z. contains z is) (sym e) ∙ n
  | no m ↦ ap (contains y) (without-tail i y is m) ∙ ground (arith, contains-without_none y is d)
]

pub NoDup-without : (y : ℕ) (is : List ℕ) → NoDup is → NoDup (without y is)
NoDup-without y [] d = tt
NoDup-without y (i ∷ is) (n, d) = elim (ℕ_discrete i y) [
  | yes e ↦ rw (without-head i y is e) d
  | no m ↦
      rw (without-tail i y is m)
        (ground (arith, contains-without_in i y is, n), NoDup-without y is d)
]

pub length-without :
    (y : ℕ) (is : List ℕ) → contains y is ≡ true → suc (length (without y is)) ≡ length is
length-without y [] h = absurd (ground arith)
length-without y (i ∷ is) h = ground (arith, length-without y is)

pub before-contains :
    (prev y : ℕ) (is : List ℕ)
    → contains y is ≡ true
    → (before prev y is ≡ prev) ⊎ (contains (before prev y is) is ≡ true)
before-contains prev y [] h = ground arith
before-contains prev y (i ∷ is) h = ground (arith, before-contains i y is)

-- The loop of the removal finds that element.
pub find_prev-before :
    (entries : ℕ → OpenBucket) (fuel prev x c : ℕ) (is : List ℕ)
    → Chain (λ i. (entries i).hash) c is
    → contains x is ≡ true
    → length is < fuel
    → find_prev fuel entries x prev c ≡ some (before prev x is)
unfolding find_prev
find_prev-before entries zero prev x c is k h lt = absurd (omega arith)
find_prev-before entries (suc fuel) prev x _ _ ends h lt = absurd (ground arith)
find_prev-before entries (suc fuel) prev x _ _ (link i is n k) h lt =
    ground (arith, find_prev-before entries fuel i x (entries i).hash is k)

pub before-head : (i j x : ℕ) (is : List ℕ) → j ≡ x → before i x (j ∷ is) ≡ i
before-head i j x is e = ground arith

pub before-tail : (i j x : ℕ) (is : List ℕ) → j ≢ x → before i x (j ∷ is) ≡ before j x is
before-tail i j x is e = ground arith

store-same : (f : ℕ → ℕ) (i v u : ℕ) → u ≡ v → u ≡ store f i v i
store-same f i v u e = ground arith

store-other : (f : ℕ → ℕ) (i v y : ℕ) → y ≢ i → f y ≡ store f i v y
store-other f i v y n = ground arith

before_not :
    (i j x : ℕ) (is : List ℕ)
    → contains i (j ∷ is) ≡ false
    → contains x is ≡ true
    → i ≢ before j x is
before_not i j x is n h e = elim (before-contains j x is h) [
  | inl p ↦ absurd (grind (arith, e ∙ p))
  | inr q ↦ absurd (grind (arith, ap (λ z. contains z is) e ∙ q))
]

not_first : (i j y : ℕ) (is : List ℕ) → contains i (j ∷ is) ≡ false → contains y is ≡ true → y ≢ i
not_first i j y is n q e = absurd (grind (arith, ap (λ z. contains z is) (sym e) ∙ q))

pub Chain-next :
    {f : ℕ → ℕ} {c i : ℕ} {is : List ℕ} → Chain f c (i ∷ is) → (c ≡ i) × (i ≢ 0) × Chain f (f i) is
Chain-next (link i is n k) = (refl, n, k)

-- Past its first element, a chain loses one by a store at the element before it.
pub Chain-unlink :
    (f : ℕ → ℕ) (x i : ℕ) (is : List ℕ)
    → NoDup (i ∷ is)
    → contains x is ≡ true
    → i ≢ 0
    → Chain f (f i) is
    → Chain (store f (before i x is) (f x)) i (i ∷ without x is)
Chain-unlink f x i [] d h z k = absurd (ground arith)
Chain-unlink f x i (j ∷ is) (n, (m, d)) h z c =
    let (e0, w, k) = Chain-next c in
    elim (ℕ_discrete j x) [
      | yes e ↦
          rw (before-head i j x is e, without-head j x is e)
            (link i is z (
              subst (λ c. Chain (store f i (f x)) c is) (store-same f i (f x) (f j) (ap f e))
                (Chain-frame (λ y q. store-other f i (f x) y (not_first i j y is n q)) k)))
      | no b ↦
          rw (before-tail i j x is b, without-tail j x is b)
            (link i (j ∷ without x is) z (
              subst (λ c. Chain (store f (before j x is) (f x)) c (j ∷ without x is))
                (sym e0
                  ∙ store-other f (before j x is) (f x) i (before_not i j x is n (ground arith)))
                (Chain-unlink f x j is (m, d) (ground arith) w k)))
    ]
