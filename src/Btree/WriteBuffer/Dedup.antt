-- ===== src/Btree/WriteBuffer/Dedup.antt =====
-- btree/write_buffer.rs: `dedup_sorted_refs` keeps the newest reference of each place.
use mathlib.Core.Path.{subst}
use volmount.Common.{
  ◌<◌, leb, if◌then◌else◌, true, false, Bool-cases, inl, inr, ◌⊎◌, List, [], ◌∷◌, ◌≡◌, ◌≢◌, refl,
  arith, All, All-imp, Ordering, sym, ◌∙◌,
}
use volmount.Btree.WriteBuffer.{BtreeWriteBufferedKey}
use volmount.Btree.WriteBuffer.Pipeline.{
  WbKeyRef, same_place, place_cmp, live_ref, emit, dedup_run, dedup_sorted_refs,
}

abbrev pub In : WbKeyRef → List WbKeyRef → Type 0
In r [] = ⊥
In r (x ∷ xs) = (x ≡ r) ⊎ In r xs

abbrev pub IsSorted : List WbKeyRef → Type 0
IsSorted [] = Unit
IsSorted (x ∷ xs) = All (λ y. place_cmp x y ≢ Ordering.gt) xs × IsSorted xs

-- No two have the same place.
abbrev pub Apart : List WbKeyRef → Type 0
Apart [] = Unit
Apart (x ∷ xs) = All (λ y. same_place x y ≡ false) xs × Apart xs

-- The greatest number among those of its place.
abbrev pub IsNewest : WbKeyRef → List WbKeyRef → Type 0
IsNewest r [] = Unit
IsNewest r (x ∷ xs) =
    (same_place x r ≡ true → (x ≡ r) ⊎ (x.journal_seq < r.journal_seq)) × IsNewest r xs

passed :
    (c n x : WbKeyRef)
    → place_cmp c n ≢ Ordering.gt
    → same_place n c ≡ false
    → place_cmp n x ≢ Ordering.gt
    → same_place x c ≡ false
passed c n x cn differ nx = ground arith

same_place_sym : (a b : WbKeyRef) → same_place a b ≡ same_place b a
same_place_sym a b = ground arith

same_place_trans :
    (a b c : WbKeyRef) → same_place a b ≡ true → same_place b c ≡ true → same_place a c ≡ true
same_place_trans a b c p q = ground arith

module _ (keys : List BtreeWriteBufferedKey) where
  emit-All :
      (P : WbKeyRef → Type 0) (b : WbKeyRef) (rest : List WbKeyRef)
      → P b
      → All P rest
      → All P (emit keys b rest)
  emit-All P b rest h hs = elim (Bool-cases (live_ref keys b)) [
    | inl l ↦ rw (l, emit) (h, hs)
    | inr l ↦ rw (l, emit) hs
  ]

  dedup_run-All :
      (P : WbKeyRef → Type 0) (c b : WbKeyRef) (l : List WbKeyRef)
      → P b
      → All P l
      → All P (dedup_run keys c b l)
  unfolding dedup_run
  dedup_run-All P c b [] h hs = emit-All P b [] h tt
  dedup_run-All P c b (n ∷ l) h (k, ks) = elim (Bool-cases (same_place n c)) [
    | inl same ↦ elim (Bool-cases (leb b.journal_seq n.journal_seq)) [
      | inl newer ↦ rw (same, newer, dedup_run) (dedup_run-All P c n l k ks)
      | inr older ↦ rw (same, older, dedup_run) (dedup_run-All P c b l h ks)
    ]
    | inr differ ↦
        rw (differ, dedup_run) (emit-All P b (dedup_run keys n n l) h (dedup_run-All P n n l k ks))
  ]

  emit-Apart :
      (b : WbKeyRef) (rest : List WbKeyRef)
      → All (λ y. same_place b y ≡ false) rest
      → Apart rest
      → Apart (emit keys b rest)
  emit-Apart b rest h hs = elim (Bool-cases (live_ref keys b)) [
    | inl l ↦ rw (l, emit) (h, hs)
    | inr l ↦ rw (l, emit) hs
  ]

  other_place :
      (b c x : WbKeyRef) → same_place b c ≡ true → same_place x c ≡ false → same_place b x ≡ false
  other_place b c x p q = ground arith

  dedup_run-Apart :
      (c b : WbKeyRef) (l : List WbKeyRef)
      → same_place b c ≡ true
      → All (λ y. place_cmp c y ≢ Ordering.gt) l
      → IsSorted l
      → Apart (dedup_run keys c b l)
  unfolding dedup_run
  dedup_run-Apart c b [] at above sorted = emit-Apart b [] tt tt
  dedup_run-Apart c b (n ∷ l) at (cn, above) (n_above, sorted) =
      elim (Bool-cases (same_place n c)) [
        | inl same ↦ elim (Bool-cases (leb b.journal_seq n.journal_seq)) [
          | inl newer ↦ rw (same, newer, dedup_run) (dedup_run-Apart c n l same above sorted)
          | inr older ↦ rw (same, older, dedup_run) (dedup_run-Apart c b l at above sorted)
        ]
        | inr differ ↦
            rw (differ, dedup_run)
              (emit-Apart b (dedup_run keys n n l)
                (dedup_run-All (λ y. same_place b y ≡ false) n n l (other_place b c n at differ)
                  (All-imp l (λ x nx. other_place b c x at (passed c n x cn differ nx)) n_above))
                (dedup_run-Apart n n l (ground arith) n_above sorted))
      ]

  emit-here :
      (b : WbKeyRef) (rest : List WbKeyRef) → live_ref keys b ≡ true → In b (emit keys b rest)
  emit-here b rest l = rw (l, emit) (inl refl)

  emit-there : (b r : WbKeyRef) (rest : List WbKeyRef) → In r rest → In r (emit keys b rest)
  emit-there b r rest i = elim (Bool-cases (live_ref keys b)) [
    | inl l ↦ rw (l, emit) (inr i)
    | inr l ↦ rw (l, emit) i
  ]

  abbrev later_of : WbKeyRef → WbKeyRef → WbKeyRef
  later_of b n = if leb b.journal_seq n.journal_seq then n else b

  first_stays : (b n : WbKeyRef) → (n ≡ b) ⊎ (n.journal_seq < b.journal_seq) → later_of b n ≡ b
  first_stays b n (inl e) = elim (Bool-cases (leb b.journal_seq n.journal_seq)) [
    | inl l ↦ rw (l, later_of) e
    | inr l ↦ rw (l, later_of) refl
  ]
  first_stays b n (inr older) = ground arith

  second_comes : (b n : WbKeyRef) → (b ≡ n) ⊎ (b.journal_seq < n.journal_seq) → later_of b n ≡ n
  second_comes b n (inl e) = elim (Bool-cases (leb b.journal_seq n.journal_seq)) [
    | inl l ↦ rw (l, later_of) refl
    | inr l ↦ rw (l, later_of) e
  ]
  second_comes b n (inr older) = ground arith

  abbrev Beats : WbKeyRef → WbKeyRef → Type 0
  Beats r x = same_place x r ≡ true → (x ≡ r) ⊎ (x.journal_seq < r.journal_seq)

  later_of-newest :
      (c b n r : WbKeyRef)
      → same_place b c ≡ true
      → same_place n c ≡ true
      → Beats r b
      → Beats r n
      → (b ≡ r) ⊎ (n ≡ r)
      → later_of b n ≡ r
  later_of-newest c b n r bc nc hb hn (inl e) =
      subst (λ x. Beats x n → later_of b n ≡ x) e
        (λ h. first_stays b n (h (same_place_trans n c b nc (same_place_sym c b ∙ bc)))) hn
  later_of-newest c b n r bc nc hb hn (inr e) =
      subst (λ x. Beats x b → later_of b n ≡ x) e
        (λ h. second_comes b n (h (same_place_trans b c n bc (same_place_sym c n ∙ nc)))) hb

  later_of-Beats : (b n r : WbKeyRef) → Beats r b → Beats r n → Beats r (later_of b n)
  later_of-Beats b n r hb hn = elim (Bool-cases (leb b.journal_seq n.journal_seq)) [
    | inl l ↦ rw (l, later_of) hn
    | inr l ↦ rw (l, later_of) hb
  ]

  later_of-place :
      (c b n : WbKeyRef)
      → same_place b c ≡ true
      → same_place n c ≡ true
      → same_place (later_of b n) c ≡ true
  later_of-place c b n bc nc = elim (Bool-cases (leb b.journal_seq n.journal_seq)) [
    | inl l ↦ rw (l, later_of) nc
    | inr l ↦ rw (l, later_of) bc
  ]

  still_there :
      (c b n r : WbKeyRef) (l : List WbKeyRef)
      → same_place b c ≡ true
      → same_place n c ≡ true
      → Beats r b
      → Beats r n
      → (b ≡ r) ⊎ In r (n ∷ l)
      → (later_of b n ≡ r) ⊎ In r l
  still_there c b n r l bc nc hb hn (inl e) = inl (later_of-newest c b n r bc nc hb hn (inl e))
  still_there c b n r l bc nc hb hn (inr (inl e)) =
      inl (later_of-newest c b n r bc nc hb hn (inr e))
  still_there c b n r l bc nc hb hn (inr (inr i)) = inr i

  dedup_run-newest :
      (c b r : WbKeyRef) (l : List WbKeyRef)
      → same_place b c ≡ true
      → Beats r b
      → IsNewest r l
      → live_ref keys r ≡ true
      → (b ≡ r) ⊎ In r l
      → In r (dedup_run keys c b l)
  unfolding dedup_run
  dedup_run-newest c b r [] bc hb hs v (inl e) =
      subst (λ x. In x (emit keys b [])) e
        (emit-here b [] (subst (λ x. live_ref keys x ≡ true) (sym e) v))
  dedup_run-newest c b r [] bc hb hs v (inr i) = absurd i
  dedup_run-newest c b r (n ∷ l) bc hb (hn, hs) v i = elim (Bool-cases (same_place n c)) [
    | inl same ↦
        rw (same, dedup_run)
          (dedup_run-newest c (later_of b n) r l (later_of-place c b n bc same)
            (later_of-Beats b n r hb hn) hs v (still_there c b n r l bc same hb hn i))
    | inr differ ↦
        rw (differ, dedup_run)
          (elim i [
            | inl e ↦
                subst (λ x. In x (emit keys b (dedup_run keys n n l))) e
                  (emit-here b _ (subst (λ x. live_ref keys x ≡ true) (sym e) v))
            | inr j ↦ emit-there b r _ (dedup_run-newest n n r l (ground arith) hn hs v j)
          ])
  ]

  emit-live :
      (b : WbKeyRef) (rest : List WbKeyRef)
      → All (λ x. live_ref keys x ≡ true) rest
      → All (λ x. live_ref keys x ≡ true) (emit keys b rest)
  emit-live b rest h = elim (Bool-cases (live_ref keys b)) [
    | inl l ↦ rw (l, emit) (l, h)
    | inr l ↦ rw (l, emit) h
  ]

  dedup_run-live :
      (c b : WbKeyRef) (l : List WbKeyRef)
      → All (λ x. live_ref keys x ≡ true) (dedup_run keys c b l)
  unfolding dedup_run
  dedup_run-live c b [] = emit-live b [] tt
  dedup_run-live c b (n ∷ l) = elim (Bool-cases (same_place n c)) [
    | inl same ↦ rw (same, dedup_run) (dedup_run-live c (later_of b n) l)
    | inr differ ↦ rw (differ, dedup_run) (emit-live b _ (dedup_run-live n n l))
  ]

  pub dedup-live :
      (l : List WbKeyRef) → All (λ x. live_ref keys x ≡ true) (dedup_sorted_refs keys l)
  unfolding dedup_sorted_refs
  dedup-live [] = tt
  dedup-live (r ∷ l) = dedup_run-live r r l

  -- From sorted references: what is kept was there, no two of them have one place, and the newest of a
  -- place is kept if its key is live.
  pub dedup-All :
      (P : WbKeyRef → Type 0) (l : List WbKeyRef) → All P l → All P (dedup_sorted_refs keys l)
  unfolding dedup_sorted_refs
  dedup-All P [] h = tt
  dedup-All P (r ∷ l) (h, hs) = dedup_run-All P r r l h hs

  pub dedup-Apart : (l : List WbKeyRef) → IsSorted l → Apart (dedup_sorted_refs keys l)
  unfolding dedup_sorted_refs
  dedup-Apart [] h = tt
  dedup-Apart (r ∷ l) (h, hs) = dedup_run-Apart r r l (ground arith) h hs

  pub dedup-newest :
      (r : WbKeyRef) (l : List WbKeyRef)
      → IsNewest r l
      → live_ref keys r ≡ true
      → In r l
      → In r (dedup_sorted_refs keys l)
  unfolding dedup_sorted_refs
  dedup-newest r [] h v i = absurd i
  dedup-newest r (x ∷ l) (h, hs) v i = dedup_run-newest x x r l (ground arith) h hs v i
