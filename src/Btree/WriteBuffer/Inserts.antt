-- ===== src/Btree/WriteBuffer/Inserts.antt =====
-- btree/write_buffer.rs: what the two insert paths of a flush leave in the engine.
use mathlib.Core.Path.{subst}
use volmount.Common.{
  ◌==◌, if◌then◌else◌, Bool, true, false, Bool-cases, inl, inr, ◌⊎◌, some, Option-cases, List, [],
  ◌∷◌, get_elem?, ◌≡◌, refl, arith, All, All-imp, sym, ◌∙◌, ap,
}
use volmount.Btree.Bpos.{Bpos}
use volmount.Btree.Entry.{BtreeId}
use volmount.Btree.WriteBuffer.{BtreeWriteBufferedKey}
use volmount.Btree.WriteBuffer.Pipeline.{
  WbKeyRef, same_place, live_ref, belongs, Engine, attempt, flush_fastpath, flush_slowpath,
}
use volmount.Btree.WriteBuffer.Dedup.{In, Apart}
use volmount.Btree.WriteBuffer.Attempt.{
  at_place, RefOf, value_of, belongs-at_place, apart_places, earlier_away, some_same, attempt_away,
  attempt_done, Accepts,
}

module _ (engine : Engine) where
  open engine use {
    State, entry_at, get_entry, insert_entry, trans_commit, get_entry_at, entry_at-insert,
    entry_at-commit,
  }

  module _ (keys : List BtreeWriteBufferedKey) (id : BtreeId) (pos : Bpos) where
    abbrev fast : List WbKeyRef → State → List WbKeyRef × State
    fast = flush_fastpath engine keys

    abbrev pub Away : WbKeyRef → Type 0
    Away r = at_place id pos r ≡ false

    pub fast-All :
        (P : WbKeyRef → Type 0) (d : List WbKeyRef) (s : State) → All P d → All P (fast d s).0
    unfolding flush_fastpath
    fast-All P [] s h = tt
    fast-All P (r ∷ d) s (h, hs) = elim (Option-cases (get_elem? keys r.idx)) [
      | inl absent ↦ rw (absent, flush_fastpath) tt
      | inr (wk, there) ↦ elim (Bool-cases (attempt engine wk s).0) [
        | inl done ↦ rw (there, flush_fastpath, done) (fast-All P d _ hs)
        | inr not_done ↦ rw (there, flush_fastpath, not_done) (h, fast-All P d _ hs)
      ]
    ]

    pub fast-Apart : (d : List WbKeyRef) (s : State) → Apart d → Apart (fast d s).0
    unfolding flush_fastpath
    fast-Apart [] s h = tt
    fast-Apart (r ∷ d) s (h, hs) = elim (Option-cases (get_elem? keys r.idx)) [
      | inl absent ↦ rw (absent, flush_fastpath) tt
      | inr (wk, there) ↦ elim (Bool-cases (attempt engine wk s).0) [
        | inl done ↦ rw (there, flush_fastpath, done) (fast-Apart d _ hs)
        | inr not_done ↦
            rw (there, flush_fastpath, not_done)
              (fast-All (λ y. same_place r y ≡ false) d _ h, fast-Apart d _ hs)
      ]
    ]

    pub fast-Away :
        (d : List WbKeyRef) (s : State)
        → All (RefOf keys) d
        → All Away d
        → entry_at (fast d s).1 id pos ≡ entry_at s id pos
    unfolding flush_fastpath
    fast-Away [] s k a = refl
    fast-Away (r ∷ d) s ((wk, there, ref_is, typed), ks) (a, away) =
        rw (there, flush_fastpath)
          (fast-Away d _ ks away
            ∙ attempt_away engine wk s id pos typed (belongs-at_place id pos r wk ref_is ∙ a))

    All-In : (P : WbKeyRef → Type 0) (d : List WbKeyRef) (r : WbKeyRef) → All P d → In r d → P r
    All-In P [] r h i = absurd i
    All-In P (x ∷ d) r (h, hs) (inl e) = subst P e h
    All-In P (x ∷ d) r (h, hs) (inr i) = All-In P d r hs i

    -- The rest of the references is elsewhere.
    rest-Away :
        (r : WbKeyRef) (d : List WbKeyRef)
        → at_place id pos r ≡ true
        → All (λ y. same_place r y ≡ false) d
        → All Away d
    rest-Away r d at apart = All-imp d (λ y n. apart_places id pos r y at n) apart

    pub fast_hit :
        (d : List WbKeyRef) (s : State) (r : WbKeyRef) (wk : BtreeWriteBufferedKey)
        → All (RefOf keys) d
        → Apart d
        → In r d
        → at_place id pos r ≡ true
        → get_elem? keys r.idx ≡ some wk
        → In r (fast d s).0 ⊎ (All Away (fast d s).0 × (entry_at (fast d s).1 id pos ≡ value_of wk))
    unfolding flush_fastpath
    fast_hit [] s r wk k apart i at there = absurd i
    fast_hit (x ∷ d) s r wk ((xk, found, ref_is, typed), ks) (apart, aparts) (inl e) at there =
        let at_x = ap (at_place id pos) e ∙ at in
        let wk_is : some xk ≡ some wk = sym found ∙ ap (λ y. get_elem? keys y.idx) e ∙ there in
        elim (Bool-cases (attempt engine xk s).0) [
          | inl done ↦
              rw (found, flush_fastpath, done)
                (inr (
                  fast-All Away d _ (rest-Away x d at_x apart),
                  fast-Away d _ ks (rest-Away x d at_x apart)
                      ∙ attempt_done engine xk s id pos typed
                          (belongs-at_place id pos x xk ref_is ∙ at_x) done
                      ∙ ap value_of (some_same xk wk wk_is),
                ))
          | inr not_done ↦ rw (found, flush_fastpath, not_done) (inl (inl e))
        ]
    fast_hit (x ∷ d) s r wk ((xk, found, ref_is, typed), ks) (apart, aparts) (inr i) at there =
        elim (Bool-cases (attempt engine xk s).0) [
          | inl done ↦ rw (found, flush_fastpath, done) (fast_hit d _ r wk ks aparts i at there)
          | inr not_done ↦
              rw (found, flush_fastpath, not_done)
                (elim (fast_hit d (attempt engine xk s).1 r wk ks aparts i at there) [
                  | inl left ↦ inl (inr left)
                  | inr (away, is) ↦ inr (
                    (
                      earlier_away id pos x r at (All-In (λ y. same_place x y ≡ false) d r apart i),
                      away,
                    ),
                    is,
                  )
                ])
        ]

    abbrev slow : Bool → List WbKeyRef → State → Bool × State
    slow = flush_slowpath engine keys

    -- One round of the slow path: the state that the other rounds start from.
    abbrev Rounds : Bool → WbKeyRef → BtreeWriteBufferedKey → List WbKeyRef → State → Type 0
    Rounds journal r wk d s =
        (s' : State) × ((slow journal (r ∷ d) s ≡ slow journal d s')
          × (entry_at s' id pos
              ≡ (if belongs id pos wk.btree_id wk.key then value_of wk else entry_at s id pos)))

    number-ne-zero :
        (r : WbKeyRef) (wk : BtreeWriteBufferedKey)
        → get_elem? keys r.idx ≡ some wk
        → live_ref keys r ≡ true
        → (wk.journal_seq == 0) ≡ false
    number-ne-zero r wk there alive = ground arith

    slow_round :
        (journal : Bool) (r : WbKeyRef) (wk : BtreeWriteBufferedKey) (d : List WbKeyRef) (s : State)
        → get_elem? keys r.idx ≡ some wk
        → Accepts engine journal
        → live_ref keys r ≡ true
        → (slow journal (r ∷ d) s).0 ≡ true
        → Rounds journal r wk d s
    unfolding flush_slowpath
    slow_round true r wk d s there accepts alive okay =
        let positive = number-ne-zero r wk there alive in
        elim (Bool-cases (trans_commit wk.btree_id wk.key wk.value s).0) [
          | inl committed ↦ (
            (trans_commit wk.btree_id wk.key wk.value s).1,
            (
              rw (there, flush_slowpath, positive, committed) refl,
              entry_at-commit wk.btree_id wk.key wk.value s id pos committed,
            ),
          )
          | inr refused ↦ absurd (ground (arith, positive))
        ]
    slow_round false r wk d s there (inl journal) alive okay = absurd (cc)
    slow_round false r wk d s there (inr never) alive okay = (
      (insert_entry wk.btree_id wk.key wk.value wk.journal_seq s).1,
      (
        rw (there, flush_slowpath, number-ne-zero r wk there alive) refl,
        entry_at-insert wk.btree_id wk.key wk.value wk.journal_seq s id pos
            ∙ rw (never wk.btree_id wk.key wk.value wk.journal_seq s) refl,
      ),
    )

    pub slow-Away :
        (journal : Bool) (d : List WbKeyRef) (s : State)
        → Accepts engine journal
        → All (RefOf keys) d
        → All (λ r. live_ref keys r ≡ true) d
        → All Away d
        → (slow journal d s).0 ≡ true
        → entry_at (slow journal d s).1 id pos ≡ entry_at s id pos
    unfolding flush_slowpath
    slow-Away journal [] s accepts k l a okay = refl
    slow-Away journal (r ∷ d) s accepts ((wk, there, ref_is, typed), ks) (l, ls) (a, away) okay =
        let (s', (same, entry)) = slow_round journal r wk d s there accepts l okay in
        ap (λ p. entry_at p.1 id pos) same
        ∙ slow-Away journal d s' accepts ks ls away (sym (ap (λ p. p.0) same) ∙ okay)
        ∙ entry
        ∙ rw (belongs-at_place id pos r wk ref_is, a) refl

    pub slow_hit :
        (journal : Bool) (d : List WbKeyRef) (s : State) (r : WbKeyRef) (wk : BtreeWriteBufferedKey)
        → Accepts engine journal
        → All (RefOf keys) d
        → All (λ x. live_ref keys x ≡ true) d
        → Apart d
        → In r d
        → at_place id pos r ≡ true
        → get_elem? keys r.idx ≡ some wk
        → (slow journal d s).0 ≡ true
        → entry_at (slow journal d s).1 id pos ≡ value_of wk
    unfolding flush_slowpath
    slow_hit journal [] s r wk accepts k l apart i at there okay = absurd i
    slow_hit journal (x ∷ d) s r wk accepts ((xk, found, ref_is, typed), ks) (l, ls) (apart, aparts)
          (inl e) at there okay =
        let at_x = ap (at_place id pos) e ∙ at in
        let wk_is : some xk ≡ some wk = sym found ∙ ap (λ y. get_elem? keys y.idx) e ∙ there in
        let (s', (same, entry)) = slow_round journal x xk d s found accepts l okay in
        ap (λ p. entry_at p.1 id pos) same
        ∙ slow-Away journal d s' accepts ks ls (rest-Away x d at_x apart)
            (sym (ap (λ p. p.0) same) ∙ okay)
        ∙ entry
        ∙ rw (belongs-at_place id pos x xk ref_is, at_x) (ap value_of (some_same xk wk wk_is))
    slow_hit journal (x ∷ d) s r wk accepts ((xk, found, ref_is, typed), ks) (l, ls) (apart, aparts)
          (inr i) at there okay =
        let (s', (same, entry)) = slow_round journal x xk d s found accepts l okay in
        ap (λ p. entry_at p.1 id pos) same
        ∙ slow_hit journal d s' r wk accepts ks ls aparts i at there
            (sym (ap (λ p. p.0) same) ∙ okay)
