-- ===== src/Journal/ResState/Reservations/Invariant.antt =====
-- journal/types.rs: what each operation on the word keeps of the held reservations.
use volmount.Common.{
  ℕ, ◌+◌, ◌-◌, ◌*◌, ◌<◌, ◌≤◌, ◌≡◌, ◌≢◌, inr, arith, some, List, [], ◌∷◌, get_elem?, All, All-imp,
  ◌∙◌, sym,
}
use volmount.Journal.ResState.{journal_entry_closed_val}
use volmount.Journal.ResState.Fields.{
  Parts, Fits, count, set_count, after_reserve, count-set_count, set_count_rest, set_count-Fits,
  count-Fits,
}
use volmount.Journal.ResState.Reservations.{JournalRes, remove, held_in, end_of, Apart, AllApart}
use volmount.Journal.ResState.Reservations.Held.{
  count_rest, held_in-remove, All-remove, All-get, AllApart-remove, none_held,
}

-- A held reservation: in one of the buffers, within it, and in the open buffer below the offset.
pub record Placed (p : Parts) (r : JournalRes) : Type 0 where
  pub buffer : r.buf_idx < 4
  pub inside : end_of r ≤ 32768
  pub below : r.buf_idx ≡ p.index → end_of r ≤ p.offset * 8

pub record Inv (p : Parts) (rs : List JournalRes) : Type 0 where
  pub fits : Fits p
  pub counted : (i : ℕ) → i < 4 → count p i ≡ held_in i rs
  pub placed : All (Placed p) rs
  pub apart : AllApart rs

open_buffer :
    (p : Parts) (r : JournalRes) (i : ℕ)
    → Placed p r
    → r.buf_idx ≢ i
    → Placed (set_count (record p { offset = 0; index = i }) i 0) r
open_buffer p r i h ne =
    let (o, x) = set_count_rest (record p { offset = 0; index = i }) i 0 in
    record { buffer = h.buffer; inside = h.inside; below = λ e. absurd (ne (e ∙ x)) }

module _ (p : Parts) (rs : List JournalRes) (inv : Inv p rs) where
  pub get-Inv :
      (n : ℕ)
      → p.offset + n ≤ 4096
      → count p p.index ≢ 1023
      → Inv (after_reserve p n) (record { offset = p.offset * 8; u64s = n; buf_idx = p.index } ∷ rs)
  unfolding held_in
  get-Inv n room free = record {
    fits =
        set_count-Fits (record p { offset = p.offset + n }) p.index (count p p.index + 1)
          (ground (arith, inv.fits)) (omega (arith, count-Fits p p.index inv.fits));
    counted = λ j hj. counts j hj;
    placed = (
      record {
        buffer = inv.fits.index_fits;
        inside = omega arith;
        below = λ e. omega (arith, rest);
      },
      All-imp rs kept inv.placed,
    );
    apart = (All-imp rs below inv.placed, inv.apart);
  }
    where
      rest : ((after_reserve p n).offset ≡ p.offset + n) × ((after_reserve p n).index ≡ p.index)
      rest = set_count_rest (record p { offset = p.offset + n }) p.index (count p p.index + 1)

      kept : (r : JournalRes) → Placed p r → Placed (after_reserve p n) r
      kept r h = record {
        buffer = h.buffer;
        inside = h.inside;
        below = λ e. omega (arith, rest, h.below (e ∙ rest.1));
      }

      below :
          (r : JournalRes)
          → Placed p r
          → Apart (record { offset = p.offset * 8; u64s = n; buf_idx = p.index }) r
      below r h e = inr (h.below (sym e))

      counts :
          (j : ℕ)
          → j < 4
          → count (after_reserve p n) j
            ≡ held_in j (record { offset = p.offset * 8; u64s = n; buf_idx = p.index } ∷ rs)
      counts j hj = ground (
        arith,
        count-set_count (record p { offset = p.offset + n }) p.index (count p p.index + 1) j
            inv.fits.index_fits hj,
        count_rest p (p.offset + n) p.index j,
        inv.counted j hj,
        inv.counted p.index inv.fits.index_fits,
      )

  pub put-Inv :
      (k : ℕ) (r : JournalRes)
      → get_elem? rs k ≡ some r
      → (0 < count p r.buf_idx)
        × (r.buf_idx < 4)
        × Inv (set_count p r.buf_idx (count p r.buf_idx - 1)) (remove rs k)
  unfolding held_in
  put-Inv k r e = (
    ground (arith, inv.counted r.buf_idx buffer, held_in-remove rs k r r.buf_idx e),
    buffer,
    record {
      fits =
          set_count-Fits p r.buf_idx (count p r.buf_idx - 1) inv.fits
            (omega (arith, count-Fits p r.buf_idx inv.fits));
      counted = λ j hj. ground (
        arith,
        count-set_count p r.buf_idx (count p r.buf_idx - 1) j buffer hj,
        inv.counted j hj,
        inv.counted r.buf_idx buffer,
        held_in-remove rs k r j e,
      );
      placed =
          All-remove (Placed (set_count p r.buf_idx (count p r.buf_idx - 1))) rs k
            (All-imp rs kept inv.placed);
      apart = AllApart-remove rs k inv.apart;
    },
  )
    where
      buffer : r.buf_idx < 4
      buffer = (All-get (Placed p) rs k r e inv.placed).buffer

      rest :
          ((set_count p r.buf_idx (count p r.buf_idx - 1)).offset ≡ p.offset)
          × ((set_count p r.buf_idx (count p r.buf_idx - 1)).index ≡ p.index)
      rest = set_count_rest p r.buf_idx (count p r.buf_idx - 1)

      kept :
          (x : JournalRes) → Placed p x → Placed (set_count p r.buf_idx (count p r.buf_idx - 1)) x
      kept x h = record {
        buffer = h.buffer;
        inside = h.inside;
        below = λ q. omega (arith, rest, h.below (q ∙ rest.1));
      }

  pub close-Inv : Inv (record p { offset = journal_entry_closed_val }) rs
  close-Inv = record {
    fits = ground (arith, inv.fits);
    counted = λ j hj. count_rest p journal_entry_closed_val p.index j ∙ inv.counted j hj;
    placed = All-imp rs kept inv.placed;
    apart = inv.apart;
  }
    where
      kept :
          (x : JournalRes) → Placed p x → Placed (record p { offset = journal_entry_closed_val }) x
      kept x h = record {
        buffer = h.buffer;
        inside = h.inside;
        below = λ q. omega (arith, h.inside);
      }

  pub open_next-Inv :
      (i : ℕ) → i < 4 → count p i ≡ 0 → Inv (set_count (record p { offset = 0; index = i }) i 0) rs
  open_next-Inv i hi none_left = record {
    fits =
        set_count-Fits (record p { offset = 0; index = i }) i 0 (ground (arith, inv.fits))
          (omega arith);
    counted = λ j hj. ground (
      arith,
      count-set_count (record p { offset = 0; index = i }) i 0 j hi hj,
      count_rest p 0 i j,
      inv.counted j hj,
    );
    placed = both rs inv.placed (none_held rs i (sym (inv.counted i hi) ∙ none_left));
    apart = inv.apart;
  }
    where
      both :
          (xs : List JournalRes)
          → All (Placed p) xs
          → All (λ r. r.buf_idx ≢ i) xs
          → All (Placed (set_count (record p { offset = 0; index = i }) i 0)) xs
      both [] h k = tt
      both (x ∷ xs) h k = (open_buffer p x i h.0 k.0, both xs h.1 k.1)
