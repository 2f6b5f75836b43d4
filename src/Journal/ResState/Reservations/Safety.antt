-- ===== src/Journal/ResState/Reservations/Safety.antt =====
-- journal/types.rs: what holds of the reservations after every sequence of operations.
use mathlib.Core.Path.{subst}
use volmount.Common.{
  ℕ, ◌+◌, ◌-◌, ◌*◌, ◌^◌, ◌<◌, ◌≤◌, ◌≡◌, ◌≢◌, refl, arith, some, [], ◌∷◌, All, All-imp, ◌∙◌, sym, ap,
}
use volmount.Journal.ResState.{
  buf_count, try_reserve, release, close_entry, open_entry, journal_entry_closed_val,
}
use volmount.Journal.ResState.Fields.{
  Parts, pack, Fits, count, set_count, try_reserve-pack, release-pack, close_entry-pack,
  open_entry-pack, after_reserve, offset-pack, idx-pack, buf_count-pack,
}
use volmount.Journal.ResState.Reservations.{
  res_of, Entry, Step, get, put, close, open_next, Reach, start, next, held_in, AllApart,
}
use volmount.Journal.ResState.Reservations.Invariant.{
  Inv, get-Inv, put-Inv, close-Inv, open_next-Inv,
}

-- The fields of a reachable word.
abbrev Good : Entry → Type 0
Good s = (p : Parts) × (s.word ≡ pack p) × Inv p s.held

-- A successful reservation, read back from the packed words.
reserved_parts :
    (p : Parts) (n old new : ℕ)
    → Fits p
    → n < 2 ^ 32
    → try_reserve n (pack p) ≡ some (old, new)
    → (p.offset + n ≤ 4096)
      × (count p p.index ≢ 1023)
      × (old ≡ pack p)
      × (new ≡ pack (after_reserve p n))
reserved_parts p n old new h k e = ground (arith, try_reserve-pack p n h k)

res_of-pack :
    (p : Parts) (n : ℕ)
    → Fits p
    → res_of n (pack p) ≡ record { offset = p.offset * 8; u64s = n; buf_idx = p.index }
unfolding res_of
res_of-pack p n h = rw (offset-pack p h, idx-pack p h)

Step-Good : {s t : Entry} → Step s t → Good s → Good t
Step-Good {s} (get n old new small e) (p, w, inv) =
    let (room, free, eo, en) =
      reserved_parts p n old new inv.fits small (ap (try_reserve n) (sym w) ∙ e) in
    (
      after_reserve p n,
      en,
      subst (λ r. Inv (after_reserve p n) (r ∷ s.held))
          (sym (ap (res_of n) eo ∙ res_of-pack p n inv.fits)) (get-Inv p s.held inv n room free),
    )
Step-Good {s} (put k r e) (p, w, inv) =
    let (some_held, buffer, inv') = put-Inv p s.held inv k r e in
    (
      set_count p r.buf_idx (count p r.buf_idx - 1),
      ap (release r.buf_idx) w ∙ release-pack p r.buf_idx inv.fits buffer some_held,
      inv',
    )
Step-Good {s} close (p, w, inv) = (
  record p { offset = journal_entry_closed_val },
  ap (λ v. (close_entry v).1) w ∙ ap (λ (x : ℕ × ℕ). x.1) (close_entry-pack p inv.fits),
  close-Inv p s.held inv,
)
Step-Good {s} (open_next i hi closed drained) (p, w, inv) = (
  set_count (record p { offset = 0; index = i }) i 0,
  ap (open_entry i) w ∙ open_entry-pack p i inv.fits hi,
  open_next-Inv p s.held inv i hi
      (sym (buf_count-pack p i inv.fits hi) ∙ ap (λ v. buf_count v i) (sym w) ∙ drained),
)

abbrev new_parts : Parts
new_parts = record {
  offset = journal_entry_closed_val;
  index = 0;
  count0 = 0;
  count1 = 0;
  count2 = 0;
  count3 = 0;
}

start-Inv : Inv new_parts []
unfolding held_in count
start-Inv = record { fits = omega arith; counted = λ i hi. ground arith; placed = tt; apart = tt }

Reach-Good : {s : Entry} → Reach s → Good s
Reach-Good start = (new_parts, refl, start-Inv)
Reach-Good (next r st) = Step-Good st (Reach-Good r)

-- In every reachable state the count of each buffer is the number of its held reservations, each
-- held reservation lies within the 32768 bytes of its buffer, and no two of one buffer overlap.
pub reservations_apart :
    {s : Entry}
    → Reach s
    → ((i : ℕ) → i < 4 → buf_count s.word i ≡ held_in i s.held)
      × All (λ r. (r.buf_idx < 4) × (r.offset + r.u64s * 8 ≤ 32768)) s.held
      × AllApart s.held
reservations_apart {s} r = safe (Reach-Good r)
  where
    safe :
        Good s
        → ((i : ℕ) → i < 4 → buf_count s.word i ≡ held_in i s.held)
          × All (λ r. (r.buf_idx < 4) × (r.offset + r.u64s * 8 ≤ 32768)) s.held
          × AllApart s.held
    safe (p, w, inv) = (
      λ i hi. ap (λ v. buf_count v i) w ∙ buf_count-pack p i inv.fits hi ∙ inv.counted i hi,
      All-imp s.held (λ x h. (h.buffer, h.inside)) inv.placed,
      inv.apart,
    )
