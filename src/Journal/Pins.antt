-- ===== src/Journal/Pins.antt =====
-- journal/reclaim.rs: the pins that keep a journal entry from being reclaimed. A pin lives at an
-- address of a store, since its owner embeds it and a pin list links to it; a pin list is named by
-- its index in the ring. `none` is the panic of `journal_seq_pin`. The locks are left out: each
-- call is atomic, so the retry loops run once.
pub mod Lists
pub mod Marks
pub mod Held
pub mod Moves
pub mod Advance
pub mod Calls
pub mod Runs
pub mod Steps
pub mod Safe
pub mod Flush
pub mod Order
pub mod Settle
pub mod Seqs
mod Tests
use volmount.Common.{
  ℕ, zero, suc, ◌+◌, ◌-◌, ◌%◌, ◌^◌, ◌==◌, ltb, if◌then◌else◌, Bool, true, false, not, ◌||◌, Option,
  none, some, List, [], ◌∷◌, ◌++◌, u32, ok, err,
}
use volmount.Journal.PinFifo.{
  PinListFifo, SeqState, pin_fifo_size, entry_for_seq, push_back,
  bch2_journal_maybe_update_last_seq,
}

pub data JournalPinType : Type 0 where
  btree3 : JournalPinType
  btree2 : JournalPinType
  btree1 : JournalPinType
  btree0 : JournalPinType
  key_cache : JournalPinType
  other : JournalPinType

abbrev pub btree_level_pin_type : ℕ → JournalPinType
btree_level_pin_type zero = btree0
btree_level_pin_type (suc zero) = btree1
btree_level_pin_type (suc (suc zero)) = btree2
btree_level_pin_type (suc (suc (suc n))) = btree3

-- The discriminant, by which the list of a type is found.
abbrev pub type_index : JournalPinType → ℕ
type_index btree3 = 0
type_index btree2 = 1
type_index btree1 = 2
type_index btree0 = 3
type_index key_cache = 4
type_index other = 5

pub record JournalEntryPin (F : Type 0) : Type 0 where
  pub seq : ℕ
  pub pin_type : JournalPinType
  pub flush : Option F

-- The intrusive lists as lists of addresses; `unflushed` by the index of the type.
pub record JournalEntryPinList : Type 0 where
  pub count : ℕ
  pub unflushed : ℕ → List ℕ
  pub flushed : List ℕ
  pub unreplayed : Bool

abbrev pub list_count : JournalEntryPinList → ℕ
list_count pl = pl.count

abbrev pub new_pin_list : ℕ → JournalEntryPinList
new_pin_list n = record { count = n; unflushed = λ _. []; flushed = []; unreplayed = false }

-- An address of 0 in `flush_in_progress` means that no pin is being flushed.
pub record Journal (F : Type 0) : Type 0 where
  pub seqs : SeqState JournalEntryPinList
  pub pins : ℕ → JournalEntryPin F
  pub flush_in_progress : ℕ
  pub flush_in_progress_dropped : Bool

abbrev pub remove_addr : ℕ → List ℕ → List ℕ
remove_addr a [] = []
remove_addr a (b ∷ bs) = let rest = remove_addr a bs in if a == b then rest else b ∷ rest

-- `Link::remove_addr` takes the pin out of whichever list it is linked in.
abbrev pub unlink_pin : ℕ → JournalEntryPinList → JournalEntryPinList
unlink_pin a pl = record pl {
  unflushed = λ t. remove_addr a (pl.unflushed t);
  flushed = remove_addr a pl.flushed;
}

abbrev pub dec_count : JournalEntryPinList → JournalEntryPinList
dec_count pl = record pl { count = u32 (pl.count + (2 ^ 32 - 1)) }

abbrev pub inc_count : JournalEntryPinList → JournalEntryPinList
inc_count pl = record pl { count = u32 (pl.count + 1) }

abbrev pub link_back : JournalPinType → ℕ → JournalEntryPinList → JournalEntryPinList
link_back ty a pl = record pl {
  unflushed = λ t. if t == type_index ty then pl.unflushed t ++ a ∷ [] else pl.unflushed t;
}

abbrev pub on_some : {A : Type 0} → (A → A) → Option A → Option A
on_some g none = none
on_some g (some x) = some (g x)

-- A change of the pin list at each index.
abbrev pub each_list : {A : Type 0} → (ℕ → A → A) → SeqState A → SeqState A
each_list g s = record s {
  pin_fifo = record s.pin_fifo { entries = λ i. on_some (g i) (s.pin_fifo.entries i) };
}

module _ {F : Type 0} where
  abbrev pub at_list : ℕ → (JournalEntryPinList → JournalEntryPinList) → Journal F → Journal F
  at_list i g j = record j { seqs = each_list (λ k pl. if k == i then g pl else pl) j.seqs }

  abbrev pub at_pin : ℕ → (JournalEntryPin F → JournalEntryPin F) → Journal F → Journal F
  at_pin a g j = record j { pins = λ b. if b == a then g (j.pins b) else j.pins b }

  abbrev pub journal_pin_active : JournalEntryPin F → Bool
  journal_pin_active pin = not (pin.seq == 0)

  -- The index of the pin list of a sequence number, if the ring holds one there.
  abbrev pub pin_list_index : Journal F → ℕ → Option ℕ
  pin_list_index j s = elim (entry_for_seq s j.seqs.pin_fifo) [
    | some _ ↦ some (s % pin_fifo_size)
    | none ↦ none
  ]

  unfoldable pub journal_seq_pin : Journal F → ℕ → Option ℕ
  journal_seq_pin j s = pin_list_index j s

  unfoldable pub maybe_seq_pin : Journal F → ℕ → Option ℕ
  maybe_seq_pin j s = if s == 0 then none else pin_list_index j s

  unfoldable pub update_last_seq : Journal F → Journal F
  update_last_seq j = record j { seqs = bch2_journal_maybe_update_last_seq list_count j.seqs }

  -- The count of the list at an index.
  abbrev pub count_at : Journal F → ℕ → ℕ
  count_at j i = elim (j.seqs.pin_fifo.entries i) [ some pl ↦ pl.count | none ↦ 0 ]

  abbrev pub is_last_list : Journal F → ℕ → Bool
  is_last_list j i = elim (pin_list_index j j.seqs.last_seq_ondisk) [
    | some k ↦ i == k
    | none ↦ false
  ]

  unfoldable pub journal_pin_drop_locked : Option ℕ → ℕ → Journal F → Bool × Journal F
  journal_pin_drop_locked none a j = (false, j)
  journal_pin_drop_locked (some i) a j =
      if journal_pin_active (j.pins a)
      then (
        if count_at j i == 1 then is_last_list j i else false,
        record j {
          seqs =
              each_list (λ k pl. if k == i then dec_count (unlink_pin a pl) else unlink_pin a pl)
                j.seqs;
          flush_in_progress_dropped =
              if j.flush_in_progress == a then true else j.flush_in_progress_dropped;
        },
      )
      else (false, j)

  abbrev pub reclaimed : Bool → Journal F → Journal F
  reclaimed reclaim j = if reclaim then update_last_seq j else j

  unfoldable pub bch2_journal_pin_drop : ℕ → Journal F → Option (Journal F)
  bch2_journal_pin_drop a j =
      let s = (j.pins a).seq in
      if s == 0 then some j else elim (journal_seq_pin j s) [
        | none ↦ none
        | some i ↦
            let (reclaim, j') = journal_pin_drop_locked (some i) a j in
            some (reclaimed reclaim (at_pin a (λ p. record p { seq = 0 }) j'))
      ]

  abbrev pub given : Option F → Option F → Option F
  given none own = own
  given (some f) own = some f

  unfoldable pub journal_pin_set_locked :
      Option ℕ → ℕ → ℕ → ℕ → Option F → Journal F → Bool × Journal F
  journal_pin_set_locked old_l new_l a s f j =
      let (reclaim, dropped) =
        if journal_pin_active (j.pins a) then journal_pin_drop_locked old_l a j else (false, j) in
      (
        reclaim,
        at_pin a (λ p. record p { seq = s; flush = given f p.flush })
            (at_list new_l (λ pl. link_back (j.pins a).pin_type a (inc_count pl)) dropped),
      )

  unfoldable pub bch2_journal_pin_set : ℕ → ℕ → Option F → Journal F → Option (Journal F)
  bch2_journal_pin_set s a f j = elim (journal_seq_pin j s) [
    | none ↦ none
    | some new_l ↦
        let (reclaim, j') = journal_pin_set_locked (maybe_seq_pin j (j.pins a).seq) new_l a s f j in
        some (reclaimed reclaim j')
  ]

  unfoldable pub bch2_journal_pin_copy : ℕ → ℕ → Option F → Journal F → Option (Journal F)
  bch2_journal_pin_copy dst src f j =
      let s = (j.pins src).seq in
      if s == 0 then some j else elim (journal_seq_pin j s) [
        | none ↦ none
        | some src_l ↦
            let (reclaim, j') =
              journal_pin_set_locked (maybe_seq_pin j (j.pins dst).seq) src_l dst s f j in
            some (reclaimed reclaim j')
      ]

  unfoldable pub bch2_journal_pin_add : ℕ → ℕ → Option F → Journal F → Option (Journal F)
  bch2_journal_pin_add s a f j =
      let own = (j.pins a).seq in
      if not (journal_pin_active (j.pins a)) || ltb s own
      then bch2_journal_pin_set s a f j
      else some j

  unfoldable pub bch2_journal_pin_update : ℕ → ℕ → Option F → Journal F → Option (Journal F)
  bch2_journal_pin_update s a f j =
      let own = (j.pins a).seq in
      if not (journal_pin_active (j.pins a)) || ltb own s
      then bch2_journal_pin_set s a f j
      else some j

  -- Whether the count reached 0, and the journal after it.
  unfoldable pub bch2_journal_pin_put : ℕ → Journal F → Bool × Journal F
  bch2_journal_pin_put s j = elim (pin_list_index j s) [
    | none ↦ (false, j)
    | some i ↦ (count_at j i == 1, at_list i dec_count j)
  ]

  -- The list that `journal_entry_open` pushes for its entry, with one reference for the entry's
  -- buffer; `none` is the failed assertion that the ring has room.
  unfoldable pub push_entry_list : Journal F → Option (Journal F)
  push_entry_list j =
      let (answer, fifo) = push_back (new_pin_list 1) j.seqs.pin_fifo in
      elim answer [
        | ok _ ↦ some (record j { seqs = record j.seqs { pin_fifo = fifo } })
        | err _ ↦ none
      ]
