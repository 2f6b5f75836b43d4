-- ===== src/Alloc/Bucket.antt =====
-- alloc/bucket.rs: the type of a bucket, its metadata, and the state derived from sector counts.
pub mod Derived
use volmount.Common.{ℕ, ◌+◌, ltb, if◌then◌else◌, Bool, true, false, u32}

pub data BchDataType : Type 0 where
  free sb journal btree user cached parity stripe need_gc_gens need_discard unstriped : BchDataType
  reserved free_discarded free_available sb_only : BchDataType

pub record Bucket : Type 0 where
  pub state : BchDataType
  pub dirty_sectors : ℕ
  pub cached_sectors : ℕ
  pub stripe : ℕ
  pub journal_seq : ℕ
  pub group : ℕ
  pub version : ℕ
  pub bucket_idx : ℕ
  pub nocow_locked : Bool

unfoldable pub free_bucket : ℕ → ℕ → Bucket
free_bucket group bucket_idx = record {
  state = free;
  dirty_sectors = 0;
  cached_sectors = 0;
  stripe = 0;
  journal_seq = 0;
  group = group;
  version = 0;
  bucket_idx = bucket_idx;
  nocow_locked = false;
}

unfoldable pub is_free : Bucket → Bool
is_free b = elim b.state [ free ↦ true | _ ↦ false ]

unfoldable pub mark_allocated : Bucket → Bucket
mark_allocated b = record b { state = user; version = u32 (b.version + 1) }

unfoldable pub mark_free : Bucket → Bucket
mark_free b = record b { state = free; version = u32 (b.version + 1) }

unfoldable pub mark_dirty : Bucket → Bucket
mark_dirty b = record b { state = need_gc_gens }

unfoldable pub mark_reserved : Bucket → Bucket
mark_reserved b = record b { state = reserved }

-- The `match` of a dirty bucket: a transient state counts as user data.
unfoldable pub dirty_type : BchDataType → BchDataType
dirty_type need_discard = user
dirty_type need_gc_gens = user
dirty_type free_discarded = user
dirty_type reserved = user
dirty_type sb_only = user
dirty_type free_available = user
dirty_type free = user
dirty_type t = t

unfoldable pub derive_state : Bucket → BchDataType
unfolding dirty_type
derive_state b =
    if ltb 0 b.stripe
    then stripe
    else if ltb 0 b.dirty_sectors
    then dirty_type b.state
    else if ltb 0 b.cached_sectors
    then cached
    else free

unfoldable pub derive_data_type : ℕ → ℕ → ℕ → BchDataType → BchDataType
unfolding dirty_type
derive_data_type dirty_sectors cached_sectors stripe_refs data_type =
    if ltb 0 stripe_refs
    then stripe
    else if ltb 0 dirty_sectors
    then dirty_type data_type
    else if ltb 0 cached_sectors
    then cached
    else free
