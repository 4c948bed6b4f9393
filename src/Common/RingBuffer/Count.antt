-- ===== src/Common/RingBuffer/Count.antt =====
-- `ring_buffer_count` and `ring_buffer_peek_head` of src/common/ring_buffer.c.
use nsumo_video.Prelude.{
  ltb, if◌then◌else◌, length, get_elem?, ℕ, ◌+◌, ◌-◌, ◌≤◌, ◌<◌, ◌≡◌, ◌⊎◌, Bool, true, false, not,
  ◌&&◌, none, some, List, arith,
}
use nsumo_video.Common.RingBuffer.{RingBuffer, count, next_idx, put, head_offset_idx, peek_head}
use nsumo_video.Common.RingBuffer.Valid.{IsValid, stored}
use nsumo_video.Common.RingBuffer.Queue.{slot, Holds}

-- The elements lie round the end of the storage, with room left.
abbrev pub wraps {ℓ} : {A : Type ℓ} → RingBuffer A → Bool
wraps rb = not rb.full && ltb rb.head_idx rb.tail_idx

module _ {A : Type 0} where
  -- On a well-formed ring that holds `q`, `ring_buffer_count` is the length of `q`, except where the
  -- elements lie round the end of the storage with room left: there it is one more.
  pub count_lem :
      {rb : RingBuffer A} (q : List A)
      → IsValid rb
      → Holds rb q
      → count rb ≡ (if wraps rb then length q + 1 else length q)
  unfolding count
  count_lem q v hq = ground (arith, hq.len)

  pub head_offset_idx_lem :
      {rb : RingBuffer A} (offset : ℕ)
      → IsValid rb
      → offset < stored rb
      → head_offset_idx rb offset ≡ slot rb (stored rb - 1 - offset)
  unfolding head_offset_idx
  head_offset_idx_lem offset v h = ground arith

  -- On a well-formed ring that holds `q`, `ring_buffer_peek_head` with an offset below the number of
  -- elements returns the element that is `offset` places before the newest one.
  pub peek_head_lem :
      {rb : RingBuffer A} (q : List A) (offset : ℕ)
      → IsValid rb
      → Holds rb q
      → offset < length q
      → peek_head rb offset ≡ get_elem? q (length q - 1 - offset)
  unfolding peek_head
  peek_head_lem q offset v hq h = ground (
    arith,
    hq.len,
    count_lem q v hq,
    head_offset_idx_lem offset v,
    hq.elems (length q - 1 - offset),
  )

  -- Beyond the elements the assertion fails, on a ring that does not wrap.
  pub peek_head_beyond :
      {rb : RingBuffer A} (q : List A) (offset : ℕ)
      → IsValid rb
      → Holds rb q
      → wraps rb ≡ false
      → length q ≤ offset
      → peek_head rb offset ≡ none
  unfolding peek_head
  peek_head_beyond q offset v hq w h = ground (arith, count_lem q v hq)

-- A ring that is only put to fills from index 0 and is full from then on.
abbrev pub NoWrap {ℓ} : {A : Type ℓ} → RingBuffer A → Type 0
NoWrap rb = (rb.full ≡ true) ⊎ (rb.tail_idx ≡ 0)

module _ {A : Type 0} where
  pub wraps_of_NoWrap : (rb : RingBuffer A) → NoWrap rb → wraps rb ≡ false
  wraps_of_NoWrap rb h = ground arith

  -- `ring_buffer_put` alone never makes a ring wrap with room left.
  pub put-NoWrap :
      {rb rb' : RingBuffer A} (x : A) → IsValid rb → NoWrap rb → put rb x ≡ some rb' → NoWrap rb'
  unfolding put next_idx
  put-NoWrap x v h e = ground arith
