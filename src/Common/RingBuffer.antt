-- ===== src/Common/RingBuffer.antt =====
-- src/common/ring_buffer.c and ring_buffer.h. An element is a value of `A`, so that the storage is
-- a list of `buffer_size` elements (in C it is `buffer_size * elem_size` bytes, and only whole
-- elements are copied). A function that changes `*rb` returns the new ring; `none` is a failed
-- ASSERT, or a copy outside the storage.
pub mod Valid
pub mod Queue
pub mod Count
use nsumo_video.Prelude.{
  ltb, leb, ◌==◌, if◌then◌else◌, get_elem?, set, replicate, ◌>>=◌, ◌>>◌, assert, ℕ, ◌+◌, ◌-◌, ◌%◌,
  Bool, true, false, not, ◌&&◌, Option, some, List,
}

-- `struct ring_buffer`. The indices and the size are uint8_t; `elem_size` is the type `A`.
pub record RingBuffer {ℓ} (A : Type ℓ) : Type ℓ where
  pub buffer : List A
  pub buffer_size : ℕ
  pub head_idx : ℕ
  pub tail_idx : ℕ
  pub full : Bool

-- `uint8_t` arithmetic wraps.
abbrev pub u8 : ℕ → ℕ
u8 n = n % 256

module _ {ℓ} {A : Type ℓ} where
  -- The macro RING_BUFFER: the storage is zeroed, and so are the indices.
  unfoldable pub init : ℕ → A → RingBuffer A
  init size zeroed = record {
    buffer = replicate size zeroed;
    buffer_size = size;
    head_idx = 0;
    tail_idx = 0;
    full = false;
  }

  unfoldable pub is_empty : RingBuffer A → Bool
  is_empty rb = not rb.full && rb.head_idx == rb.tail_idx

  unfoldable pub is_full : RingBuffer A → Bool
  is_full rb = rb.full

  unfoldable pub count : RingBuffer A → ℕ
  count rb =
      if rb.full
      then rb.buffer_size
      else if leb rb.tail_idx rb.head_idx
      then u8 (rb.head_idx - rb.tail_idx)
      else u8 (rb.buffer_size + 256 - rb.tail_idx + rb.head_idx + 1)

  -- `idx++`, and back to 0 at the end of the storage.
  unfoldable pub next_idx : RingBuffer A → ℕ → ℕ
  next_idx rb idx = if u8 (idx + 1) == rb.buffer_size then 0 else u8 (idx + 1)

  -- `ring_buffer_get` with a destination that is not NULL.
  unfoldable pub get : RingBuffer A → Option (A × RingBuffer A)
  unfolding is_empty next_idx
  get rb = do
    assert (not (is_empty rb))
    x ← get_elem? rb.buffer rb.tail_idx
    some (x, record rb { tail_idx = next_idx rb rb.tail_idx; full = false })

  -- `ring_buffer_get(rb, NULL)`: drops the oldest element.
  unfoldable pub drop_tail : RingBuffer A → Option (RingBuffer A)
  unfolding is_empty next_idx
  drop_tail rb = do
    assert (not (is_empty rb))
    some (record rb { tail_idx = next_idx rb rb.tail_idx; full = false })

  -- The part of `ring_buffer_put` behind the drop: the copy, the increment and the test for full.
  unfoldable pub write_head : RingBuffer A → A → RingBuffer A
  unfolding next_idx
  write_head rb x =
      let head = next_idx rb rb.head_idx in
      record rb {
        buffer = set rb.buffer rb.head_idx x;
        head_idx = head;
        full = if head == rb.tail_idx then true else rb.full;
      }

  unfoldable pub put : RingBuffer A → A → Option (RingBuffer A)
  unfolding drop_tail write_head
  put rb x =
      if rb.full then (drop_tail rb >>= λ r. some (write_head r x)) else some (write_head rb x)

  unfoldable pub peek_tail : RingBuffer A → Option A
  unfolding is_empty
  peek_tail rb = do assert (not (is_empty rb)); get_elem? rb.buffer rb.tail_idx

  -- `offset_idx` is an int16_t: where `head_idx - 1 - offset` is negative, `buffer_size` is added.
  unfoldable pub head_offset_idx : RingBuffer A → ℕ → ℕ
  head_offset_idx rb offset =
      if leb (offset + 1) rb.head_idx
      then rb.head_idx - 1 - offset
      else u8 (rb.buffer_size + 256 + rb.head_idx - 1 - offset)

  unfoldable pub peek_head : RingBuffer A → ℕ → Option A
  unfolding count head_offset_idx
  peek_head rb offset = do
    assert (ltb offset (count rb))
    get_elem? rb.buffer (head_offset_idx rb offset)
