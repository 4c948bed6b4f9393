-- ===== src/Common/RingBuffer/Valid.antt =====
-- The well-formed rings of src/common/ring_buffer.c: indices inside the storage, and the flag `full`
-- only where the two indices meet.
use nsumo_video.Prelude.{
  leb, ◌==◌, if◌then◌else◌, length, length-set, length-replicate, ℕ, ◌+◌, ◌-◌, ◌<◌, ◌≡◌, true,
  false, arith,
}
use nsumo_video.Common.RingBuffer.{RingBuffer, init, is_empty, next_idx, write_head}

pub record IsValid {ℓ} {A : Type ℓ} (rb : RingBuffer A) : Type 0 where
  pub size_pos : 0 < rb.buffer_size
  -- the static_assert of the macro RING_BUFFER
  pub size_small : rb.buffer_size < 255
  pub storage : length rb.buffer ≡ rb.buffer_size
  pub head_in : rb.head_idx < rb.buffer_size
  pub tail_in : rb.tail_idx < rb.buffer_size
  pub full_meet : rb.full ≡ true → rb.head_idx ≡ rb.tail_idx

-- How many elements the ring holds.
abbrev pub stored {ℓ} : {A : Type ℓ} → RingBuffer A → ℕ
stored rb =
    if rb.full
    then rb.buffer_size
    else if leb rb.tail_idx rb.head_idx
    then rb.head_idx - rb.tail_idx
    else rb.buffer_size - rb.tail_idx + rb.head_idx

module _ {ℓ} {A : Type ℓ} where
  pub init-IsValid : (size : ℕ) (z : A) → 0 < size → size < 255 → IsValid (init size z)
  unfolding init
  init-IsValid size z h k = ground (arith, length-replicate size z)

  pub next_idx_lem :
      {rb : RingBuffer A} (i : ℕ)
      → IsValid rb
      → i < rb.buffer_size
      → next_idx rb i ≡ (if i + 1 == rb.buffer_size then 0 else i + 1)
  unfolding next_idx
  next_idx_lem i v h = ground arith

  pub is_empty_lem : {rb : RingBuffer A} → IsValid rb → is_empty rb ≡ (stored rb == 0)
  unfolding is_empty
  is_empty_lem v = ground arith

  pub write_head-IsValid :
      {rb : RingBuffer A} (x : A) → IsValid rb → rb.full ≡ false → IsValid (write_head rb x)
  unfolding write_head
  write_head-IsValid {rb} x v h =
      ground (arith, next_idx_lem rb.head_idx v, length-set rb.buffer rb.head_idx x)
