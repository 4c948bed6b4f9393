-- ===== src/Common/RingBuffer/Queue.antt =====
-- The FIFO that a ring of src/common/ring_buffer.c stands for: its elements from the oldest to the
-- newest.
use nsumo_video.Prelude.{
  ltb, ◌==◌, if◌then◌else◌, Bool-cases, length, get_elem?, get_elem?-set, get_elem?-snoc,
  length-snoc, ℕ, suc, ◌+◌, ◌-◌, ◌≤◌, ◌<◌, ◌≡◌, refl, inl, inr, true, false, none, some, List, [],
  ◌∷◌, ◌++◌, arith,
}
use nsumo_video.Common.RingBuffer.{
  RingBuffer, init, next_idx, get, drop_tail, write_head, put, peek_tail,
}
use nsumo_video.Common.RingBuffer.Valid.{
  IsValid, stored, next_idx_lem, is_empty_lem, write_head-IsValid,
}

-- Where the element that is `i` places behind the oldest one lies.
abbrev pub slot {ℓ} : {A : Type ℓ} → RingBuffer A → ℕ → ℕ
slot rb i =
    if ltb (rb.tail_idx + i) rb.buffer_size
    then rb.tail_idx + i
    else rb.tail_idx + i - rb.buffer_size

pub record Holds {ℓ} {A : Type ℓ} (rb : RingBuffer A) (q : List A) : Type ℓ where
  pub len : length q ≡ stored rb
  pub elems : (i : ℕ) → i < length q → get_elem? rb.buffer (slot rb i) ≡ get_elem? q i

module _ {ℓ} {A : Type ℓ} where
  -- The queue without its oldest element.
  abbrev pub rest : List A → List A
  rest [] = []
  rest (x ∷ xs) = xs

  -- What a ring of `size` elements keeps of `q` when `x` arrives.
  abbrev pub push : ℕ → List A → A → List A
  push size q x = (if length q == size then rest q else q) ++ x ∷ []

-- The splits on numbers in these proofs want elements of a type in `Type 0`.
module _ {A : Type 0} where
  length-rest : (q : List A) → length (rest q) ≡ length q - 1
  length-rest [] = omega arith
  length-rest (x ∷ q) = omega arith

  get_elem?-rest : (q : List A) (i : ℕ) → get_elem? (rest q) i ≡ get_elem? q (suc i)
  get_elem?-rest [] i = refl
  get_elem?-rest (x ∷ q) i = refl

  pub init-Holds : (size : ℕ) (z : A) → Holds (init size z) []
  unfolding init
  init-Holds size z = record { len = ground arith; elems = λ i h. absurd (omega arith) }

  stored-write_head :
      {rb : RingBuffer A} (x : A)
      → IsValid rb
      → rb.full ≡ false
      → stored (write_head rb x) ≡ stored rb + 1
  unfolding write_head
  stored-write_head {rb} x v h = ground (arith, next_idx_lem rb.head_idx v)

  stored-lt : {rb : RingBuffer A} → IsValid rb → rb.full ≡ false → stored rb < rb.buffer_size
  stored-lt v h = ground arith

  slot-lt :
      {rb : RingBuffer A} (i : ℕ) → IsValid rb → i < rb.buffer_size → slot rb i < rb.buffer_size
  slot-lt i v h = ground arith

  slot-head :
      {rb : RingBuffer A} (i : ℕ)
      → IsValid rb
      → rb.full ≡ false
      → i ≤ stored rb
      → (rb.head_idx == slot rb i) ≡ (stored rb == i)
  slot-head i v h k = ground arith

  write_head-Holds :
      {rb : RingBuffer A} {q : List A} (x : A)
      → IsValid rb
      → rb.full ≡ false
      → Holds rb q
      → Holds (write_head rb x) (q ++ x ∷ [])
  unfolding write_head
  write_head-Holds {rb} {q} x v h hq = record {
    len = omega (arith, length-snoc q x, stored-write_head x v h, hq.len);
    elems = λ i hi. ground (
      arith,
      length-snoc q x,
      hq.len,
      hq.elems i,
      slot-head i v h,
      get_elem?-snoc q x i,
      get_elem?-set rb.buffer rb.head_idx (slot rb i) x,
    );
  }

  dropped : RingBuffer A → RingBuffer A
  dropped rb = record rb { tail_idx = next_idx rb rb.tail_idx; full = false }

  dropped-Holds :
      {rb : RingBuffer A} (q : List A)
      → IsValid rb
      → 0 < stored rb
      → Holds rb q
      → Holds (dropped rb) (rest q)
  unfolding dropped
  dropped-Holds {rb} q v h hq = record {
    len = ground (arith, length-rest q, hq.len, next_idx_lem rb.tail_idx v);
    elems = λ i hi. ground (
      arith,
      length-rest q,
      hq.len,
      next_idx_lem rb.tail_idx v,
      get_elem?-rest q i,
      hq.elems (suc i),
    );
  }

  dropped-IsValid : {rb : RingBuffer A} → IsValid rb → IsValid (dropped rb)
  unfolding dropped
  dropped-IsValid {rb} v = ground (arith, next_idx_lem rb.tail_idx v)

  put_not_full : (rb : RingBuffer A) (x : A) → rb.full ≡ false → put rb x ≡ some (write_head rb x)
  unfolding put
  put_not_full rb x h = rw h

  put_full :
      {rb : RingBuffer A} (x : A)
      → IsValid rb
      → rb.full ≡ true
      → put rb x ≡ some (write_head (dropped rb) x)
  unfolding put dropped
  put_full x v h = ground arith

  length-full :
      {rb : RingBuffer A} {q : List A}
      → IsValid rb
      → Holds rb q
      → rb.full ≡ true
      → (length q == rb.buffer_size) ≡ true
  length-full v hq h = ground (arith, hq.len)

  pub length-not_full :
      {rb : RingBuffer A} {q : List A}
      → IsValid rb
      → Holds rb q
      → rb.full ≡ false
      → (length q == rb.buffer_size) ≡ false
  length-not_full v hq h = ground (arith, hq.len, stored-lt v h)

  -- On a well-formed ring that holds `q`, `ring_buffer_put` fails no assertion and keeps the ring
  -- well formed and of the same size. The ring then holds `q` with the new element behind it; if `q` had
  -- `buffer_size` elements, its oldest one is gone.
  pub put_lem :
      {rb : RingBuffer A} (q : List A) (x : A)
      → IsValid rb
      → Holds rb q
      → (rb' : RingBuffer A) × (put rb x ≡ some rb')
        × IsValid rb'
        × Holds rb' (push rb.buffer_size q x)
        × (rb'.buffer_size ≡ rb.buffer_size)
  unfolding dropped write_head
  put_lem {rb} q x v hq = elim (Bool-cases rb.full) [
    | inl h ↦ (
      write_head (dropped rb) x,
      put_full x v h,
      write_head-IsValid x (dropped-IsValid v) refl,
      rw (length-full v hq h)
          (write_head-Holds x (dropped-IsValid v) refl (dropped-Holds q v (ground arith) hq)),
      refl,
    )
    | inr h ↦ (
      write_head rb x,
      put_not_full rb x h,
      write_head-IsValid x v h,
      rw (length-not_full v hq h) (write_head-Holds x v h hq),
      refl,
    )
  ]

  -- On a well-formed ring that holds `x` in front of `q`, `ring_buffer_get` returns `x`, the oldest
  -- element, and leaves a well-formed ring that holds `q`.
  pub get_lem :
      {rb : RingBuffer A} (x : A) (q : List A)
      → IsValid rb
      → Holds rb (x ∷ q)
      → (rb' : RingBuffer A) × (get rb ≡ some (x, rb')) × IsValid rb' × Holds rb' q
  unfolding get dropped
  get_lem {rb} x q v hq = (
    dropped rb,
    ground (arith, is_empty_lem v, hq.len, hq.elems 0),
    dropped-IsValid v,
    dropped-Holds (x ∷ q) v (ground (arith, hq.len)) hq,
  )

  -- `ring_buffer_get` with NULL drops the oldest element.
  pub drop_tail_lem :
      {rb : RingBuffer A} (x : A) (q : List A)
      → IsValid rb
      → Holds rb (x ∷ q)
      → (rb' : RingBuffer A) × (drop_tail rb ≡ some rb')
        × IsValid rb'
        × Holds rb' q
        × (rb'.buffer_size ≡ rb.buffer_size)
  unfolding drop_tail dropped
  drop_tail_lem {rb} x q v hq = (
    dropped rb,
    ground (arith, is_empty_lem v, hq.len),
    dropped-IsValid v,
    dropped-Holds (x ∷ q) v (ground (arith, hq.len)) hq,
    refl,
  )

  -- On a well-formed ring, `ring_buffer_peek_tail` returns the oldest element, and fails its
  -- assertion exactly where there is none.
  pub peek_tail_lem :
      {rb : RingBuffer A} (q : List A) → IsValid rb → Holds rb q → peek_tail rb ≡ get_elem? q 0
  unfolding peek_tail
  peek_tail_lem [] v hq = ground (arith, is_empty_lem v, hq.len)
  peek_tail_lem (x ∷ q) v hq = ground (arith, is_empty_lem v, hq.len, hq.elems 0)

  -- `ring_buffer_get` on an empty ring fails its assertion.
  pub get_empty : {rb : RingBuffer A} → IsValid rb → Holds rb [] → get rb ≡ none
  unfolding get
  get_empty v hq = ground (arith, is_empty_lem v, hq.len)
