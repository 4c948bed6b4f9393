-- ===== src/Common/Tests.antt =====
-- Runs of the definitions for src/common at concrete values, and the theorems there.
use nsumo_video.Prelude.{get_elem?, ℕ, zero, suc, ◌<◌, ◌≡◌, refl, true, false, some, [], ◌∷◌, arith}
use nsumo_video.Common.RingBuffer.{RingBuffer, count, get, put, peek_head}
use nsumo_video.Common.RingBuffer.Valid.{IsValid}
use nsumo_video.Common.RingBuffer.Queue.{slot, Holds, put_lem, get_lem}
use nsumo_video.Common.RingBuffer.Count.{count_lem, peek_head_lem}
use nsumo_video.Common.EnumToString.{state_to_string}

-- Four places, all taken: the oldest element is 7.
abbrev full_ring : RingBuffer ℕ
full_ring = record {
  buffer = 9 ∷ 10 ∷ 7 ∷ 8 ∷ [];
  buffer_size = 4;
  head_idx = 2;
  tail_idx = 2;
  full = true;
}

full_ring-IsValid : IsValid full_ring
full_ring-IsValid = ground arith

full_ring-Holds : Holds full_ring (7 ∷ 8 ∷ 9 ∷ 10 ∷ [])
full_ring-Holds = record { len = refl; elems = elems }
  where
    elems :
        (i : ℕ)
        → i < 4
        → get_elem? full_ring.buffer (slot full_ring i) ≡ get_elem? (7 ∷ 8 ∷ 9 ∷ 10 ∷ []) i
    elems zero h = refl
    elems (suc zero) h = refl
    elems (suc (suc zero)) h = refl
    elems (suc (suc (suc zero))) h = refl
    elems (suc (suc (suc (suc i)))) h = absurd (omega arith)

-- Two elements round the end of the storage.
abbrev wrapped_ring : RingBuffer ℕ
wrapped_ring = record {
  buffer = 6 ∷ 0 ∷ 0 ∷ 5 ∷ [];
  buffer_size = 4;
  head_idx = 1;
  tail_idx = 3;
  full = false;
}

wrapped_ring-IsValid : IsValid wrapped_ring
wrapped_ring-IsValid = ground arith

wrapped_ring-Holds : Holds wrapped_ring (5 ∷ 6 ∷ [])
wrapped_ring-Holds = record { len = refl; elems = elems }
  where
    elems :
        (i : ℕ)
        → i < 2
        → get_elem? wrapped_ring.buffer (slot wrapped_ring i) ≡ get_elem? (5 ∷ 6 ∷ []) i
    elems zero h = refl
    elems (suc zero) h = refl
    elems (suc (suc i)) h = absurd (omega arith)

-- A full ring forgets its oldest element.
put_lem_example :
    (rb' : RingBuffer ℕ) × (put full_ring 11 ≡ some rb')
    × IsValid rb'
    × Holds rb' (8 ∷ 9 ∷ 10 ∷ 11 ∷ [])
    × (rb'.buffer_size ≡ 4)
put_lem_example = put_lem (7 ∷ 8 ∷ 9 ∷ 10 ∷ []) 11 full_ring-IsValid full_ring-Holds

get_lem_example :
    (rb' : RingBuffer ℕ) × (get wrapped_ring ≡ some (5, rb')) × IsValid rb' × Holds rb' (6 ∷ [])
get_lem_example = get_lem 5 (6 ∷ []) wrapped_ring-IsValid wrapped_ring-Holds

-- Two elements, and a count of three.
count_lem_example : count wrapped_ring ≡ 3
count_lem_example = count_lem (5 ∷ 6 ∷ []) wrapped_ring-IsValid wrapped_ring-Holds

peek_head_lem_example : peek_head full_ring 1 ≡ some 9
peek_head_lem_example =
    peek_head_lem (7 ∷ 8 ∷ 9 ∷ 10 ∷ []) 1 full_ring-IsValid full_ring-Holds (omega arith)

-- The same, computed.
count_wrapped : count wrapped_ring ≡ 3
unfolding count
count_wrapped = refl

peek_head_full : peek_head full_ring 0 ≡ some 10
unfolding peek_head
peek_head_full = refl

state_to_string_attack : state_to_string 2 ≡ "ATTACK"
unfolding state_to_string
state_to_string_attack = refl
