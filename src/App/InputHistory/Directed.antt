-- ===== src/App/InputHistory/Directed.antt =====
-- What `input_history_last_directed_enemy` of src/app/input_history.c finds.
use nsumo_video.Prelude.{
  if◌then◌else◌, Bool-cases, length, get_elem?, get_or, get_elem?-eq-get_or, ℕ, zero, suc, ◌+◌, ◌≤◌,
  ◌≡◌, refl, ap, ◌∙◌, ◌≢◌, inl, inr, true, false, some, List, [], ◌∷◌, arith,
}
use nsumo_video.Common.RingBuffer.{RingBuffer}
use nsumo_video.Common.RingBuffer.Count.{peek_head_lem}
use nsumo_video.App.Types.{Enemy, Line, Input}
use nsumo_video.App.Enemy.{no_enemy}
use nsumo_video.App.InputHistory.{
  is_directed, last_directed_from, input_history_last_directed_enemy,
}
use nsumo_video.App.InputHistory.Saved.{IsHistory, count-IsHistory}

-- No input of `q` from index `n` on has its enemy at the left or at the right.
abbrev pub NoneFrom : List Input → ℕ → Type 0
NoneFrom q n = (j : ℕ) (y : Input) → n ≤ j → get_elem? q j ≡ some y → is_directed y ≡ false

-- `e` is the enemy of the newest input of `q` that has one at the left or at the right, or no enemy
-- where there is none.
pub data IsLastDirected (q : List Input) (e : Enemy) : Type 0 where
  found :
      (i : ℕ) (x : Input)
      → get_elem? q i ≡ some x
      → is_directed x ≡ true
      → e ≡ x.enemy
      → NoneFrom q (suc i)
      → IsLastDirected q e
  absent : e ≡ no_enemy → NoneFrom q 0 → IsLastDirected q e

last_directed_step :
    {history : RingBuffer Input} (q : List Input) (n offset : ℕ) (x : Input)
    → IsHistory history q
    → suc n + offset ≡ length q
    → get_elem? q n ≡ some x
    → last_directed_from history (suc n) offset
      ≡ (if is_directed x then some x.enemy else last_directed_from history n (offset + 1))
unfolding last_directed_from
last_directed_step {history} q n offset x h e g = rw (
    peek_head_lem q offset h.valid h.holds (omega arith)
    ∙ ap (λ i. get_elem? q i) (omega arith)
    ∙ g)

abbrev no_input : Input
no_input = record { enemy = no_enemy; line = Line.none }

get_elem?-past : (q : List Input) (j : ℕ) (y : Input) → length q ≤ j → get_elem? q j ≢ some y
get_elem?-past [] j y h e = cc
get_elem?-past (x ∷ q) zero y h e = omega arith
get_elem?-past (x ∷ q) (suc j) y h e = get_elem?-past q j y (omega arith) e

none-step :
    (q : List Input) (n : ℕ) (x : Input)
    → get_elem? q n ≡ some x
    → is_directed x ≡ false
    → NoneFrom q (suc n)
    → NoneFrom q n
none-step q n x g d f j y k e = ground (arith, f j y)

last_directed_from_lem :
    {history : RingBuffer Input} (q : List Input) (n offset : ℕ)
    → IsHistory history q
    → n + offset ≡ length q
    → NoneFrom q n
    → (e : Enemy) × (last_directed_from history n offset ≡ some e) × IsLastDirected q e
unfolding last_directed_from
last_directed_from_lem q zero offset h e f = (no_enemy, refl, absent refl f)
last_directed_from_lem {history} q (suc n) offset h e f =
    let x : Input = get_or q n no_input in
    let g : get_elem? q n ≡ some x = get_elem?-eq-get_or q n no_input (omega arith) in
    let stepped = last_directed_step q n offset x h e g in
    elim (Bool-cases (is_directed x)) [
      | inl d ↦ (x.enemy, stepped ∙ rw d, found n x g d refl f)
      | inr d ↦
          (let (r, p, w) =
              last_directed_from_lem q n (offset + 1) h (omega arith) (none-step q n x g d f) in
            (r, stepped ∙ rw d p, w))
    ]

-- On a history that holds `q`, `input_history_last_directed_enemy` fails no assertion, and returns
-- the enemy of the newest saved input that has one at the left or at the right, or no enemy where
-- no saved input has.
pub last_directed_enemy_lem :
    {history : RingBuffer Input} (q : List Input)
    → IsHistory history q
    → (e : Enemy) × (input_history_last_directed_enemy history ≡ some e) × IsLastDirected q e
unfolding input_history_last_directed_enemy
last_directed_enemy_lem {history} q h = rw (count-IsHistory q h) (
    last_directed_from_lem q (length q) 0 h (omega arith)
      (λ j y k e. absurd (get_elem?-past q j y k e)))
