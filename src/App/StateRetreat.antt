-- ===== src/App/StateRetreat.antt =====
-- src/app/state_retreat.c
pub mod Choice
use nsumo_video.Prelude.{
  ltb, ◌==◌, if◌then◌else◌, get_elem?, ◌>>=◌, ◌>>◌, assert, ℕ, ◌+◌, Bool, true, false, ◌||◌, Option,
  none, some, List, [], ◌∷◌,
}
use nsumo_video.App.Types.{Enemy, Line, DriveDir, DriveSpeed, State, Event, RetreatState}
use nsumo_video.App.Enemy.{enemy_at_left, enemy_at_right, enemy_at_front}
use nsumo_video.App.Machine.{RetreatData, Machine, state_machine_post_internal_event, drive_for}

-- `struct move`
pub record Move : Type 0 where
  pub dir : DriveDir
  pub speed : DriveSpeed
  pub duration : ℕ

-- `struct retreat_state`: MOVE_MAX_CNT moves, of which `move_cnt` are used.
pub record Moves : Type 0 where
  pub moves : List Move
  pub move_cnt : ℕ

abbrev move : DriveDir → DriveSpeed → ℕ → Move
move dir speed duration = record { dir = dir; speed = speed; duration = duration }

-- What C fills the rest of `moves` with.
abbrev pub zero_move : Move
zero_move = move DriveDir.forward DriveSpeed.slow 0

abbrev one_move : Move → Moves
one_move x = record { moves = x ∷ zero_move ∷ zero_move ∷ []; move_cnt = 1 }

unfoldable pub retreat_states : RetreatState → Moves
retreat_states RetreatState.reverse = one_move (move DriveDir.reverse DriveSpeed.max 300)
retreat_states RetreatState.forward = one_move (move DriveDir.forward DriveSpeed.fast 300)
retreat_states RetreatState.rotate_left = one_move (move DriveDir.rotate_left DriveSpeed.fast 150)
retreat_states RetreatState.rotate_right = one_move (move DriveDir.rotate_right DriveSpeed.fast 150)
retreat_states RetreatState.arcturn_left =
    one_move (move DriveDir.arcturn_sharp_left DriveSpeed.max 150)
retreat_states RetreatState.arcturn_right =
    one_move (move DriveDir.arcturn_sharp_right DriveSpeed.max 150)
retreat_states RetreatState.align_left = record {
  moves =
      move DriveDir.reverse DriveSpeed.max 300
      ∷ move DriveDir.arcturn_sharp_left DriveSpeed.max 250
      ∷ move DriveDir.arcturn_mid_right DriveSpeed.max 300
      ∷ [];
  move_cnt = 3;
}
retreat_states RetreatState.align_right = record {
  moves =
      move DriveDir.reverse DriveSpeed.max 300
      ∷ move DriveDir.arcturn_sharp_right DriveSpeed.max 250
      ∷ move DriveDir.arcturn_mid_left DriveSpeed.max 300
      ∷ [];
  move_cnt = 3;
}

-- A read behind the array gives `none`.
unfoldable pub current_move : RetreatData → Option Move
current_move data' = get_elem? (retreat_states data'.state).moves data'.move_idx

abbrev pub is_reverse : DriveDir → Bool
is_reverse DriveDir.reverse = true
is_reverse _ = false

abbrev pub is_arcturn_right : RetreatState → Bool
is_arcturn_right RetreatState.arcturn_right = true
is_arcturn_right _ = false

abbrev pub is_arcturn_left : RetreatState → Bool
is_arcturn_left RetreatState.arcturn_left = true
is_arcturn_left _ = false

-- The cases of the switch in `next_retreat_state`; `none` is ASSERT(0).
unfoldable pub next_retreat_for : Line → Enemy → RetreatData → Option RetreatState
next_retreat_for Line.front_left e d =
    if enemy_at_right e || enemy_at_front e
    then some RetreatState.align_right
    else if enemy_at_left e
    then some RetreatState.align_left
    else some RetreatState.reverse
next_retreat_for Line.front_right e d =
    if enemy_at_left e || enemy_at_front e
    then some RetreatState.align_left
    else if enemy_at_right e
    then some RetreatState.align_right
    else some RetreatState.reverse
next_retreat_for Line.back_left e d = do
  now ← current_move d
  (if is_reverse now.dir
      then some RetreatState.arcturn_right
      else if is_arcturn_right d.state
      then some RetreatState.arcturn_right
      else some RetreatState.forward)
next_retreat_for Line.back_right e d = do
  now ← current_move d
  (if is_reverse now.dir
      then some RetreatState.arcturn_left
      else if is_arcturn_left d.state
      then some RetreatState.arcturn_left
      else some RetreatState.forward)
next_retreat_for Line.front e d =
    if enemy_at_left e
    then some RetreatState.align_left
    else if enemy_at_right e
    then some RetreatState.align_right
    else some RetreatState.reverse
next_retreat_for Line.back e d = some RetreatState.forward
next_retreat_for Line.left e d = some RetreatState.arcturn_right
next_retreat_for Line.right e d = some RetreatState.arcturn_left
next_retreat_for Line.diagonal_left e d = none
next_retreat_for Line.diagonal_right e d = none
next_retreat_for Line.none e d = none

unfoldable pub next_retreat_state : Machine → Option RetreatState
unfolding next_retreat_for
next_retreat_state m = next_retreat_for m.common.line m.common.enemy m.retreat

unfoldable pub start_retreat_move : ℕ → Machine → Option Machine
unfolding current_move
start_retreat_move now m = do
  assert (ltb m.retreat.move_idx (retreat_states m.retreat.state).move_cnt)
  x ← current_move m.retreat
  drive_for x.dir x.speed x.duration now m

unfoldable pub retreat_state_done : RetreatData → Bool
retreat_state_done d = d.move_idx == (retreat_states d.state).move_cnt

unfoldable pub state_retreat_run : ℕ → Machine → Option Machine
state_retreat_run now m = do
  let m0 = record m { retreat = record m.retreat { move_idx = 0 } }
  next ← next_retreat_state m0
  start_retreat_move now (record m { retreat = record { state = next; move_idx = 0 } })

-- The move timed out: the next one, or FINISHED.
unfoldable pub next_move : ℕ → Machine → Option Machine
next_move now m =
    let m1 = record m { retreat = record m.retreat { move_idx = m.retreat.move_idx + 1 } } in
    if retreat_state_done m1.retreat
    then state_machine_post_internal_event Event.finished m1
    else start_retreat_move now m1

-- The last clause holds the cases that assert.
unfoldable pub state_retreat_enter : State → Event → ℕ → Machine → Option Machine
state_retreat_enter State.search Event.line now m = state_retreat_run now m
state_retreat_enter State.attack Event.line now m = state_retreat_run now m
state_retreat_enter State.retreat Event.line now m = state_retreat_run now m
state_retreat_enter State.retreat Event.timeout now m = next_move now m
state_retreat_enter State.retreat Event.enemy now m = some m
state_retreat_enter State.retreat Event.none now m = some m
state_retreat_enter _ _ now m = none

unfoldable pub state_retreat_init : RetreatData
state_retreat_init = record { state = RetreatState.reverse; move_idx = 0 }
