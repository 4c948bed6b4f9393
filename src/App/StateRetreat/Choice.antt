-- ===== src/App/StateRetreat/Choice.antt =====
-- How src/app/state_retreat.c chooses a retreat.
use nsumo_video.Prelude.{
  if◌then◌else◌, ℕ, ◌≡◌, refl, Bool, true, false, ◌||◌, Option, none, some, arith,
}
use nsumo_video.App.Types.{EnemyPos, Enemy, Line, RetreatState}
use nsumo_video.App.Enemy.{enemy_at_left, enemy_at_right, enemy_at_front}
use nsumo_video.App.Line.Direction.{mirror_line}
use nsumo_video.App.Machine.{Machine}
use nsumo_video.App.StateRetreat.{
  retreat_states, current_move, is_arcturn_right, is_arcturn_left, next_retreat_for,
  next_retreat_state, start_retreat_move, state_retreat_run,
}

-- A retreat whose first move reverses.
abbrev pub reversed_first : RetreatState → Bool
reversed_first RetreatState.reverse = true
reversed_first RetreatState.align_left = true
reversed_first RetreatState.align_right = true
reversed_first _ = false

back_line_choice :
    (e : Enemy) (s : RetreatState)
    → (next_retreat_for Line.back_left e (record { state = s; move_idx = 0 })
        ≡ some (
            if reversed_first s || is_arcturn_right s
            then RetreatState.arcturn_right
            else RetreatState.forward))
      × (next_retreat_for Line.back_right e (record { state = s; move_idx = 0 })
          ≡ some (
              if reversed_first s || is_arcturn_left s
              then RetreatState.arcturn_left
              else RetreatState.forward))
unfolding next_retreat_for current_move retreat_states
back_line_choice e RetreatState.reverse = (refl, refl)
back_line_choice e _ = (refl, refl)

-- Where the line is seen by the back left sensor alone, `state_retreat_run` starts a new retreat by the last
-- one, at whichever of its moves `i` the robot was: the sharp turn to the right if the last retreat was that turn
-- or one whose first move reversed, and else driving forward.
pub state_retreat_run-back_left :
    (now i : ℕ) (m : Machine)
    → m.common.line ≡ Line.back_left
    → state_retreat_run now (record m { retreat = record m.retreat { move_idx = i } })
      ≡ start_retreat_move now (record m {
        retreat = record {
          state =
              if reversed_first m.retreat.state || is_arcturn_right m.retreat.state
              then RetreatState.arcturn_right
              else RetreatState.forward;
          move_idx = 0;
        };
      })
unfolding state_retreat_run next_retreat_state
state_retreat_run-back_left now i m h =
    rw h (rw (back_line_choice m.common.enemy m.retreat.state).0 refl)

abbrev pub mirror_retreat : RetreatState → RetreatState
mirror_retreat RetreatState.rotate_left = RetreatState.rotate_right
mirror_retreat RetreatState.rotate_right = RetreatState.rotate_left
mirror_retreat RetreatState.arcturn_left = RetreatState.arcturn_right
mirror_retreat RetreatState.arcturn_right = RetreatState.arcturn_left
mirror_retreat RetreatState.align_left = RetreatState.align_right
mirror_retreat RetreatState.align_right = RetreatState.align_left
mirror_retreat s = s

abbrev pub mirror_pos : EnemyPos → EnemyPos
mirror_pos EnemyPos.left = EnemyPos.right
mirror_pos EnemyPos.right = EnemyPos.left
mirror_pos EnemyPos.front_left = EnemyPos.front_right
mirror_pos EnemyPos.front_right = EnemyPos.front_left
mirror_pos EnemyPos.front_and_front_left = EnemyPos.front_and_front_right
mirror_pos EnemyPos.front_and_front_right = EnemyPos.front_and_front_left
mirror_pos p = p

abbrev pub mirror_enemy : Enemy → Enemy
mirror_enemy e = record e { position = mirror_pos e.position }

abbrev pub mirror_choice : Option RetreatState → Option RetreatState
mirror_choice none = none
mirror_choice (some s) = some (mirror_retreat s)

-- The choice of a retreat in the code, made at its move 0, has no preference for a side: with the line,
-- the enemy and the last retreat mirrored, the choice is mirrored, and an assertion that fails on one
-- side fails on the other.
pub next_retreat_for-mirror :
    (l : Line) (e : Enemy) (s : RetreatState)
    → next_retreat_for
        (mirror_line l)
        (mirror_enemy e)
        (record { state = mirror_retreat s; move_idx = 0 })
      ≡ mirror_choice (next_retreat_for l e (record { state = s; move_idx = 0 }))
unfolding next_retreat_for current_move retreat_states enemy_at_left enemy_at_right enemy_at_front
next_retreat_for-mirror Line.none e s = ground arith
next_retreat_for-mirror _ e s = ground arith
