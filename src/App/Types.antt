-- ===== src/App/Types.antt =====
-- The enums and small structs of the headers in src/app (enemy.h, line.h, drive.h, state_common.h,
-- state_search.h, state_attack.h, state_retreat.h, input_history.h) and of src/drivers/ir_remote.h.

-- `enemy_pos_e`
pub data EnemyPos : Type 0 where
  none front_left front front_right left right : EnemyPos
  front_and_front_left front_and_front_right front_all impossible : EnemyPos

-- `enemy_range_e`
pub data EnemyRange : Type 0 where
  none close mid far : EnemyRange

-- `struct enemy`
pub record Enemy : Type 0 where
  pub position : EnemyPos
  pub range : EnemyRange

-- `line_e`
pub data Line : Type 0 where
  none front back left right front_left front_right back_left back_right : Line
  diagonal_left diagonal_right : Line

-- `struct input`
pub record Input : Type 0 where
  pub enemy : Enemy
  pub line : Line

-- `drive_dir_e`
pub data DriveDir : Type 0 where
  forward reverse rotate_left rotate_right arcturn_sharp_left arcturn_sharp_right : DriveDir
  arcturn_mid_left arcturn_mid_right arcturn_wide_left arcturn_wide_right : DriveDir

-- `drive_speed_e`
pub data DriveSpeed : Type 0 where
  slow medium fast max : DriveSpeed

-- `state_e`
pub data State : Type 0 where
  wait search attack retreat manual : State

-- `state_event_e`
pub data Event : Type 0 where
  timeout line enemy finished command none : Event

-- `search_state_e`
pub data SearchState : Type 0 where
  rotate forward : SearchState

-- `attack_state_e`
pub data AttackState : Type 0 where
  forward left right : AttackState

-- `retreat_state_e`
pub data RetreatState : Type 0 where
  reverse forward rotate_left rotate_right arcturn_left arcturn_right : RetreatState
  align_left align_right : RetreatState
