-- ===== src/App/StateAttack.antt =====
-- src/app/state_attack.c
use nsumo_video.Prelude.{◌==◌, if◌then◌else◌, ◌>>=◌, ℕ, Option, none, some}
use nsumo_video.App.Types.{Enemy, DriveDir, DriveSpeed, State, Event, AttackState}
use nsumo_video.App.Enemy.{enemy_at_left, enemy_at_right, enemy_at_front}
use nsumo_video.App.Machine.{Machine, drive_for}

abbrev pub attack_state_timeout : ℕ
attack_state_timeout = 5000

abbrev pub attack_dir : AttackState → DriveDir
attack_dir AttackState.forward = DriveDir.forward
attack_dir AttackState.left = DriveDir.arcturn_wide_left
attack_dir AttackState.right = DriveDir.arcturn_wide_right

unfoldable pub state_attack_run : ℕ → Machine → Option Machine
state_attack_run now m = drive_for (attack_dir m.attack) DriveSpeed.fast attack_state_timeout now m

unfoldable pub next_attack_state : Enemy → Option AttackState
next_attack_state e =
    if enemy_at_front e
    then some AttackState.forward
    else if enemy_at_left e
    then some AttackState.left
    else if enemy_at_right e
    then some AttackState.right
    else none

abbrev pub attack_index : AttackState → ℕ
attack_index AttackState.forward = 0
attack_index AttackState.left = 1
attack_index AttackState.right = 2

-- The switch of `state_attack_enter`, behind the update of the attack state. The last clause holds
-- the cases that assert.
unfoldable pub attack_dispatch : State → Event → AttackState → ℕ → Machine → Option Machine
attack_dispatch State.search Event.enemy prev now m = state_attack_run now m
attack_dispatch State.attack Event.enemy prev now m =
    if attack_index prev == attack_index m.attack then some m else state_attack_run now m
attack_dispatch _ _ prev now m = none

unfoldable pub state_attack_enter : State → Event → ℕ → Machine → Option Machine
unfolding attack_dispatch
state_attack_enter from event now m = do
  next ← next_attack_state m.common.enemy
  attack_dispatch from event m.attack now (record m { attack = next })

unfoldable pub state_attack_init : AttackState
state_attack_init = AttackState.forward
