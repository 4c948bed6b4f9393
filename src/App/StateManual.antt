-- ===== src/App/StateManual.antt =====
-- src/app/state_manual.c, for the build with DISABLE_IR_REMOTE not defined.
use nsumo_video.Prelude.{◌==◌, if◌then◌else◌, ◌>>=◌, ℕ, Bool, ◌||◌, Option, none, some}
use nsumo_video.App.Types.{DriveDir, DriveSpeed, State, Event}
use nsumo_video.App.Cmd.{
  ir_cmd_0, ir_cmd_1, ir_cmd_2, ir_cmd_3, ir_cmd_4, ir_cmd_5, ir_cmd_6, ir_cmd_7, ir_cmd_8,
  ir_cmd_9, ir_cmd_star, ir_cmd_hash, ir_cmd_up, ir_cmd_down, ir_cmd_left, ir_cmd_right, ir_cmd_ok,
}
use nsumo_video.App.Drive.{drive_set, drive_stop}
use nsumo_video.App.Machine.{Machine}

-- The commands at which the robot stops.
abbrev is_stop_cmd : ℕ → Bool
is_stop_cmd cmd =
    cmd == ir_cmd_0
    || cmd == ir_cmd_1
    || cmd == ir_cmd_2
    || cmd == ir_cmd_3
    || cmd == ir_cmd_4
    || cmd == ir_cmd_5
    || cmd == ir_cmd_6
    || cmd == ir_cmd_7
    || cmd == ir_cmd_8
    || cmd == ir_cmd_9
    || cmd == ir_cmd_star
    || cmd == ir_cmd_ok
    || cmd == ir_cmd_hash

-- What the switch calls: `some (some dir)` is `drive_set(dir, DRIVE_SPEED_MAX)`, `some none` is
-- `drive_stop()`, and `none` is nothing. A byte that is no enumerator falls through the switch.
unfoldable pub manual_drive : ℕ → Option (Option DriveDir)
manual_drive cmd =
    if cmd == ir_cmd_up
    then some (some DriveDir.forward)
    else if cmd == ir_cmd_down
    then some (some DriveDir.reverse)
    else if cmd == ir_cmd_left
    then some (some DriveDir.rotate_left)
    else if cmd == ir_cmd_right
    then some (some DriveDir.rotate_right)
    else if is_stop_cmd cmd
    then some none
    else none

unfoldable pub manual_apply : Option (Option DriveDir) → Machine → Option Machine
manual_apply none m = some m
manual_apply (some none) m = drive_stop m.motors >>= λ motors. some (record m { motors = motors })
manual_apply (some (some dir)) m =
    drive_set dir DriveSpeed.max m.motors >>= λ motors. some (record m { motors = motors })

unfoldable pub state_manual_enter : State → Event → Machine → Option Machine
unfolding manual_apply
state_manual_enter from Event.command m = manual_apply (manual_drive m.common.cmd) m
state_manual_enter from _ m = some m
