-- ===== src/Common/EnumToString.antt =====
-- src/common/enum_to_string.c, for the build with DISABLE_ENUM_STRINGS not defined. C passes an enum
-- as its value, and a value that no case names gives "".
pub mod Distinct
use Prim.Native.String.{String}
use nsumo_video.Prelude.{◌==◌, if◌then◌else◌, ℕ}
use nsumo_video.App.Types.{EnemyPos, EnemyRange, Line, DriveDir, DriveSpeed}
use nsumo_video.App.Cmd.{
  ir_cmd_0, ir_cmd_1, ir_cmd_2, ir_cmd_3, ir_cmd_4, ir_cmd_5, ir_cmd_6, ir_cmd_7, ir_cmd_8,
  ir_cmd_9, ir_cmd_star, ir_cmd_hash, ir_cmd_up, ir_cmd_down, ir_cmd_left, ir_cmd_right, ir_cmd_ok,
  ir_cmd_none,
}

unfoldable pub ir_remote_cmd_to_string : ℕ → String
ir_remote_cmd_to_string cmd =
    if cmd == ir_cmd_0
    then "0"
    else if cmd == ir_cmd_1
    then "1"
    else if cmd == ir_cmd_2
    then "2"
    else if cmd == ir_cmd_3
    then "3"
    else if cmd == ir_cmd_4
    then "4"
    else if cmd == ir_cmd_5
    then "5"
    else if cmd == ir_cmd_6
    then "6"
    else if cmd == ir_cmd_7
    then "7"
    else if cmd == ir_cmd_8
    then "8"
    else if cmd == ir_cmd_9
    then "9"
    else if cmd == ir_cmd_star
    then "STAR"
    else if cmd == ir_cmd_hash
    then "HASH"
    else if cmd == ir_cmd_up
    then "UP"
    else if cmd == ir_cmd_down
    then "DOWN"
    else if cmd == ir_cmd_left
    then "LEFT"
    else if cmd == ir_cmd_right
    then "RIGHT"
    else if cmd == ir_cmd_ok
    then "OK"
    else if cmd == ir_cmd_none
    then "NONE"
    else ""

unfoldable pub line_to_string : Line → String
line_to_string Line.none = "NONE"
line_to_string Line.front = "FRONT"
line_to_string Line.back = "BACK"
line_to_string Line.front_left = "FRONT_LEFT"
line_to_string Line.back_left = "BACK_LEFT"
line_to_string Line.front_right = "FRONT_RIGHT"
line_to_string Line.back_right = "BACK_RIGHT"
line_to_string Line.left = "LEFT"
line_to_string Line.right = "RIGHT"
line_to_string Line.diagonal_left = "DIAGONAL_LEFT"
line_to_string Line.diagonal_right = "DIAGONAL_RIGHT"

unfoldable pub enemy_pos_to_string : EnemyPos → String
enemy_pos_to_string EnemyPos.none = "NONE"
enemy_pos_to_string EnemyPos.front_left = "FRONT_LEFT"
enemy_pos_to_string EnemyPos.front = "FRONT"
enemy_pos_to_string EnemyPos.front_right = "FRONT_RIGHT"
enemy_pos_to_string EnemyPos.left = "LEFT"
enemy_pos_to_string EnemyPos.right = "RIGHT"
enemy_pos_to_string EnemyPos.front_and_front_left = "FRONT_AND_FRONT_LEFT"
enemy_pos_to_string EnemyPos.front_and_front_right = "FRONT_AND_FRONT_RIGHT"
enemy_pos_to_string EnemyPos.front_all = "FRONT_ALL"
enemy_pos_to_string EnemyPos.impossible = "IMPOSSIBLE"

unfoldable pub enemy_range_to_string : EnemyRange → String
enemy_range_to_string EnemyRange.none = "NONE"
enemy_range_to_string EnemyRange.close = "CLOSE"
enemy_range_to_string EnemyRange.mid = "MID"
enemy_range_to_string EnemyRange.far = "FAR"

unfoldable pub drive_dir_to_string : DriveDir → String
drive_dir_to_string DriveDir.forward = "FORWARD"
drive_dir_to_string DriveDir.reverse = "REVERSE"
drive_dir_to_string DriveDir.rotate_left = "ROTATE_LEFT"
drive_dir_to_string DriveDir.rotate_right = "ROTATE_RIGHT"
drive_dir_to_string DriveDir.arcturn_sharp_left = "ARC_SHARP_LEFT"
drive_dir_to_string DriveDir.arcturn_sharp_right = "ARC_SHARP_RIGHT"
drive_dir_to_string DriveDir.arcturn_mid_left = "ARC_MID_LEFT"
drive_dir_to_string DriveDir.arcturn_mid_right = "ARC_MID_RIGHT"
drive_dir_to_string DriveDir.arcturn_wide_left = "ARC_WIDE_LEFT"
drive_dir_to_string DriveDir.arcturn_wide_right = "ARC_WIDE_RIGHT"

unfoldable pub drive_speed_to_string : DriveSpeed → String
drive_speed_to_string DriveSpeed.slow = "SLOW"
drive_speed_to_string DriveSpeed.medium = "MEDIUM"
drive_speed_to_string DriveSpeed.fast = "FAST"
drive_speed_to_string DriveSpeed.max = "MAX"

unfoldable pub state_to_string : ℕ → String
state_to_string state =
    if state == 0
    then "WAIT"
    else if state == 1
    then "SEARCH"
    else if state == 2
    then "ATTACK"
    else if state == 3
    then "RETREAT"
    else if state == 4
    then "MANUAL"
    else ""

unfoldable pub state_event_to_string : ℕ → String
state_event_to_string event =
    if event == 0
    then "TIMEOUT"
    else if event == 1
    then "LINE"
    else if event == 2
    then "ENEMY"
    else if event == 3
    then "FINISHED"
    else if event == 4
    then "COMMAND"
    else if event == 5
    then "NONE"
    else ""
