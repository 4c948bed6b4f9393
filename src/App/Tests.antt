-- ===== src/App/Tests.antt =====
-- Runs of the definitions for src/app below the state machine at concrete values, and the theorems
-- there.
use nsumo_video.Prelude.{◌≡◌, refl, ◌≢◌, true, false, some, [], ◌∷◌, arith}
use nsumo_video.Common.RingBuffer.{RingBuffer}
use nsumo_video.Common.RingBuffer
use nsumo_video.Drivers.Pwm.{Motor}
use nsumo_video.Drivers.Tb6612fng.{Motors}
use nsumo_video.Drivers.Tb6612fng.Outputs.{IsDriver, output}
use nsumo_video.Drivers.Fixtures.{idle_motors, idle_motors-IsDriver}
use nsumo_video.App.Types.{
  EnemyPos, EnemyRange, Enemy, Line, Input, DriveDir, DriveSpeed, RetreatState,
}
use nsumo_video.App.Timer.{millis, timer_cleared, timer_start, timer_timeout}
use nsumo_video.App.Timer.Deadline.{timer_timeout-timer_start, timer_start_wraps}
use nsumo_video.App.Enemy.{no_enemy}
use nsumo_video.App.Line.{Voltages}
use nsumo_video.App.InputHistory.{is_idle, input_history_save, input_history_last_directed_enemy}
use nsumo_video.App.InputHistory.Saved.{IsHistory, saved, init-IsHistory, input_history_save_lem}
use nsumo_video.App.InputHistory.Directed.{IsLastDirected, last_directed_enemy_lem}
use nsumo_video.App.Drive.{drive_speeds, drive_set}
use nsumo_video.App.Drive.Wheels.{turning, drive_set_lem}
use nsumo_video.App.Machine.{Machine}
use nsumo_video.App.StateMachine.{state_machine_init}
use nsumo_video.App.StateRetreat.{next_retreat_for, start_retreat_move, state_retreat_run}
use nsumo_video.App.StateRetreat.Choice.{
  state_retreat_run-back_left, mirror_choice, next_retreat_for-mirror,
}

timer_timeout-timer_start_example :
    (timer_start (millis 2000) 300 ≢ timer_cleared)
    × (timer_timeout 1301 (timer_start (millis 2000) 300) ≡ true)
unfolding millis
timer_timeout-timer_start_example =
    timer_timeout-timer_start 2000 300 1301 (omega arith) (omega arith)

-- 100 ms before `millis` starts again from 0, a timer of 300 ms.
timer_start_wraps_example : timer_timeout (millis 500) (timer_start (millis 4294967096) 300) ≡ false
unfolding millis
timer_start_wraps_example = timer_start_wraps 4294967096 300 500 (omega arith) (omega arith)

-- The line at the front left only.
abbrev corner : Voltages
corner = record { front_left = 200; front_right = 900; back_left = 900; back_right = 900 }

abbrev left_input : Input
left_input = record {
  enemy = record { position = EnemyPos.front_left; range = EnemyRange.mid };
  line = Line.none;
}

abbrev empty_history : RingBuffer Input
empty_history = RingBuffer.init 6 (record { enemy = no_enemy; line = Line.none })

empty_history-IsHistory : IsHistory empty_history []
empty_history-IsHistory = init-IsHistory (record { enemy = no_enemy; line = Line.none })

input_history_save_lem_example :
    (h : RingBuffer Input) × (input_history_save empty_history left_input ≡ some h)
    × IsHistory h (left_input ∷ [])
unfolding is_idle
input_history_save_lem_example = input_history_save_lem [] left_input empty_history-IsHistory

last_directed_enemy_lem_example :
    (e : Enemy) × (input_history_last_directed_enemy
        (input_history_save_lem [] left_input empty_history-IsHistory).0
      ≡ some e)
    × IsLastDirected (saved [] left_input) e
last_directed_enemy_lem_example =
    last_directed_enemy_lem (saved [] left_input)
      (input_history_save_lem [] left_input empty_history-IsHistory).2

drive_set_lem_example :
    (m : Motors) × (drive_set DriveDir.rotate_left DriveSpeed.max idle_motors ≡ some m)
    × IsDriver m
    × (output Motor.left m ≡ turning (drive_speeds DriveDir.rotate_left DriveSpeed.max).left)
    × (output Motor.right m ≡ turning (drive_speeds DriveDir.rotate_left DriveSpeed.max).right)
drive_set_lem_example =
    drive_set_lem DriveDir.rotate_left DriveSpeed.max idle_motors idle_motors-IsDriver

-- A line at the back left, after an aligning retreat.
abbrev at_back_left : Machine
at_back_left = record (state_machine_init idle_motors) {
  common = record { enemy = no_enemy; line = Line.back_left; cmd = 0xFF };
  retreat = record { state = RetreatState.align_left; move_idx = 0 };
}

state_retreat_run-back_left_example :
    state_retreat_run 5
      (record at_back_left { retreat = record { state = RetreatState.align_left; move_idx = 2 } })
    ≡ start_retreat_move 5 (record at_back_left {
      retreat = record { state = RetreatState.arcturn_right; move_idx = 0 };
    })
state_retreat_run-back_left_example = state_retreat_run-back_left 5 2 at_back_left refl

next_retreat_for-mirror_example :
    next_retreat_for Line.right no_enemy (record { state = RetreatState.reverse; move_idx = 0 })
    ≡ mirror_choice (
        next_retreat_for Line.left no_enemy (record { state = RetreatState.reverse; move_idx = 0 }))
next_retreat_for-mirror_example = next_retreat_for-mirror Line.left no_enemy RetreatState.reverse
