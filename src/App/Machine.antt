-- ===== src/App/Machine.antt =====
-- `struct state_machine_data` of src/app/state_machine.c, with the data of the states. The pointers
-- among its parts (`common`, `timer`, `input_history`, `state_machine_data`) all lead back into the
-- one structure, so a state's function takes and returns the whole of it. `motors` is the hardware
-- that the calls of drive.c reach.
use nsumo_video.Prelude.{◌==◌, ◌>>=◌, ◌>>◌, assert, ℕ, Bool, not, Option, some}
use nsumo_video.Common.RingBuffer.{RingBuffer}
use nsumo_video.Drivers.Tb6612fng.{Motors}
use nsumo_video.App.Types.{
  Enemy, Line, Input, DriveDir, DriveSpeed, State, Event, SearchState, AttackState, RetreatState,
}
use nsumo_video.App.Timer.{timer_start}
use nsumo_video.App.Index.{event_index}
use nsumo_video.App.Drive.{drive_set}

-- `struct state_common_data`, less its pointers.
pub record CommonData : Type 0 where
  pub enemy : Enemy
  pub line : Line
  pub cmd : ℕ

-- `struct state_retreat_data`
pub record RetreatData : Type 0 where
  pub state : RetreatState
  pub move_idx : ℕ

pub record Machine : Type 0 where
  pub state : State
  pub common : CommonData
  pub search : SearchState
  pub attack : AttackState
  pub retreat : RetreatData
  pub internal_event : Event
  pub timer : ℕ
  pub input_history : RingBuffer Input
  pub motors : Motors

unfoldable pub has_internal_event : Machine → Bool
has_internal_event m = not (event_index m.internal_event == event_index Event.none)

unfoldable pub take_internal_event : Machine → Option (Event × Machine)
unfolding has_internal_event
take_internal_event m = do
  assert (has_internal_event m)
  some (m.internal_event, record m { internal_event = Event.none })

unfoldable pub state_machine_post_internal_event : Event → Machine → Option Machine
unfolding has_internal_event
state_machine_post_internal_event event m = do
  assert (not (has_internal_event m))
  some (record m { internal_event = event })

-- `drive_set(dir, speed)` and `timer_start(data->common->timer, timeout)`, at the time `now`. The
-- two calls touch different parts, so their order does not show.
unfoldable pub drive_for : DriveDir → DriveSpeed → ℕ → ℕ → Machine → Option Machine
drive_for dir speed timeout now m = do
  motors ← drive_set dir speed m.motors
  some (record m { motors = motors; timer = timer_start now timeout })
