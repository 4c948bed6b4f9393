-- ===== src/App/StateMachine/Invariant.antt =====
-- The invariant of the loop in src/app/state_machine.c, between two rounds.
use nsumo_video.Prelude.{ℕ, ◌<◌, ◌≡◌, refl, ◌⊎◌, inl, Option, some, List, []}
use nsumo_video.Drivers.Tb6612fng.{Motors}
use nsumo_video.Drivers.Tb6612fng.Outputs.{IsDriver, output}
use nsumo_video.Drivers.Pwm.{Motor}
use nsumo_video.App.Types.{Line, Input, DriveDir, DriveSpeed, State, Event}
use nsumo_video.App.Enemy.{no_enemy}
use nsumo_video.App.Timer.{timer_cleared, timer_start, timer_clear}
use nsumo_video.App.Drive.{drive_speeds}
use nsumo_video.App.Drive.Wheels.{turning, drive_set_lem}
use nsumo_video.App.InputHistory.Saved.{IsHistory, init-IsHistory}
use nsumo_video.App.Machine.{Machine, drive_for}
use nsumo_video.App.StateRetreat.{retreat_states}
use nsumo_video.App.StateMachine.{state_machine_init}

-- The parts below the states: the history holds some inputs, and the hardware is well formed.
pub record IsCore (m : Machine) : Type 0 where
  pub queue : List Input
  pub history : IsHistory m.input_history queue
  pub driver : IsDriver m.motors

pub record Inv (m : Machine) : Type 0 where
  pub core : IsCore m
  -- only FINISHED is ever pending, and only in a retreat or in manual mode
  pub pending :
      (m.internal_event ≡ Event.none)
      ⊎ ((m.internal_event ≡ Event.finished)
          × ((m.state ≡ State.retreat) ⊎ (m.state ≡ State.manual)))
  -- no timer runs before the start, nor in manual mode
  pub idle : (m.state ≡ State.wait) ⊎ (m.state ≡ State.manual) → m.timer ≡ timer_cleared
  -- a retreat that is not finished is at one of its moves
  pub moving :
      m.state ≡ State.retreat
      → m.internal_event ≡ Event.none
      → m.retreat.move_idx < (retreat_states m.retreat.state).move_cnt

-- The code returns, and the invariant holds of the state that it returns.
abbrev pub Keeps : Option Machine → Type 0
Keeps o = (m : Machine) × (o ≡ some m) × Inv m

-- The motors turn as a direction and a speed say.
pub record IsDriving (dir : DriveDir) (speed : DriveSpeed) (motors : Motors) : Type 0 where
  pub driver : IsDriver motors
  pub left_output : output Motor.left motors ≡ turning (drive_speeds dir speed).left
  pub right_output : output Motor.right motors ≡ turning (drive_speeds dir speed).right

-- `drive_for` always succeeds.
pub drive_for_lem :
    (dir : DriveDir) (speed : DriveSpeed) (timeout now : ℕ) (m : Machine)
    → IsDriver m.motors
    → (motors : Motors) × (drive_for dir speed timeout now m
        ≡ some (record m { motors = motors; timer = timer_start now timeout }))
      × IsDriving dir speed motors
unfolding drive_for
drive_for_lem dir speed timeout now m h =
    let (motors, e, v, l, r) = drive_set_lem dir speed m.motors h in
    (motors, rw e refl, record { driver = v; left_output = l; right_output = r })

-- The invariant holds before the first round.
pub state_machine_init-Inv : (motors : Motors) → IsDriver motors → Inv (state_machine_init motors)
unfolding state_machine_init timer_clear
state_machine_init-Inv motors h = record {
  core = record {
    queue = [];
    history = init-IsHistory (record { enemy = no_enemy; line = Line.none });
    driver = h;
  };
  pending = inl refl;
  idle = λ e. refl;
  moving = λ e. cc;
}
