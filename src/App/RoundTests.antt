-- ===== src/App/RoundTests.antt =====
-- Rounds of the state machine (src/app/state_machine.c) at concrete values, and the theorems about
-- it.
use nsumo_video.App.StateSearch.{state_search_enter, state_search_init, state_search_run}
use nsumo_video.App.Drive.{drive_set, drive_speeds}
use nsumo_video.Drivers.Pwm.{pwm_set_duty_cycle}
use nsumo_video.Drivers.Tb6612fng.{tb6612fng_set_pwm}
use nsumo_video.Prelude.{
  ℕ, ◌≡◌, refl, ◌≢◌, ◌↔◌, ◌==◌, inl, inr, Bool, true, false, Option, none, some, List, [], ◌∷◌,
  ◌++◌, arith,
}
use nsumo_video.Drivers.Fixtures.{idle_motors, idle_motors-IsDriver}
use nsumo_video.App.Types.{Line, State, Event, RetreatState}
use nsumo_video.App.Cmd.{ir_cmd_1, ir_cmd_2, ir_cmd_none}
use nsumo_video.App.Timer.{timer_timeout, timer_clear, timer_start}
use nsumo_video.App.Enemy.{no_enemy, enemy_get, enemy_detected, enemy_at_right}
use nsumo_video.App.InputHistory.Saved.{init-IsHistory}
use nsumo_video.App.Machine.{Machine, has_internal_event, drive_for}
use nsumo_video.App.StateRetreat.{
  retreat_states, next_retreat_state, start_retreat_move, state_retreat_enter, state_retreat_run,
}
use nsumo_video.App.StateMachine.{
  transition, Reading, state_machine_init, step, run, find_transition, state_transitions,
  process_event, process_input, state_enter,
}
use nsumo_video.App.StateWait.{state_wait_enter}
use nsumo_video.App.Line.{line_get}
use nsumo_video.App.InputHistory.{input_history_save, input_history_last_directed_enemy}
use nsumo_video.Common.RingBuffer.{count, put, init}
use nsumo_video.App.StateMachine.Invariant.{Inv, state_machine_init-Inv}
use nsumo_video.App.StateMachine.Rounds.{
  Refused, finished_in_manual, attack_timed_out, diagonal_line, step_outcome,
}
use nsumo_video.App.StateMachine.Halting.{step-none_iff, step-Inv, run-Inv}
use nsumo_video.App.StateMachine.Commands.{step-command, EndsRetreat, run-command_after_retreat}
use nsumo_video.App.StateMachine.Table.{Edge, transition-Edge}

-- Nothing is near and no line is seen, at the time `now`.
abbrev quiet_round : ℕ → ℕ → Reading
quiet_round cmd now = record {
  ranges = record { failed = false; front = 900; front_left = 900; front_right = 900 };
  voltages = record { front_left = 900; front_right = 900; back_left = 900; back_right = 900 };
  cmd = cmd;
  now_check = now;
  now_start = now;
}

abbrev at_start : Machine
at_start = state_machine_init idle_motors

at_start-Inv : Inv at_start
at_start-Inv = state_machine_init-Inv idle_motors idle_motors-IsDriver

-- Between two rounds, in the last move of a retreat, whose timer has run out at 400.
abbrev retreating : Machine
retreating = record at_start {
  state = State.retreat;
  retreat = record { state = RetreatState.align_left; move_idx = 2 };
  timer = 300;
}

retreating-Inv : Inv retreating
unfolding state_machine_init retreat_states
retreating-Inv = record {
  core = record {
    queue = [];
    history = init-IsHistory (record { enemy = no_enemy; line = Line.none });
    driver = idle_motors-IsDriver;
  };
  pending = inl refl;
  idle = λ h. ground arith;
  moving = λ h k. omega arith;
}

start-Refused : ¬ Refused (quiet_round ir_cmd_1 10) at_start
start-Refused (finished_in_manual c p s) = omega arith
start-Refused (attack_timed_out c p t s) = omega arith
start-Refused (diagonal_line c p t l s) = omega arith

-- The first command is taken.
run_start : (m : Machine) × (run (quiet_round ir_cmd_1 10 ∷ []) at_start ≡ some m)
unfolding run
run_start = elim (step_outcome (quiet_round ir_cmd_1 10) at_start at_start-Inv) [
  | inl refused ↦ absurd (start-Refused refused)
  | inr (m, p, k) ↦ (m, rw p refl)
]

step-none_iff_example :
    (step (quiet_round ir_cmd_none 400) retreating ≡ none)
    ↔ Refused (quiet_round ir_cmd_none 400) retreating
step-none_iff_example = step-none_iff (quiet_round ir_cmd_none 400) retreating retreating-Inv

run-Inv_example : Inv run_start.0
run-Inv_example =
    run-Inv (quiet_round ir_cmd_1 10 ∷ []) idle_motors run_start.0 idle_motors-IsDriver run_start.1

step-command_example :
    (m : Machine) × (step (quiet_round ir_cmd_2 400) retreating ≡ some m)
    × (m.state ≡ State.manual)
    × (m.internal_event ≡ retreating.internal_event)
step-command_example =
    step-command (quiet_round ir_cmd_2 400) retreating retreating-Inv (λ h. omega arith) (λ h. cc)

-- A command starts the search, and then both sensors at the back see the line.
abbrev to_retreat : List Reading
to_retreat =
    quiet_round ir_cmd_1 10
    ∷ record (quiet_round ir_cmd_none 20) {
      voltages = record { front_left = 900; front_right = 900; back_left = 100; back_right = 100 };
    }
    ∷ []

abbrev machine_of : Option Machine → Machine
machine_of none = at_start
machine_of (some m) = m

-- The robot drives away from that line.
abbrev in_retreat : Machine
in_retreat = machine_of (run to_retreat at_start)

abbrev is_retreating : Option Machine → Bool
is_retreating none = false
is_retreating (some m) = m.timer == 320

reaches_retreat : is_retreating (run to_retreat at_start) ≡ true
unfolding run find_transition state_transitions transition process_event process_input
    input_history_save enemy_get enemy_detected count put has_internal_event timer_timeout
    timer_clear line_get state_enter state_wait_enter step state_machine_init state_search_enter
    state_search_run state_search_init input_history_last_directed_enemy init drive_for drive_set
    drive_speeds enemy_at_right tb6612fng_set_pwm pwm_set_duty_cycle timer_start state_retreat_enter
    state_retreat_run next_retreat_state start_retreat_move retreat_states
reaches_retreat = refl

machine_of-some : (o : Option Machine) → is_retreating o ≡ true → o ≡ some (machine_of o)
machine_of-some none h = cc
machine_of-some (some m) h = refl

in_retreat-EndsRetreat : EndsRetreat (quiet_round ir_cmd_none 400) in_retreat
unfolding run find_transition state_transitions transition process_event process_input
    input_history_save enemy_get enemy_detected count put has_internal_event timer_timeout
    timer_clear line_get state_enter state_wait_enter step state_machine_init state_search_enter
    state_search_run state_search_init input_history_last_directed_enemy init drive_for drive_set
    drive_speeds enemy_at_right tb6612fng_set_pwm pwm_set_duty_cycle timer_start state_retreat_enter
    state_retreat_run next_retreat_state start_retreat_move retreat_states
in_retreat-EndsRetreat = record {
  no_cmd = refl;
  no_event = refl;
  timed_out = refl;
  retreating = refl;
  last_move = refl;
}

run-command_after_retreat_example :
    run
      (to_retreat
        ++ quiet_round ir_cmd_none 400
          ∷ quiet_round ir_cmd_2 401
          ∷ quiet_round ir_cmd_none 402
          ∷ [])
      at_start
    ≡ none
run-command_after_retreat_example =
    run-command_after_retreat idle_motors to_retreat (quiet_round ir_cmd_none 400)
      (quiet_round ir_cmd_2 401) (quiet_round ir_cmd_none 402) in_retreat idle_motors-IsDriver
      (machine_of-some (run to_retreat at_start) reaches_retreat) in_retreat-EndsRetreat
      (λ h. omega arith) refl

-- The state of a machine after a command, and after another one.
abbrev WithCommand : Machine → Type 0
WithCommand m =
    (m' : Machine) × (step (quiet_round ir_cmd_2 400) m ≡ some m')
    × (m'.state ≡ State.manual)
    × (m'.internal_event ≡ m.internal_event)

after_command : WithCommand retreating
after_command =
    step-command (quiet_round ir_cmd_2 400) retreating retreating-Inv (λ h. omega arith) (λ h. cc)

after_commands : WithCommand after_command.0
after_commands =
    step-command (quiet_round ir_cmd_2 400) after_command.0
      (step-Inv (quiet_round ir_cmd_2 400) retreating after_command.0 retreating-Inv
        after_command.1)
      (λ h. omega arith) (λ h. cc (h, after_command.2))

transition-Edge_example :
    ((transition State.search Event.enemy ≡ some State.attack) × (State.search ≢ State.attack))
    ↔ Edge State.search Event.enemy State.attack
transition-Edge_example = transition-Edge State.search State.attack Event.enemy
