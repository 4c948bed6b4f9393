-- ===== src/App/StateMachine.antt =====
-- src/app/state_machine.c: input is turned into an event, and the event into a transition.
pub mod Invariant
pub mod Entering
pub mod Events
pub mod Ladder
pub mod Surviving
pub mod Rounds
pub mod Halting
pub mod Stopped
pub mod Table
pub mod Commands
use nsumo_video.Prelude.{
  ◌==◌, if◌then◌else◌, ◌>>=◌, ℕ, not, ◌&&◌, Option, none, some, List, [], ◌∷◌,
}
use nsumo_video.Common.RingBuffer.{RingBuffer}
use nsumo_video.Common.RingBuffer
use nsumo_video.Drivers.Tb6612fng.{Motors}
use nsumo_video.App.Types.{EnemyPos, EnemyRange, Line, Input, State, Event}
use nsumo_video.App.Cmd.{ir_cmd_none}
use nsumo_video.App.Index.{line_index, state_index, event_index}
use nsumo_video.App.Timer.{timer_timeout, timer_clear}
use nsumo_video.App.Enemy.{RangeReading, no_enemy, enemy_get, enemy_detected}
use nsumo_video.App.Line.{Voltages, line_get}
use nsumo_video.App.InputHistory.{input_history_save}
use nsumo_video.App.Machine.{CommonData, Machine, has_internal_event, take_internal_event}
use nsumo_video.App.StateWait.{state_wait_enter}
use nsumo_video.App.StateSearch.{state_search_enter, state_search_init}
use nsumo_video.App.StateAttack.{state_attack_enter, state_attack_init}
use nsumo_video.App.StateRetreat.{state_retreat_enter, state_retreat_init}
use nsumo_video.App.StateManual.{state_manual_enter}

-- `struct state_transition`
pub record Transition : Type 0 where
  pub from : State
  pub event : Event
  pub to : State

abbrev row : State → Event → State → Transition
row from event to = record { from = from; event = event; to = to }

unfoldable pub state_transitions : List Transition
state_transitions =
    row State.wait Event.none State.wait
    ∷ row State.wait Event.line State.wait
    ∷ row State.wait Event.enemy State.wait
    ∷ row State.wait Event.command State.search
    ∷ row State.search Event.none State.search
    ∷ row State.search Event.timeout State.search
    ∷ row State.search Event.enemy State.attack
    ∷ row State.search Event.line State.retreat
    ∷ row State.search Event.command State.manual
    ∷ row State.attack Event.enemy State.attack
    ∷ row State.attack Event.line State.retreat
    ∷ row State.attack Event.none State.search
    ∷ row State.attack Event.command State.manual
    ∷ row State.attack Event.timeout State.attack
    ∷ row State.retreat Event.line State.retreat
    ∷ row State.retreat Event.finished State.search
    ∷ row State.retreat Event.timeout State.retreat
    ∷ row State.retreat Event.enemy State.retreat
    ∷ row State.retreat Event.none State.retreat
    ∷ row State.retreat Event.command State.manual
    ∷ row State.manual Event.command State.manual
    ∷ row State.manual Event.none State.manual
    ∷ row State.manual Event.line State.manual
    ∷ row State.manual Event.enemy State.manual
    ∷ []

-- The switch of `state_enter`.
unfoldable pub enter_dispatch : State → Event → State → ℕ → Machine → Option Machine
enter_dispatch from event State.wait now m = state_wait_enter from event m
enter_dispatch from event State.search now m = state_search_enter from event now m
enter_dispatch from event State.attack now m = state_attack_enter from event now m
enter_dispatch from event State.retreat now m = state_retreat_enter from event now m
enter_dispatch from event State.manual now m = state_manual_enter from event m

unfoldable pub state_enter : State → Event → State → ℕ → Machine → Option Machine
unfolding enter_dispatch
state_enter from event to now m =
    enter_dispatch from event to now (
      if state_index from == state_index to
      then m
      else record m { timer = timer_clear; state = to })

-- The search of `process_event` through the table, from the row that is its first here.
unfoldable pub find_transition : List Transition → State → Event → Option State
find_transition [] s e = none
find_transition (t ∷ ts) s e =
    if state_index s == state_index t.from && event_index e == event_index t.event
    then some t.to
    else find_transition ts s e

unfoldable pub transition : State → Event → Option State
unfolding find_transition state_transitions
transition s e = find_transition state_transitions s e

unfoldable pub process_event_at : State → Event → ℕ → Machine → Option Machine
process_event_at s event now m = transition s event >>= λ to. state_enter s event to now m

-- `now` is what `millis()` returns, if the state that is entered asks for it.
unfoldable pub process_event : ℕ → Machine → Event → Option Machine
unfolding process_event_at
process_event now m event = process_event_at m.state event now m

-- What one round of the loop reads: the range sensors, the line sensors, the next IR command, and
-- the clock, once for the test of the timer and once for starting it.
pub record Reading : Type 0 where
  pub ranges : RangeReading
  pub voltages : Voltages
  pub cmd : ℕ
  pub now_check : ℕ
  pub now_start : ℕ

abbrev pub common_of : Reading → CommonData
common_of r = record { enemy = enemy_get r.ranges; line = line_get r.voltages; cmd = r.cmd }

abbrev pub input_of : Reading → Input
input_of r = record { enemy = enemy_get r.ranges; line = line_get r.voltages }

-- The ladder of `process_input`, behind the update of the common data and the history.
unfoldable pub next_event : ℕ → Machine → Option (Event × Machine)
next_event now m =
    if not (m.common.cmd == ir_cmd_none)
    then some (Event.command, m)
    else if has_internal_event m
    then take_internal_event m
    else if timer_timeout now m.timer
    then some (Event.timeout, record m { timer = timer_clear })
    else if not (line_index m.common.line == line_index Line.none)
    then some (Event.line, m)
    else if enemy_detected m.common.enemy
    then some (Event.enemy, m)
    else some (Event.none, m)

unfoldable pub process_input : Reading → Machine → Option (Event × Machine)
unfolding next_event
process_input r m = do
  history ← input_history_save m.input_history (input_of r)
  next_event r.now_check (record m { common = common_of r; input_history = history })

-- `state_machine_init`, in a frame whose history is a new ring buffer. `sleep_ms` does nothing.
unfoldable pub state_machine_init : Motors → Machine
state_machine_init motors = record {
  state = State.wait;
  common = record {
    enemy = record { position = EnemyPos.none; range = EnemyRange.none };
    line = Line.none;
    cmd = ir_cmd_none;
  };
  search = state_search_init;
  attack = state_attack_init;
  retreat = state_retreat_init;
  internal_event = Event.none;
  timer = timer_clear;
  input_history = RingBuffer.init 6 (record { enemy = no_enemy; line = Line.none });
  motors = motors;
}

-- One round of the loop of `state_machine_run`.
unfoldable pub step : Reading → Machine → Option Machine
step r m = do p ← process_input r m; process_event r.now_start p.1 p.0

-- The first rounds of `state_machine_run`: `none` where one of them fails an assertion.
unfoldable pub run : List Reading → Machine → Option Machine
run [] m = some m
run (r ∷ rs) m = step r m >>= λ m'. run rs m'
