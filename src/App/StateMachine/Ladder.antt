-- ===== src/App/StateMachine/Ladder.antt =====
-- The ladder of `process_input` in src/app/state_machine.c, and the round that it makes.
use nsumo_video.Prelude.{◌>>=◌, ◌≡◌, refl, ◌∙◌, ◌≢◌, true, false, Option, some, List, arith}
use nsumo_video.Common.RingBuffer.{RingBuffer}
use nsumo_video.App.Types.{Line, Input, Event}
use nsumo_video.App.Cmd.{ir_cmd_none}
use nsumo_video.App.Index.{line_index_inj}
use nsumo_video.App.Enemy.{enemy_detected}
use nsumo_video.App.Timer.{timer_timeout, timer_clear}
use nsumo_video.App.InputHistory.{input_history_save}
use nsumo_video.App.InputHistory.Saved.{IsHistory}
use nsumo_video.App.Machine.{Machine, has_internal_event, take_internal_event}
use nsumo_video.App.StateMachine.{
  process_event_at, process_event, Reading, common_of, input_of, next_event, process_input, step,
}
use nsumo_video.App.StateMachine.Invariant.{Inv, Keeps}

-- The machine behind the first statements of `process_input`.
unfoldable pub seen : Reading → RingBuffer Input → Machine → Machine
seen r history m = record m { common = common_of r; input_history = history }

pub seen-Inv :
    (r : Reading) (history : RingBuffer Input) (q : List Input) (m : Machine)
    → Inv m
    → IsHistory history q
    → Inv (seen r history m)
unfolding seen
seen-Inv r history q m h k = record {
  core = record { queue = q; history = k; driver = h.core.driver };
  pending = h.pending;
  idle = h.idle;
  moving = h.moving;
}

pub cleared-Inv : (m : Machine) → Inv m → Inv (record m { timer = timer_clear })
unfolding timer_clear
cleared-Inv m h = record {
  core = record { queue = h.core.queue; history = h.core.history; driver = h.core.driver };
  pending = h.pending;
  idle = λ w. refl;
  moving = h.moving;
}

step_saved :
    (r : Reading) (m : Machine) (history : RingBuffer Input)
    → input_history_save m.input_history (input_of r) ≡ some history
    → step r m ≡ (
        next_event r.now_check (seen r history m) >>= λ p.
        process_event_at p.1.state p.0 r.now_start p.1)
unfolding step process_input process_event seen
step_saved r m history e = rw e refl

-- What the ladder of `process_input` finds.
module _ (r : Reading) (m : Machine) where
  abbrev pub Rung : Event → Machine → Type 0
  Rung event m' = next_event r.now_check m ≡ some (event, m')

  pub Rung-command : m.common.cmd ≢ ir_cmd_none → Rung Event.command m
  unfolding next_event
  Rung-command c = ground arith

  pub Rung-finished :
      m.common.cmd ≡ ir_cmd_none
      → m.internal_event ≡ Event.finished
      → Rung Event.finished (record m { internal_event = Event.none })
  unfolding next_event has_internal_event take_internal_event
  Rung-finished c p = ground arith

  pub Rung-timeout :
      m.common.cmd ≡ ir_cmd_none
      → m.internal_event ≡ Event.none
      → timer_timeout r.now_check m.timer ≡ true
      → Rung Event.timeout (record m { timer = timer_clear })
  unfolding next_event has_internal_event
  Rung-timeout c p t = ground arith

  pub Rung-line :
      m.common.cmd ≡ ir_cmd_none
      → m.internal_event ≡ Event.none
      → timer_timeout r.now_check m.timer ≡ false
      → m.common.line ≢ Line.none
      → Rung Event.line m
  unfolding next_event has_internal_event
  Rung-line c p t l = ground (arith, line_index_inj m.common.line Line.none)

  pub Rung-enemy :
      m.common.cmd ≡ ir_cmd_none
      → m.internal_event ≡ Event.none
      → timer_timeout r.now_check m.timer ≡ false
      → m.common.line ≡ Line.none
      → enemy_detected m.common.enemy ≡ true
      → Rung Event.enemy m
  unfolding next_event has_internal_event
  Rung-enemy c p t l d = ground arith

  pub Rung-none :
      m.common.cmd ≡ ir_cmd_none
      → m.internal_event ≡ Event.none
      → timer_timeout r.now_check m.timer ≡ false
      → m.common.line ≡ Line.none
      → enemy_detected m.common.enemy ≡ false
      → Rung Event.none m
  unfolding next_event has_internal_event
  Rung-none c p t l d = ground arith

-- The whole round, where the ladder's answer is known.
pub round_lem :
    (r : Reading) (m : Machine) (history : RingBuffer Input) (event : Event) (m' : Machine)
    → input_history_save m.input_history (input_of r) ≡ some history
    → Rung r (seen r history m) event m'
    → step r m ≡ process_event_at m'.state event r.now_start m'
round_lem r m history event m' e g = step_saved r m history e ∙ (rw g refl)

pub Keeps-step :
    (r : Reading) (m : Machine) (o : Option Machine) → step r m ≡ o → Keeps o → Keeps (step r m)
Keeps-step r m o e k = rw e k
