-- ===== src/App/StateMachine/Surviving.antt =====
-- The rounds of `state_machine_run` (src/app/state_machine.c) that fail no assertion.
use nsumo_video.Prelude.{◌≡◌, refl, ap, ◌∙◌, ◌≢◌, ◌⊎◌, true, false, some, List, arith}
use nsumo_video.Common.RingBuffer.{RingBuffer}
use nsumo_video.App.Types.{Line, Input, State, Event}
use nsumo_video.App.Cmd.{ir_cmd_none}
use nsumo_video.App.Enemy.{enemy_get, enemy_detected}
use nsumo_video.App.Line.{line_get}
use nsumo_video.App.Timer.{timer_timeout, timer_clear}
use nsumo_video.App.InputHistory.{input_history_save}
use nsumo_video.App.InputHistory.Saved.{IsHistory}
use nsumo_video.App.Machine.{Machine}
use nsumo_video.App.StateMachine.{process_event_at, Reading, common_of, input_of, step}
use nsumo_video.App.StateMachine.Entering.{is_clear_line}
use nsumo_video.App.StateMachine.Events.{
  command-Keeps, finished-Keeps, timeout-Keeps, line-Keeps, enemy-Keeps, none-Keeps,
  idle_line-Keeps,
}
use nsumo_video.App.StateMachine.Invariant.{IsCore, Inv, Keeps}
use nsumo_video.App.StateMachine.Ladder.{
  seen, seen-Inv, cleared-Inv, Rung-command, Rung-finished, Rung-timeout, Rung-line, Rung-enemy,
  Rung-none, round_lem, Keeps-step,
}

abbrev pub IsDiagonal : Line → Type 0
IsDiagonal l = (l ≡ Line.diagonal_left) ⊎ (l ≡ Line.diagonal_right)

clear-ne-none : (l : Line) → is_clear_line l ≡ true → l ≢ Line.none
clear-ne-none l h e = ground arith

module _ (r : Reading) (m : Machine) (h : Inv m) (history : RingBuffer Input) (q : List Input)
    (e : input_history_save m.input_history (input_of r) ≡ some history)
    (k : IsHistory history q) where
  -- the machine that the ladder looks at, and its invariant
  abbrev s : Machine
  s = record m { common = common_of r; input_history = history }

  s-Inv : Inv s
  unfolding seen
  s-Inv = seen-Inv r history q m h k

  pub go_command : r.cmd ≢ ir_cmd_none → Keeps (step r m)
  unfolding seen
  go_command c =
      Keeps-step r m _ (round_lem r m history Event.command s e (Rung-command r s c))
        (command-Keeps r.now_start s s.state refl s-Inv)

  module _ (c : r.cmd ≡ ir_cmd_none) where
    pub go_finished : m.internal_event ≡ Event.finished → m.state ≡ State.retreat → Keeps (step r m)
    unfolding seen
    go_finished p st =
        let s' = record s { internal_event = Event.none } in
        Keeps-step r m _
          (round_lem r m history Event.finished s' e (Rung-finished r s c p)
            ∙ ap (λ (x : State). process_event_at x Event.finished r.now_start s') st)
          (finished-Keeps r.now_start s' core_s refl)
      where
        core_s : IsCore (record s { internal_event = Event.none })
        core_s = record { queue = q; history = k; driver = h.core.driver }

    module _ (p : m.internal_event ≡ Event.none) where
      pub go_timeout :
          timer_timeout r.now_check m.timer ≡ true
          → (m.state ≡ State.search) ⊎ (m.state ≡ State.retreat)
          → Keeps (step r m)
      unfolding seen
      go_timeout t w =
          let s' = record s { timer = timer_clear } in
          Keeps-step r m _ (round_lem r m history Event.timeout s' e (Rung-timeout r s c p t))
            (timeout-Keeps r.now_start s' s'.state refl (cleared-Inv s s-Inv) p w)

      module _ (t : timer_timeout r.now_check m.timer ≡ false) where
        pub go_line : is_clear_line (line_get r.voltages) ≡ true → Keeps (step r m)
        unfolding seen
        go_line l =
            Keeps-step r m _
              (round_lem r m history Event.line s e (Rung-line r s c p t (clear-ne-none _ l)))
              (line-Keeps r.now_start s s.state refl s-Inv p l)

        pub go_idle_line :
            IsDiagonal (line_get r.voltages)
            → (m.state ≡ State.wait) ⊎ (m.state ≡ State.manual)
            → Keeps (step r m)
        unfolding seen
        go_idle_line l w =
            Keeps-step r m _
              (round_lem r m history Event.line s e (Rung-line r s c p t (ground arith)))
              (idle_line-Keeps r.now_start s s.state refl s-Inv w)

        pub go_enemy :
            line_get r.voltages ≡ Line.none
            → enemy_detected (enemy_get r.ranges) ≡ true
            → Keeps (step r m)
        unfolding seen
        go_enemy l d =
            Keeps-step r m _ (round_lem r m history Event.enemy s e (Rung-enemy r s c p t l d))
              (enemy-Keeps r.now_start s s.state refl s-Inv p d)

        pub go_none :
            line_get r.voltages ≡ Line.none
            → enemy_detected (enemy_get r.ranges) ≡ false
            → Keeps (step r m)
        unfolding seen
        go_none l d =
            Keeps-step r m _ (round_lem r m history Event.none s e (Rung-none r s c p t l d))
              (none-Keeps r.now_start s s.state refl s-Inv p)
