-- ===== src/App/StateMachine/Commands.antt =====
-- What IR commands do to the loop of src/app/state_machine.c.
use nsumo_video.Prelude.{
  ==_iff, ◌>>=◌, Option-cases, ℕ, ◌+◌, ◌≡◌, refl, sym, ap, ◌∙◌, ◌≢◌, inl, inr, true, Option, none,
  some, List, [], ◌∷◌, ◌++◌, arith,
}
use nsumo_video.Common.RingBuffer.{RingBuffer}
use nsumo_video.App.InputHistory.{input_history_save}
use nsumo_video.App.Types.{Input, DriveDir, DriveSpeed, State, Event}
use nsumo_video.App.Cmd.{ir_cmd_none}
use nsumo_video.App.Drive.Wheels.{drive_set_lem, drive_stop_lem}
use nsumo_video.App.Timer.{timer_timeout, timer_clear}
use nsumo_video.App.InputHistory.Saved.{saved, input_history_save_lem}
use nsumo_video.App.Machine.{Machine, take_internal_event}
use nsumo_video.App.StateRetreat.{
  retreat_states, retreat_state_done, next_move, state_retreat_enter,
}
use nsumo_video.App.StateManual.{manual_drive, manual_apply, state_manual_enter}
use nsumo_video.App.StateMachine.{
  state_enter, transition, process_event_at, process_event, Reading, common_of, input_of,
  next_event, process_input, step, state_machine_init, run,
}
use nsumo_video.App.StateMachine.Invariant.{Inv}
use nsumo_video.App.StateMachine.Entering.{post_finished}
use nsumo_video.App.StateMachine.Events.{entered, manual-Inv}
use nsumo_video.App.StateMachine.Ladder.{seen, seen-Inv, Rung-command, Rung-timeout, round_lem}
use nsumo_video.App.StateMachine.Rounds.{finished_in_manual}
use nsumo_video.App.StateMachine.Halting.{Refused-none, step-Inv, run-Inv}
use nsumo_video.Drivers.Tb6612fng.{Motors}
use nsumo_video.Drivers.Tb6612fng.Outputs.{IsDriver}

-- The code returns in manual mode with the given event pending.
abbrev ManualWith : Event → Option Machine → Type 0
ManualWith event o =
    (m : Machine) × (o ≡ some m) × (m.state ≡ State.manual) × (m.internal_event ≡ event)

manual_apply-ManualWith :
    (o : Option (Option DriveDir)) (m : Machine)
    → Inv m
    → m.state ≡ State.manual
    → ManualWith m.internal_event (manual_apply o m)
unfolding manual_apply
manual_apply-ManualWith none m h s = (m, refl, s, refl)
manual_apply-ManualWith (some none) m h s =
    let (motors, e, v, l, r) = drive_stop_lem m.motors h.core.driver in
    (record m { motors = motors }, rw e refl, s, refl)
manual_apply-ManualWith (some (some dir)) m h s =
    let (motors, e, v, l, r) = drive_set_lem dir DriveSpeed.max m.motors h.core.driver in
    (record m { motors = motors }, rw e refl, s, refl)

module _ (now : ℕ) (m : Machine) (h : Inv m) where
  command-ManualWith :
      (s : State)
      → m.state ≡ s
      → s ≢ State.wait
      → ManualWith m.internal_event (process_event_at s Event.command now m)
  unfolding process_event_at transition state_enter state_manual_enter entered
  command-ManualWith State.wait e w = absurd (w refl)
  command-ManualWith State.search e w =
      manual_apply-ManualWith (manual_drive m.common.cmd) (entered State.manual m)
        (manual-Inv now m h (inl e)) refl
  command-ManualWith State.attack e w =
      manual_apply-ManualWith (manual_drive m.common.cmd) (entered State.manual m)
        (manual-Inv now m h (inr (inl e))) refl
  command-ManualWith State.retreat e w =
      manual_apply-ManualWith (manual_drive m.common.cmd) (entered State.manual m)
        (manual-Inv now m h (inr (inr e))) refl
  command-ManualWith State.manual e w = manual_apply-ManualWith (manual_drive m.common.cmd) m h e

-- After the start, a round in which a command arrives fails no assertion and ends in manual mode.
-- The event that was pending is still pending.
pub step-command :
    (r : Reading) (m : Machine)
    → Inv m
    → r.cmd ≢ ir_cmd_none
    → m.state ≢ State.wait
    → (m' : Machine) × (step r m ≡ some m')
      × (m'.state ≡ State.manual)
      × (m'.internal_event ≡ m.internal_event)
unfolding seen
step-command r m h c s =
    let (history, e, k) = input_history_save_lem h.core.queue (input_of r) h.core.history in
    let n = seen r history m in
    let (m', p, st, ev) =
      command-ManualWith r.now_start n (seen-Inv r history (saved h.core.queue (input_of r)) m h k)
        n.state refl s in
    (m', round_lem r m history Event.command n e (Rung-command r n c) ∙ p, st, ev)

-- A retreat's last move is over, and nothing else is to be read first.
pub record EndsRetreat (r : Reading) (m : Machine) : Type 0 where
  pub no_cmd : r.cmd ≡ ir_cmd_none
  pub no_event : m.internal_event ≡ Event.none
  pub timed_out : timer_timeout r.now_check m.timer ≡ true
  pub retreating : m.state ≡ State.retreat
  pub last_move : m.retreat.move_idx + 1 ≡ (retreat_states m.retreat.state).move_cnt

-- The round in which the last move of a retreat times out fails no assertion, stays in the retreat
-- and leaves FINISHED pending.
pub step-EndsRetreat :
    (r : Reading) (m : Machine)
    → Inv m
    → EndsRetreat r m
    → (m' : Machine) × (step r m ≡ some m')
      × (m'.state ≡ State.retreat)
      × (m'.internal_event ≡ Event.finished)
unfolding seen process_event_at transition state_enter state_retreat_enter next_move
    retreat_state_done
step-EndsRetreat r m h w =
    let (history, e, k) = input_history_save_lem h.core.queue (input_of r) h.core.history in
    let n = record (seen r history m) { timer = timer_clear } in
    let n1 = record n { retreat = record n.retreat { move_idx = n.retreat.move_idx + 1 } } in
    (
      record n1 { internal_event = Event.finished },
      round_lem r m history Event.timeout n e
            (Rung-timeout r (seen r history m) w.no_cmd w.no_event w.timed_out)
          ∙ ap (λ (x : State). process_event_at x Event.timeout r.now_start n) w.retreating
          ∙ finish n w.no_event w.last_move,
      w.retreating,
      refl,
    )
  where
    finish :
        (n : Machine)
        → n.internal_event ≡ Event.none
        → n.retreat.move_idx + 1 ≡ (retreat_states n.retreat.state).move_cnt
        → process_event_at State.retreat Event.timeout r.now_start n
          ≡ some (record n {
            retreat = record n.retreat { move_idx = n.retreat.move_idx + 1 };
            internal_event = Event.finished;
          })
    finish n p l = rw ((==_iff _ _).1 l) (
        post_finished
          (record n { retreat = record n.retreat { move_idx = n.retreat.move_idx + 1 } }) p)

-- The last move of a retreat, then a command, then none.
refused_after_retreat :
    (r1 r2 r3 : Reading) (m : Machine)
    → Inv m
    → EndsRetreat r1 m
    → r2.cmd ≢ ir_cmd_none
    → r3.cmd ≡ ir_cmd_none
    → run (r1 ∷ r2 ∷ r3 ∷ []) m ≡ none
unfolding run
refused_after_retreat r1 r2 r3 m h w c2 c3 =
    let (m1, e1, s1, p1) = step-EndsRetreat r1 m h w in
    let h1 = step-Inv r1 m m1 h e1 in
    let (m2, e2, s2, p2) = step-command r2 m1 h1 c2 (λ q. cc) in
    let e3 = Refused-none r3 m2 (step-Inv r2 m1 m2 h1 e2) (finished_in_manual c3 (p2 ∙ p1) s2) in
    rw (e1, e2, e3) refl

run-append :
    (before after : List Reading) (m : Machine)
    → run (before ++ after) m ≡ (run before m >>= λ n. run after n)
unfolding run
run-append [] after m = refl
run-append (r ∷ before) after m = elim (Option-cases (step r m)) [
  | inl p ↦ rw p refl
  | inr (n, p) ↦ rw p (run-append before after n)
]

-- From the start of the state machine, on well-formed motors: where the rounds `before` come to a state
-- in which the next round `r1`, without a command, finds the last move of a retreat timed out, and in the
-- round after it a command arrives and in the third round none, the third round fails an assertion.
pub run-command_after_retreat :
    (motors : Motors) (before : List Reading) (r1 r2 r3 : Reading) (m : Machine)
    → IsDriver motors
    → run before (state_machine_init motors) ≡ some m
    → EndsRetreat r1 m
    → r2.cmd ≢ ir_cmd_none
    → r3.cmd ≡ ir_cmd_none
    → run (before ++ r1 ∷ r2 ∷ r3 ∷ []) (state_machine_init motors) ≡ none
run-command_after_retreat motors before r1 r2 r3 m d e w c2 c3 =
    run-append before (r1 ∷ r2 ∷ r3 ∷ []) (state_machine_init motors)
    ∙ (ap (λ o. o >>= λ n. run (r1 ∷ r2 ∷ r3 ∷ []) n) e
        ∙ refused_after_retreat r1 r2 r3 m (run-Inv before motors m d e) w c2 c3)

abbrev seen_as : Reading → RingBuffer Input → Machine → Machine
seen_as r history m = record m { common = common_of r; input_history = history }

next_event-state :
    (now : ℕ) (m m' : Machine) (event : Event)
    → next_event now m ≡ some (event, m')
    → m'.state ≡ m.state
unfolding next_event take_internal_event
next_event-state now m m' event e = ground arith

manual_apply-state :
    (o : Option (Option DriveDir)) (m m' : Machine)
    → manual_apply o m ≡ some m'
    → m'.state ≡ m.state
unfolding manual_apply
manual_apply-state none m m' e = ground arith
manual_apply-state (some none) m m' e = ground arith
manual_apply-state (some (some dir)) m m' e = ground arith

manual_stays :
    (event : Event) (now : ℕ) (m m' : Machine)
    → process_event_at State.manual event now m ≡ some m'
    → m'.state ≡ m.state
unfolding process_event_at transition state_enter state_manual_enter
manual_stays Event.command now m m' e = manual_apply-state _ m m' e
manual_stays _ now m m' e = ground arith

process_input-state :
    (r : Reading) (m n : Machine) (event : Event)
    → process_input r m ≡ some (event, n)
    → n.state ≡ m.state
unfolding process_input
process_input-state r m n event e =
    elim (Option-cases (input_history_save m.input_history (input_of r))) [
      | inl p ↦
          (let q : ◌≡◌ {A = Option (Event × Machine)} none (some (event, n)) = rw p at e in cc)
      | inr (history, p) ↦ next_event-state r.now_check (seen_as r history m) n event (rw p at e)
    ]

process_event-manual :
    (now : ℕ) (n m' : Machine) (event : Event)
    → n.state ≡ State.manual
    → process_event now n event ≡ some m'
    → m'.state ≡ State.manual
unfolding process_event
process_event-manual now n m' event s e =
    manual_stays event now n m' (ap (λ (x : State). process_event_at x event now n) (sym s) ∙ e) ∙ s

step-manual_from :
    (r : Reading) (m m' : Machine) (o : Option (Event × Machine))
    → m.state ≡ State.manual
    → process_input r m ≡ o
    → (o >>= λ p. process_event r.now_start p.1 p.0) ≡ some m'
    → m'.state ≡ State.manual
step-manual_from r m m' none s p e = cc
step-manual_from r m m' (some (event, n)) s p e =
    process_event-manual r.now_start n m' event (process_input-state r m n event p ∙ s) e

-- Manual mode is never left: the state after a round from manual mode that fails no assertion is manual.
step-manual :
    (r : Reading) (m m' : Machine)
    → m.state ≡ State.manual
    → step r m ≡ some m'
    → m'.state ≡ State.manual
unfolding step
step-manual r m m' s e = step-manual_from r m m' (process_input r m) s refl e
