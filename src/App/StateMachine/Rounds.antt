-- ===== src/App/StateMachine/Rounds.antt =====
-- Which rounds of `state_machine_run` (src/app/state_machine.c) fail an assertion.
use mathlib.Core.Bool.{false≢true}
use nsumo_video.Prelude.{
  ◌==◌, ==_iff, Bool-cases, ℕ, ◌≡◌, refl, sym, ◌∙◌, ◌⊎◌, inl, inr, true, false, some, List, arith,
}
use nsumo_video.Common.RingBuffer.{RingBuffer}
use nsumo_video.App.Types.{Line, Input, State, Event}
use nsumo_video.App.Cmd.{ir_cmd_none}
use nsumo_video.App.Enemy.{enemy_get, enemy_detected}
use nsumo_video.App.Line.{line_get}
use nsumo_video.App.Timer.{timer_timeout}
use nsumo_video.App.InputHistory.{input_history_save}
use nsumo_video.App.InputHistory.Saved.{IsHistory, saved, input_history_save_lem}
use nsumo_video.App.Machine.{Machine}
use nsumo_video.App.StateMachine.{Reading, input_of, step}
use nsumo_video.App.StateMachine.Entering.{is_clear_line}
use nsumo_video.App.StateMachine.Invariant.{Inv, Keeps}
use nsumo_video.App.StateMachine.Surviving.{
  IsDiagonal, go_command, go_finished, go_timeout, go_line, go_idle_line, go_enemy, go_none,
}

-- The rounds that fail an assertion, by what is read and by the state.
pub data Refused (r : Reading) (m : Machine) : Type 0 where
  -- FINISHED is still pending when manual mode sees no further command
  finished_in_manual :
      r.cmd ≡ ir_cmd_none → m.internal_event ≡ Event.finished → m.state ≡ State.manual → Refused r m
  -- the five seconds of an attack are over
  attack_timed_out :
      r.cmd ≡ ir_cmd_none
      → m.internal_event ≡ Event.none
      → timer_timeout r.now_check m.timer ≡ true
      → m.state ≡ State.attack
      → Refused r m
  -- two opposite line sensors alone see the line
  diagonal_line :
      r.cmd ≡ ir_cmd_none
      → m.internal_event ≡ Event.none
      → timer_timeout r.now_check m.timer ≡ false
      → IsDiagonal (line_get r.voltages)
      → (m.state ≡ State.search) ⊎ (m.state ≡ State.attack) ⊎ (m.state ≡ State.retreat)
      → Refused r m

-- The five states, as a case analysis.
State-cases :
    (s : State)
    → ((s ≡ State.wait) ⊎ (s ≡ State.manual))
      ⊎ (s ≡ State.attack)
      ⊎ ((s ≡ State.search) ⊎ (s ≡ State.retreat))
State-cases State.wait = inl (inl refl)
State-cases State.manual = inl (inr refl)
State-cases State.attack = inr (inl refl)
State-cases State.search = inr (inr (inl refl))
State-cases State.retreat = inr (inr (inr refl))

Line-cases : (l : Line) → (l ≡ Line.none) ⊎ (is_clear_line l ≡ true) ⊎ IsDiagonal l
Line-cases Line.none = inl refl
Line-cases Line.diagonal_left = inr (inr (inl refl))
Line-cases Line.diagonal_right = inr (inr (inr refl))
Line-cases Line.front = inr (inl refl)
Line-cases Line.back = inr (inl refl)
Line-cases Line.left = inr (inl refl)
Line-cases Line.right = inr (inl refl)
Line-cases Line.front_left = inr (inl refl)
Line-cases Line.front_right = inr (inl refl)
Line-cases Line.back_left = inr (inl refl)
Line-cases Line.back_right = inr (inl refl)

-- A machine whose timer is cleared has not timed out.
idle-no_timeout :
    (now : ℕ) (m : Machine)
    → Inv m
    → (m.state ≡ State.wait) ⊎ (m.state ≡ State.manual)
    → timer_timeout now m.timer ≡ false
unfolding timer_timeout
idle-no_timeout now m h w = rw (h.idle w) refl

module _ (r : Reading) (m : Machine) (h : Inv m) where
  abbrev Outcome : Type 0
  Outcome = Refused r m ⊎ Keeps (step r m)

  by_line :
      (history : RingBuffer Input) (q : List Input)
      → input_history_save m.input_history (input_of r) ≡ some history
      → IsHistory history q
      → r.cmd ≡ ir_cmd_none
      → m.internal_event ≡ Event.none
      → timer_timeout r.now_check m.timer ≡ false
      → Outcome
  by_line history q e k c p t = elim (Line-cases (line_get r.voltages)) [
    | inl l ↦ elim (Bool-cases (enemy_detected (enemy_get r.ranges))) [
      | inl d ↦ inr (go_enemy r m h history q e k c p t l d)
      | inr d ↦ inr (go_none r m h history q e k c p t l d)
    ]
    | inr (inl l) ↦ inr (go_line r m h history q e k c p t l)
    | inr (inr l) ↦ elim (State-cases m.state) [
      | inl w ↦ inr (go_idle_line r m h history q e k c p t l w)
      | inr (inl a) ↦ inl (diagonal_line c p t l (inr (inl a)))
      | inr (inr (inl a)) ↦ inl (diagonal_line c p t l (inl a))
      | inr (inr (inr a)) ↦ inl (diagonal_line c p t l (inr (inr a)))
    ]
  ]

  by_timer :
      (history : RingBuffer Input) (q : List Input)
      → input_history_save m.input_history (input_of r) ≡ some history
      → IsHistory history q
      → r.cmd ≡ ir_cmd_none
      → m.internal_event ≡ Event.none
      → Outcome
  by_timer history q e k c p = elim (Bool-cases (timer_timeout r.now_check m.timer)) [
    | inl t ↦ elim (State-cases m.state) [
      | inl w ↦ absurd (false≢true (sym (idle-no_timeout r.now_check m h w) ∙ t))
      | inr (inl a) ↦ inl (attack_timed_out c p t a)
      | inr (inr w) ↦ inr (go_timeout r m h history q e k c p t w)
    ]
    | inr t ↦ by_line history q e k c p t
  ]

  by_pending :
      (history : RingBuffer Input) (q : List Input)
      → input_history_save m.input_history (input_of r) ≡ some history
      → IsHistory history q
      → Outcome
  by_pending history q e k = elim (Bool-cases (r.cmd == ir_cmd_none)) [
    | inl c ↦ elim h.pending [
      | inl p ↦ by_timer history q e k ((==_iff _ _).0 c) p
      | inr (p, inl s) ↦ inr (go_finished r m h history q e k ((==_iff _ _).0 c) p s)
      | inr (p, inr s) ↦ inl (finished_in_manual ((==_iff _ _).0 c) p s)
    ]
    | inr c ↦ inr (go_command r m h history q e k (ground arith))
  ]

  -- From a state that satisfies the invariant, a round either is one of the three refused kinds, or
  -- fails no assertion and leaves a state that satisfies the invariant.
  pub step_outcome : Outcome
  step_outcome =
      let (history, e, k) = input_history_save_lem h.core.queue (input_of r) h.core.history in
      by_pending history (saved h.core.queue (input_of r)) e k
