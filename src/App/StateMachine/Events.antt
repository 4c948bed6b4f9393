-- ===== src/App/StateMachine/Events.antt =====
-- `process_event` of src/app/state_machine.c and the invariant, one event at a time. The state is
-- also given on its own, since the table is searched by it.
use nsumo_video.Prelude.{
  ◌==◌, if◌then◌else◌, is_some, value_of, Option-cases, ℕ, ◌≡◌, refl, ◌≢◌, ◌⊎◌, inl, inr, Bool,
  true, false, Option, none, some, arith,
}
use nsumo_video.App.Types.{Enemy, Line, State, Event, AttackState}
use nsumo_video.App.Enemy.{enemy_detected, enemy_at_left, enemy_at_right, enemy_at_front}
use nsumo_video.App.Timer.{timer_clear}
use nsumo_video.App.Machine.{RetreatData, Machine}
use nsumo_video.App.StateWait.{state_wait_enter}
use nsumo_video.App.StateSearch.{toggled, after_retreat, state_search_enter}
use nsumo_video.App.StateAttack.{
  state_attack_run, next_attack_state, attack_index, state_attack_enter,
}
use nsumo_video.App.StateRetreat.{
  next_retreat_for, next_retreat_state, state_retreat_run, state_retreat_enter,
}
use nsumo_video.App.StateManual.{manual_drive, state_manual_enter}
use nsumo_video.App.StateMachine.{state_enter, transition, process_event_at}
use nsumo_video.App.StateMachine.Invariant.{IsCore, Inv, Keeps}
use nsumo_video.App.StateMachine.Entering.{
  state_search_run-Keeps, state_attack_run-Keeps, is_clear_line, state_retreat_run-Keeps,
  next_move-Keeps, state_manual_enter-Keeps,
}

-- The machine in a new state, its timer cleared.
unfoldable pub entered : State → Machine → Machine
entered to m = record m { timer = timer_clear; state = to }

unclear_refused :
    (l : Line) (e : Enemy) (d : RetreatData)
    → is_clear_line l ≡ false
    → next_retreat_for l e d ≡ none
unfolding next_retreat_for
unclear_refused Line.none e d h = refl
unclear_refused _ e d h = ground arith

next_attack_is_some : (e : Enemy) → enemy_detected e ≡ true → is_some (next_attack_state e) ≡ true
unfolding next_attack_state enemy_detected enemy_at_front enemy_at_left enemy_at_right
next_attack_is_some e h = ground arith

-- An attack knows what to do with every detected enemy.
pub next_attack_total :
    (e : Enemy) → enemy_detected e ≡ true → (a : AttackState) × (next_attack_state e ≡ some a)
next_attack_total e h = value_of (next_attack_state e) (next_attack_is_some e h)

unless_same :
    (b : Bool) (m : Machine) (o : Option Machine)
    → Inv m
    → Keeps o
    → Keeps (if b then some m else o)
unless_same true m o h k = (m, refl, h)
unless_same false m o h k = k

module _ (now : ℕ) (m : Machine) where
  moved-IsCore : (to : State) → IsCore m → IsCore (entered to m)
  unfolding entered
  moved-IsCore to c = record { queue = c.queue; history = c.history; driver = c.driver }

  none-pending :
      (s : State)
      → m.state ≡ s
      → Inv m
      → s ≢ State.retreat
      → s ≢ State.manual
      → m.internal_event ≡ Event.none
  none-pending s e h r n = ground (arith, h.pending)

  pub manual-Inv :
      Inv m
      → (m.state ≡ State.search) ⊎ (m.state ≡ State.attack) ⊎ (m.state ≡ State.retreat)
      → Inv (entered State.manual m)
  unfolding entered timer_clear
  manual-Inv h s = record {
    core = record { queue = h.core.queue; history = h.core.history; driver = h.core.driver };
    pending = ground (arith, h.pending);
    idle = λ w. refl;
    moving = λ w. cc;
  }

  IsCore-of : (a : AttackState) → Inv m → IsCore (record m { attack = a })
  IsCore-of a h = record { queue = h.core.queue; history = h.core.history; driver = h.core.driver }

  -- A command is never refused.
  pub command-Keeps :
      (s : State) → m.state ≡ s → Inv m → Keeps (process_event_at s Event.command now m)
  unfolding process_event_at transition state_enter state_search_enter state_manual_enter entered
  command-Keeps State.wait e h =
      state_search_run-Keeps now (entered State.search m) (moved-IsCore State.search h.core)
        (none-pending State.wait e h (λ w. cc) (λ w. cc)) refl
  command-Keeps State.search e h =
      state_manual_enter-Keeps (manual_drive m.common.cmd) (entered State.manual m)
        (manual-Inv h (inl e)) refl
  command-Keeps State.attack e h =
      state_manual_enter-Keeps (manual_drive m.common.cmd) (entered State.manual m)
        (manual-Inv h (inr (inl e))) refl
  command-Keeps State.retreat e h =
      state_manual_enter-Keeps (manual_drive m.common.cmd) (entered State.manual m)
        (manual-Inv h (inr (inr e))) refl
  command-Keeps State.manual e h = state_manual_enter-Keeps (manual_drive m.common.cmd) m h e

  -- The end of a retreat leads to a search.
  pub finished-Keeps :
      IsCore m
      → m.internal_event ≡ Event.none
      → Keeps (process_event_at State.retreat Event.finished now m)
  unfolding process_event_at transition state_enter state_search_enter entered
  finished-Keeps c p =
      state_search_run-Keeps now
        (record (entered State.search m) { search = after_retreat m.search })
        (record { queue = c.queue; history = c.history; driver = c.driver }) p refl

  -- A timeout is refused only by an attack.
  pub timeout-Keeps :
      (s : State)
      → m.state ≡ s
      → Inv m
      → m.internal_event ≡ Event.none
      → (s ≡ State.search) ⊎ (s ≡ State.retreat)
      → Keeps (process_event_at s Event.timeout now m)
  unfolding process_event_at transition state_enter state_search_enter state_retreat_enter
  timeout-Keeps State.search e h p w =
      state_search_run-Keeps now (record m { search = toggled m.search })
        (record { queue = h.core.queue; history = h.core.history; driver = h.core.driver }) p e
  timeout-Keeps State.retreat e h p w = next_move-Keeps now m h.core p e (h.moving e p)
  timeout-Keeps _ e h p w = ground arith

  pub attack-timeout : process_event_at State.attack Event.timeout now m ≡ none
  unfolding process_event_at transition state_enter state_attack_enter
  attack-timeout = elim (Option-cases (next_attack_state m.common.enemy)) [
    | inl e ↦ rw e refl
    | inr (a, e) ↦ rw e refl
  ]

  -- A line that is no diagonal is never refused.
  pub line-Keeps :
      (s : State)
      → m.state ≡ s
      → Inv m
      → m.internal_event ≡ Event.none
      → is_clear_line m.common.line ≡ true
      → Keeps (process_event_at s Event.line now m)
  unfolding process_event_at transition state_enter state_wait_enter state_retreat_enter
      state_manual_enter entered
  line-Keeps State.wait e h p l = (m, refl, h)
  line-Keeps State.search e h p l =
      state_retreat_run-Keeps now (entered State.retreat m) (moved-IsCore State.retreat h.core) p
        refl l
  line-Keeps State.attack e h p l =
      state_retreat_run-Keeps now (entered State.retreat m) (moved-IsCore State.retreat h.core) p
        refl l
  line-Keeps State.retreat e h p l = state_retreat_run-Keeps now m h.core p e l
  line-Keeps State.manual e h p l = (m, refl, h)

  retreat_run-refused :
      (m' : Machine) → is_clear_line m'.common.line ≡ false → state_retreat_run now m' ≡ none
  unfolding state_retreat_run next_retreat_state
  retreat_run-refused m' l = rw (unclear_refused m'.common.line m'.common.enemy _ l) refl

  pub diagonal-refused :
      (s : State)
      → is_clear_line m.common.line ≡ false
      → (s ≡ State.search) ⊎ (s ≡ State.attack) ⊎ (s ≡ State.retreat)
      → process_event_at s Event.line now m ≡ none
  unfolding process_event_at transition state_enter state_retreat_enter entered
  diagonal-refused State.search l w = retreat_run-refused (entered State.retreat m) l
  diagonal-refused State.attack l w = retreat_run-refused (entered State.retreat m) l
  diagonal-refused State.retreat l w = retreat_run-refused m l
  diagonal-refused _ l w = ground arith

  -- A detected enemy is never refused.
  pub enemy-Keeps :
      (s : State)
      → m.state ≡ s
      → Inv m
      → m.internal_event ≡ Event.none
      → enemy_detected m.common.enemy ≡ true
      → Keeps (process_event_at s Event.enemy now m)
  unfolding process_event_at transition state_enter state_wait_enter state_retreat_enter
      state_manual_enter state_attack_enter entered
  enemy-Keeps State.wait e h p d = (m, refl, h)
  enemy-Keeps State.search e h p d =
      let (a, q) = next_attack_total m.common.enemy d in
      rw q (
        state_attack_run-Keeps now (record (entered State.attack m) { attack = a })
          (record { queue = h.core.queue; history = h.core.history; driver = h.core.driver }) p
          refl)
  enemy-Keeps State.attack e h p d =
      let (a, q) = next_attack_total m.common.enemy d in
      rw q (
        unless_same (attack_index m.attack == attack_index a) (record m { attack = a })
          (state_attack_run now (record m { attack = a }))
          (record { core = IsCore-of a h; pending = h.pending; idle = h.idle; moving = h.moving })
          (state_attack_run-Keeps now (record m { attack = a }) (IsCore-of a h) p e))
  enemy-Keeps State.retreat e h p d = (m, refl, h)
  enemy-Keeps State.manual e h p d = (m, refl, h)

  -- No event is never refused.
  pub none-Keeps :
      (s : State)
      → m.state ≡ s
      → Inv m
      → m.internal_event ≡ Event.none
      → Keeps (process_event_at s Event.none now m)
  unfolding process_event_at transition state_enter state_wait_enter state_search_enter
      state_retreat_enter state_manual_enter entered
  none-Keeps State.attack e h p =
      state_search_run-Keeps now (entered State.search m) (moved-IsCore State.search h.core) p refl
  none-Keeps State.wait e h p = (m, refl, h)
  none-Keeps State.search e h p = (m, refl, h)
  none-Keeps State.retreat e h p = (m, refl, h)
  none-Keeps State.manual e h p = (m, refl, h)

  -- Before the start and in manual mode every line is ignored.
  pub idle_line-Keeps :
      (s : State)
      → m.state ≡ s
      → Inv m
      → (s ≡ State.wait) ⊎ (s ≡ State.manual)
      → Keeps (process_event_at s Event.line now m)
  unfolding process_event_at transition state_enter state_wait_enter state_manual_enter
  idle_line-Keeps State.wait e h w = (m, refl, h)
  idle_line-Keeps State.manual e h w = (m, refl, h)
  idle_line-Keeps _ e h w = ground arith

  pub finished_in_manual-refused : process_event_at State.manual Event.finished now m ≡ none
  unfolding process_event_at transition
  finished_in_manual-refused = refl
