-- ===== src/App/StateMachine/Entering.antt =====
-- The entry functions of the states (src/app/state_*.c) and the invariant.
use nsumo_video.Prelude.{
  if◌then◌else◌, Bool-cases, lt→ltb, length, get_elem?, get_or, get_elem?-eq-get_or, is_some,
  value_of, ℕ, ◌+◌, ◌≤◌, ◌<◌, ◌≡◌, refl, ap, ◌≢◌, inl, inr, Bool, true, false, Option, none, some,
  arith,
}
use nsumo_video.Drivers.Tb6612fng.{Motors}
use nsumo_video.Drivers.Tb6612fng.Outputs.{IsDriver}
use nsumo_video.App.Index.{event_index}
use nsumo_video.App.Types.{
  Enemy, Line, DriveDir, DriveSpeed, State, Event, SearchState, RetreatState,
}
use nsumo_video.App.Enemy.{enemy_at_right}
use nsumo_video.App.Timer.{timer_start}
use nsumo_video.App.Drive.Wheels.{drive_set_lem, drive_stop_lem}
use nsumo_video.App.InputHistory.Directed.{last_directed_enemy_lem}
use nsumo_video.App.Machine.{RetreatData, Machine, state_machine_post_internal_event, drive_for}
use nsumo_video.App.StateSearch.{
  search_state_rotate_timeout, search_state_forward_timeout, search_run_in, state_search_run,
}
use nsumo_video.App.StateAttack.{attack_state_timeout, attack_dir, state_attack_run}
use nsumo_video.App.StateRetreat.{
  Move, zero_move, retreat_states, current_move, next_retreat_for, next_retreat_state,
  start_retreat_move, retreat_state_done, state_retreat_run, next_move,
}
use nsumo_video.App.StateManual.{manual_apply}
use nsumo_video.App.StateMachine.Invariant.{IsCore, Inv, Keeps, drive_for_lem}

-- A machine that has just been set driving, in a state where no event is pending and a timer may
-- run.
driving-Keeps :
    (dir : DriveDir) (speed : DriveSpeed) (timeout now : ℕ) (m : Machine)
    → IsCore m
    → m.internal_event ≡ Event.none
    → m.state ≢ State.wait
    → m.state ≢ State.manual
    → (m.state ≡ State.retreat → m.retreat.move_idx < (retreat_states m.retreat.state).move_cnt)
    → Keeps (drive_for dir speed timeout now m)
driving-Keeps dir speed timeout now m c none_pending not_wait not_manual moving =
    let (motors, e, d) = drive_for_lem dir speed timeout now m c.driver in
    (
      record m { motors = motors; timer = timer_start now timeout },
      e,
      record {
        core = record { queue = c.queue; history = c.history; driver = d.driver };
        pending = inl none_pending;
        idle = λ s. ground arith;
        moving = λ s p. moving s;
      },
    )

search_run_in-Keeps :
    (s : SearchState) (now : ℕ) (m : Machine)
    → IsCore m
    → m.internal_event ≡ Event.none
    → m.state ≡ State.search
    → Keeps (search_run_in s now m)
unfolding search_run_in
search_run_in-Keeps SearchState.rotate now m c p s =
    let (enemy, located, _) = last_directed_enemy_lem c.queue c.history in
    rw located (
      driving-Keeps (if enemy_at_right enemy then DriveDir.rotate_right else DriveDir.rotate_left)
        DriveSpeed.fast search_state_rotate_timeout now m c p (λ w. cc) (λ w. cc) (λ w. cc))
search_run_in-Keeps SearchState.forward now m c p s =
    driving-Keeps DriveDir.forward DriveSpeed.fast search_state_forward_timeout now m c p (λ w. cc)
      (λ w. cc) (λ w. cc)

pub state_search_run-Keeps :
    (now : ℕ) (m : Machine)
    → IsCore m
    → m.internal_event ≡ Event.none
    → m.state ≡ State.search
    → Keeps (state_search_run now m)
unfolding state_search_run
state_search_run-Keeps now m c p s = search_run_in-Keeps m.search now m c p s

pub state_attack_run-Keeps :
    (now : ℕ) (m : Machine)
    → IsCore m
    → m.internal_event ≡ Event.none
    → m.state ≡ State.attack
    → Keeps (state_attack_run now m)
unfolding state_attack_run
state_attack_run-Keeps now m c p s =
    driving-Keeps (attack_dir m.attack) DriveSpeed.fast attack_state_timeout now m c p (λ w. cc)
      (λ w. cc) (λ w. cc)

moves_fit : (s : RetreatState) → (retreat_states s).move_cnt ≤ length (retreat_states s).moves
unfolding retreat_states
moves_fit RetreatState.reverse = omega arith
moves_fit _ = omega arith

-- Every used move of every retreat is there.
pub moves_present :
    (s : RetreatState) (i : ℕ)
    → i < (retreat_states s).move_cnt
    → (x : Move) × (get_elem? (retreat_states s).moves i ≡ some x)
moves_present s i h = (
  get_or (retreat_states s).moves i zero_move,
  get_elem?-eq-get_or (retreat_states s).moves i zero_move (omega (arith, moves_fit s)),
)

pub start_retreat_move-Keeps :
    (now : ℕ) (m : Machine)
    → IsCore m
    → m.internal_event ≡ Event.none
    → m.state ≡ State.retreat
    → m.retreat.move_idx < (retreat_states m.retreat.state).move_cnt
    → Keeps (start_retreat_move now m)
unfolding start_retreat_move
start_retreat_move-Keeps now m c p s h =
    let (x, e) = moves_present m.retreat.state m.retreat.move_idx h in
    rw (lt→ltb _ _ h, e)
      (driving-Keeps x.dir x.speed x.duration now m c p (λ w. cc) (λ w. cc) (λ w. h))

-- A line that a retreat can be chosen for.
abbrev pub is_clear_line : Line → Bool
is_clear_line Line.none = false
is_clear_line Line.diagonal_left = false
is_clear_line Line.diagonal_right = false
is_clear_line _ = true

pub move_cnt-pos : (s : RetreatState) → 0 < (retreat_states s).move_cnt
unfolding retreat_states
move_cnt-pos RetreatState.reverse = omega arith
move_cnt-pos _ = omega arith

next_retreat_for-is_some :
    (l : Line) (e : Enemy) (d : RetreatData) (x : Move)
    → is_clear_line l ≡ true
    → get_elem? (retreat_states d.state).moves d.move_idx ≡ some x
    → is_some (next_retreat_for l e d) ≡ true
unfolding next_retreat_for current_move
next_retreat_for-is_some Line.none e d x h p = ground arith
next_retreat_for-is_some _ e d x h p = ground arith

pub next_retreat_state_total :
    (m : Machine)
    → is_clear_line m.common.line ≡ true
    → m.retreat.move_idx ≡ 0
    → (s : RetreatState) × (next_retreat_state m ≡ some s)
unfolding next_retreat_state
next_retreat_state_total m h z =
    let (x, p) =
      moves_present m.retreat.state m.retreat.move_idx (rw z (move_cnt-pos m.retreat.state)) in
    value_of _ (next_retreat_for-is_some m.common.line m.common.enemy m.retreat x h p)

pub state_retreat_run-Keeps :
    (now : ℕ) (m : Machine)
    → IsCore m
    → m.internal_event ≡ Event.none
    → m.state ≡ State.retreat
    → is_clear_line m.common.line ≡ true
    → Keeps (state_retreat_run now m)
unfolding state_retreat_run
state_retreat_run-Keeps now m c p s l =
    let m0 = record m { retreat = record m.retreat { move_idx = 0 } } in
    let (next, e) = next_retreat_state_total m0 l refl in
    rw e (
      start_retreat_move-Keeps now (record m { retreat = record { state = next; move_idx = 0 } })
        (record { queue = c.queue; history = c.history; driver = c.driver }) p s
        (move_cnt-pos next))

pub post_finished :
    (m : Machine)
    → m.internal_event ≡ Event.none
    → state_machine_post_internal_event Event.finished m
      ≡ some (record m { internal_event = Event.finished })
unfolding state_machine_post_internal_event
post_finished m p = rw (ap event_index p) refl

not_done :
    (d : RetreatData)
    → d.move_idx ≤ (retreat_states d.state).move_cnt
    → retreat_state_done d ≡ false
    → d.move_idx < (retreat_states d.state).move_cnt
unfolding retreat_state_done
not_done d h e = ground arith

-- Behind the last move FINISHED is posted, which no other event is in the way of.
pub next_move-Keeps :
    (now : ℕ) (m : Machine)
    → IsCore m
    → m.internal_event ≡ Event.none
    → m.state ≡ State.retreat
    → m.retreat.move_idx < (retreat_states m.retreat.state).move_cnt
    → Keeps (next_move now m)
unfolding next_move
next_move-Keeps now m c p s h =
    let d = record m.retreat { move_idx = m.retreat.move_idx + 1 } in
    let m1 = record m { retreat = d } in
    let c1 : IsCore m1 = record { queue = c.queue; history = c.history; driver = c.driver } in
    elim (Bool-cases (retreat_state_done d)) [
      | inl done ↦ (
        record m1 { internal_event = Event.finished },
        rw done (post_finished m1 p),
        record {
          core = record { queue = c.queue; history = c.history; driver = c.driver };
          pending = inr (refl, inl s);
          idle = λ w. ground arith;
          moving = λ w q. cc;
        },
      )
      | inr more ↦ rw more (start_retreat_move-Keeps now m1 c1 p s (not_done d (omega arith) more))
    ]

with_motors :
    (motors : Motors) (m : Machine) → Inv m → IsDriver motors → Inv (record m { motors = motors })
with_motors motors m h v = record {
  core = record { queue = h.core.queue; history = h.core.history; driver = v };
  pending = h.pending;
  idle = h.idle;
  moving = h.moving;
}

pub state_manual_enter-Keeps :
    (o : Option (Option DriveDir)) (m : Machine)
    → Inv m
    → m.state ≡ State.manual
    → Keeps (manual_apply o m)
unfolding manual_apply
state_manual_enter-Keeps none m h s = (m, refl, h)
state_manual_enter-Keeps (some none) m h s =
    let (motors, e, v, l, r) = drive_stop_lem m.motors h.core.driver in
    (record m { motors = motors }, rw e refl, with_motors motors m h v)
state_manual_enter-Keeps (some (some dir)) m h s =
    let (motors, e, v, l, r) = drive_set_lem dir DriveSpeed.max m.motors h.core.driver in
    (record m { motors = motors }, rw e refl, with_motors motors m h v)
