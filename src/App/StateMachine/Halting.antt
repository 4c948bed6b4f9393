-- ===== src/App/StateMachine/Halting.antt =====
-- Exactly when a round of `state_machine_run` (src/app/state_machine.c) fails an assertion, and the
-- invariant along a run.
use mathlib.Core.Path.{subst}
use nsumo_video.Prelude.{
  Option-cases, ◌≡◌, refl, sym, ap, subst, ◌∙◌, ◌≢◌, ◌↔◌, inl, inr, false, Option, none, some, List,
  [], ◌∷◌, arith,
}
use nsumo_video.Drivers.Tb6612fng.{Motors}
use nsumo_video.Drivers.Tb6612fng.Outputs.{IsDriver}
use nsumo_video.App.Types.{Line, State, Event}
use nsumo_video.App.Timer.{timer_clear}
use nsumo_video.App.InputHistory.Saved.{input_history_save_lem}
use nsumo_video.App.Machine.{Machine}
use nsumo_video.App.StateMachine.{
  process_event_at, Reading, input_of, state_machine_init, step, run,
}
use nsumo_video.App.StateMachine.Invariant.{Inv, state_machine_init-Inv}
use nsumo_video.App.StateMachine.Entering.{is_clear_line}
use nsumo_video.App.StateMachine.Events.{
  attack-timeout, diagonal-refused, finished_in_manual-refused,
}
use nsumo_video.App.StateMachine.Ladder.{seen, Rung-finished, Rung-timeout, Rung-line, round_lem}
use nsumo_video.App.StateMachine.Surviving.{IsDiagonal}
use nsumo_video.App.StateMachine.Rounds.{
  Refused, finished_in_manual, attack_timed_out, diagonal_line, step_outcome,
}

diagonal-unclear : (l : Line) → IsDiagonal l → (is_clear_line l ≡ false) × (l ≢ Line.none)
diagonal-unclear l d = ground arith

-- A refused round fails an assertion.
pub Refused-none : (r : Reading) (m : Machine) → Inv m → Refused r m → step r m ≡ none
unfolding seen
Refused-none r m h (finished_in_manual c p s) =
    let (history, e, k) = input_history_save_lem h.core.queue (input_of r) h.core.history in
    let m' = record (seen r history m) { internal_event = Event.none } in
    round_lem r m history Event.finished m' e (Rung-finished r (seen r history m) c p)
    ∙ ap (λ (x : State). process_event_at x Event.finished r.now_start m') s
    ∙ finished_in_manual-refused r.now_start m'
Refused-none r m h (attack_timed_out c p t s) =
    let (history, e, k) = input_history_save_lem h.core.queue (input_of r) h.core.history in
    let m' = record (seen r history m) { timer = timer_clear } in
    round_lem r m history Event.timeout m' e (Rung-timeout r (seen r history m) c p t)
    ∙ ap (λ (x : State). process_event_at x Event.timeout r.now_start m') s
    ∙ attack-timeout r.now_start m'
Refused-none r m h (diagonal_line c p t l s) =
    let (history, e, k) = input_history_save_lem h.core.queue (input_of r) h.core.history in
    let m' = seen r history m in
    round_lem r m history Event.line m' e (Rung-line r m' c p t (diagonal-unclear _ l).1)
    ∙ diagonal-refused r.now_start m' m.state (diagonal-unclear _ l).0 s

-- From a state that satisfies the invariant, a round fails an assertion exactly where FINISHED is
-- still pending in manual mode and no command arrives, or an attack times out and no command
-- arrives, or one of the diagonal lines is seen in a search, an attack or a retreat while there is
-- no command, no pending event and no timeout.
pub step-none_iff : (r : Reading) (m : Machine) → Inv m → (step r m ≡ none) ↔ Refused r m
step-none_iff r m h = (
  λ e. elim (step_outcome r m h) [ inl refused ↦ refused | inr (m', p, k) ↦ cc ],
  λ refused. Refused-none r m h refused,
)

-- A round that fails no assertion keeps the invariant.
pub step-Inv : (r : Reading) (m m' : Machine) → Inv m → step r m ≡ some m' → Inv m'
step-Inv r m m' h e = elim (step_outcome r m h) [
  | inl refused ↦ (let p = Refused-none r m h refused in cc)
  | inr (m'', p, k) ↦ (let q : m'' ≡ m' = cc in subst Inv q k)
]

run_from-Inv : (rs : List Reading) (m m' : Machine) → Inv m → run rs m ≡ some m' → Inv m'
unfolding run
run_from-Inv [] m m' h e = (let q : m ≡ m' = cc in subst Inv q h)
run_from-Inv (r ∷ rs) m m' h e = elim (Option-cases (step r m)) [
  | inl p ↦ (let q : ◌≡◌ {A = Option Machine} none (some m') = sym (rw p refl) ∙ e in cc)
  | inr (n, p) ↦ run_from-Inv rs n m' (step-Inv r m n h p) (sym (rw p refl) ∙ e)
]

-- Whatever is read, the invariant holds after any number of rounds of `state_machine_run` that fail
-- no assertion, if the motor hardware is well formed at the start.
pub run-Inv :
    (rs : List Reading) (motors : Motors) (m : Machine)
    → IsDriver motors
    → run rs (state_machine_init motors) ≡ some m
    → Inv m
run-Inv rs motors m h e =
    run_from-Inv rs (state_machine_init motors) m (state_machine_init-Inv motors h) e
