-- ===== src/App/StateMachine/Table.antt =====
-- The table of transitions of src/app/state_machine.c, and what its trace line prints.
use Prim.Native.String.{String}
use nsumo_video.Prelude.{◌≡◌, refl, ap, ◌≢◌, ◌↔◌, some, arith}
use nsumo_video.Common.EnumToString.{state_to_string, state_event_to_string}
use nsumo_video.Common.EnumToString.Distinct.{state_event_to_string_inj}
use nsumo_video.App.Index.{state_index, event_index}
use nsumo_video.App.Types.{State, Event}
use nsumo_video.App.StateMachine.{transition}

-- The edges of docs/state_machine.uml that lead to another state.
pub data Edge : State → Event → State → Type 0 where
  start : Edge State.wait Event.command State.search
  spot : Edge State.search Event.enemy State.attack
  search_line : Edge State.search Event.line State.retreat
  attack_line : Edge State.attack Event.line State.retreat
  lose : Edge State.attack Event.none State.search
  done : Edge State.retreat Event.finished State.search
  search_manual : Edge State.search Event.command State.manual
  attack_manual : Edge State.attack Event.command State.manual
  retreat_manual : Edge State.retreat Event.command State.manual

leaving-Edge : (s t : State) (e : Event) → transition s e ≡ some t → s ≢ t → Edge s e t
unfolding transition
leaving-Edge s t e h n = grind (
  arith, start, spot, search_line, attack_line, lose, done, search_manual, attack_manual,
  retreat_manual,
)

Edge-transition : {s t : State} {e : Event} → Edge s e t → (transition s e ≡ some t) × (s ≢ t)
unfolding transition
Edge-transition start = (refl, λ q. cc)
Edge-transition spot = (refl, λ q. cc)
Edge-transition search_line = (refl, λ q. cc)
Edge-transition attack_line = (refl, λ q. cc)
Edge-transition lose = (refl, λ q. cc)
Edge-transition done = (refl, λ q. cc)
Edge-transition search_manual = (refl, λ q. cc)
Edge-transition attack_manual = (refl, λ q. cc)
Edge-transition retreat_manual = (refl, λ q. cc)

-- `process_event` finds a transition from a state to another one exactly along the edges of the
-- diagram in docs/state_machine.uml that lead to another state.
pub transition-Edge : (s t : State) (e : Event) → ((transition s e ≡ some t) × (s ≢ t)) ↔ Edge s e t
transition-Edge s t e = (λ h. leaving-Edge s t e h.0 h.1, Edge-transition)

-- The three strings of the trace line "%s to %s (%s)" of `state_enter`, which hands the event to
-- `state_to_string` and the new state to `state_event_to_string`.
unfoldable pub trace_strings : State → Event → State → String × String × String
trace_strings from event to = (
  state_to_string (state_index from),
  state_to_string (event_index event),
  state_event_to_string (state_index to),
)

-- The names of the old state, of the new state and of the event.
abbrev pub transition_strings : State → Event → State → String × String × String
transition_strings from event to = (
  state_to_string (state_index from),
  state_to_string (state_index to),
  state_event_to_string (event_index event),
)

-- The trace line prints the names of the old state, the new state and the event exactly where the
-- values of the new state and of the event are equal.
pub trace_strings_iff :
    (from to : State) (event : Event)
    → (trace_strings from event to ≡ transition_strings from event to)
      ↔ (state_index to ≡ event_index event)
unfolding trace_strings
trace_strings_iff from to event = (
  λ e.
      state_event_to_string_inj (state_index to) (event_index event) (ground arith) (ground arith)
        (ap (λ (p : String × String × String). p.2) e),
  λ e. rw e refl,
)
