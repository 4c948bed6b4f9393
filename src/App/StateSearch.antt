-- ===== src/App/StateSearch.antt =====
-- src/app/state_search.c
use nsumo_video.Prelude.{if◌then◌else◌, ◌>>=◌, ℕ, Option, none, some}
use nsumo_video.App.Types.{DriveDir, DriveSpeed, State, Event, SearchState}
use nsumo_video.App.Enemy.{enemy_at_right}
use nsumo_video.App.InputHistory.{input_history_last_directed_enemy}
use nsumo_video.App.Machine.{Machine, drive_for}

abbrev pub search_state_rotate_timeout : ℕ
search_state_rotate_timeout = 400

abbrev pub search_state_forward_timeout : ℕ
search_state_forward_timeout = 3000

-- The cases of the switch in `state_search_run`.
unfoldable pub search_run_in : SearchState → ℕ → Machine → Option Machine
search_run_in SearchState.rotate now m = do
  last_enemy ← input_history_last_directed_enemy m.input_history
  drive_for (if enemy_at_right last_enemy then DriveDir.rotate_right else DriveDir.rotate_left)
      DriveSpeed.fast search_state_rotate_timeout now m
search_run_in SearchState.forward now m =
    drive_for DriveDir.forward DriveSpeed.fast search_state_forward_timeout now m

unfoldable pub state_search_run : ℕ → Machine → Option Machine
unfolding search_run_in
state_search_run now m = search_run_in m.search now m

-- On a timeout the search changes between rotating and driving forward.
abbrev pub toggled : SearchState → SearchState
toggled SearchState.rotate = SearchState.forward
toggled SearchState.forward = SearchState.rotate

-- After a retreat a search that was driving forward rotates instead, and one that rotated still does.
abbrev pub after_retreat : SearchState → SearchState
after_retreat SearchState.forward = SearchState.rotate
after_retreat SearchState.rotate = SearchState.rotate

-- The last clause holds the cases that assert.
unfoldable pub state_search_enter : State → Event → ℕ → Machine → Option Machine
state_search_enter State.wait Event.command now m = state_search_run now m
state_search_enter State.attack Event.none now m = state_search_run now m
state_search_enter State.retreat Event.finished now m =
    state_search_run now (record m { search = after_retreat m.search })
state_search_enter State.search Event.none now m = some m
state_search_enter State.search Event.timeout now m =
    state_search_run now (record m { search = toggled m.search })
state_search_enter _ _ now m = none

unfoldable pub state_search_init : SearchState
state_search_init = SearchState.rotate
