-- ===== src/App/StateWait.antt =====
-- src/app/state_wait.c
use nsumo_video.Prelude.{◌==◌, ◌>>◌, assert, Option, some}
use nsumo_video.App.Types.{State, Event}
use nsumo_video.App.Index.{state_index}
use nsumo_video.App.Machine.{Machine}

unfoldable pub state_wait_enter : State → Event → Machine → Option Machine
state_wait_enter from event m = do assert (state_index from == state_index State.wait); some m
