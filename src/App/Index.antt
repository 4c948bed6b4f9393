-- ===== src/App/Index.antt =====
-- The values of the enumerators of src/app, as C compares and converts them.
use nsumo_video.Prelude.{ℕ, ◌≡◌, arith}
use nsumo_video.App.Types.{EnemyPos, EnemyRange, Line, State, Event}

abbrev pub pos_index : EnemyPos → ℕ
pos_index EnemyPos.none = 0
pos_index EnemyPos.front_left = 1
pos_index EnemyPos.front = 2
pos_index EnemyPos.front_right = 3
pos_index EnemyPos.left = 4
pos_index EnemyPos.right = 5
pos_index EnemyPos.front_and_front_left = 6
pos_index EnemyPos.front_and_front_right = 7
pos_index EnemyPos.front_all = 8
pos_index EnemyPos.impossible = 9

abbrev pub range_index : EnemyRange → ℕ
range_index EnemyRange.none = 0
range_index EnemyRange.close = 1
range_index EnemyRange.mid = 2
range_index EnemyRange.far = 3

abbrev pub line_index : Line → ℕ
line_index Line.none = 0
line_index Line.front = 1
line_index Line.back = 2
line_index Line.left = 3
line_index Line.right = 4
line_index Line.front_left = 5
line_index Line.front_right = 6
line_index Line.back_left = 7
line_index Line.back_right = 8
line_index Line.diagonal_left = 9
line_index Line.diagonal_right = 10

abbrev pub state_index : State → ℕ
state_index State.wait = 0
state_index State.search = 1
state_index State.attack = 2
state_index State.retreat = 3
state_index State.manual = 4

abbrev pub event_index : Event → ℕ
event_index Event.timeout = 0
event_index Event.line = 1
event_index Event.enemy = 2
event_index Event.finished = 3
event_index Event.command = 4
event_index Event.none = 5

-- A value fixes its enumerator.
pub pos_index_inj : (a b : EnemyPos) → pos_index a ≡ pos_index b → a ≡ b
pos_index_inj a b h = ground arith

pub range_index_inj : (a b : EnemyRange) → range_index a ≡ range_index b → a ≡ b
range_index_inj a b h = ground arith

pub line_index_inj : (a b : Line) → line_index a ≡ line_index b → a ≡ b
line_index_inj a b h = ground arith

pub state_index_inj : (a b : State) → state_index a ≡ state_index b → a ≡ b
state_index_inj a b h = ground arith

pub event_index_inj : (a b : Event) → event_index a ≡ event_index b → a ≡ b
event_index_inj a b h = ground arith
