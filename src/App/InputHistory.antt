-- ===== src/App/InputHistory.antt =====
-- src/app/input_history.c: the last six inputs, in a ring buffer.
pub mod Saved
pub mod Directed
use nsumo_video.Prelude.{
  ◌==◌, if◌then◌else◌, ◌>>=◌, ◌>>◌, ℕ, zero, suc, ◌+◌, Bool, ◌&&◌, ◌||◌, Option, some,
}
use nsumo_video.Common.RingBuffer.{RingBuffer}
use nsumo_video.Common.RingBuffer
use nsumo_video.App.Types.{Enemy, Input}
use nsumo_video.App.Index.{pos_index, range_index, line_index}
use nsumo_video.App.Enemy.{no_enemy, enemy_at_left, enemy_at_right}

-- Enums are compared by their values.
unfoldable pub input_equal : Input → Input → Bool
input_equal a b =
    line_index a.line == line_index b.line
    && pos_index a.enemy.position == pos_index b.enemy.position
    && range_index a.enemy.range == range_index b.enemy.range

-- No enemy and no line: nothing to save.
unfoldable pub is_idle : Input → Bool
is_idle i = pos_index i.enemy.position == 0 && line_index i.line == 0

unfoldable pub input_history_save : RingBuffer Input → Input → Option (RingBuffer Input)
unfolding is_idle
input_history_save history input =
    if is_idle input
    then some history
    else if RingBuffer.count history == 0
    then RingBuffer.put history input
    else (do
      last_input ← RingBuffer.peek_head history 0
      if input_equal input last_input then some history else RingBuffer.put history input)

unfoldable pub is_directed : Input → Bool
is_directed i = enemy_at_left i.enemy || enemy_at_right i.enemy

-- The loop of `input_history_last_directed_enemy`, with the rounds that are left.
unfoldable pub last_directed_from : RingBuffer Input → ℕ → ℕ → Option Enemy
last_directed_from history zero offset = some no_enemy
last_directed_from history (suc rounds) offset =
    let next = last_directed_from history rounds (offset + 1) in
    do
      input ← RingBuffer.peek_head history offset
      if is_directed input then some input.enemy else next

unfoldable pub input_history_last_directed_enemy : RingBuffer Input → Option Enemy
unfolding last_directed_from
input_history_last_directed_enemy history = last_directed_from history (RingBuffer.count history) 0
