-- ===== src/Common/Trace.antt =====
-- src/common/trace.c, over src/drivers/uart.c. The printf library is no part of the repository: the text
-- that it makes of the format and its arguments, and hands to `_putchar` byte by byte, is an argument.
use nsumo_video.Prelude.{◌>>=◌, ◌>>◌, assert, ℕ, Bool, true, not, Option, some, List}
use nsumo_video.Drivers.Uart.{Uart, uart_init, put_text}

-- The Bool is `initialized`.
unfoldable pub trace_init : Bool × Uart → Option (Bool × Uart)
unfolding uart_init
trace_init (initialized, u) = do assert (not initialized); v ← uart_init u; some (true, v)

unfoldable pub trace : (fuel : ℕ) → List ℕ → Bool × Uart → Option (Bool × Uart)
unfolding put_text
trace fuel text (initialized, u) = do
  assert initialized
  v ← put_text fuel text u
  some (initialized, v)
