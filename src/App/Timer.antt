-- ===== src/App/Timer.antt =====
-- src/app/timer.c, over src/drivers/millis.c: a timer is the uint32_t at which it expires, and 0
-- means that it is cleared.
pub mod Deadline
use nsumo_video.Prelude.{ltb, ◌==◌, if◌then◌else◌, ℕ, ◌+◌, ◌/◌, ◌%◌, ◌^◌, Bool, false}

abbrev pub u32 : ℕ → ℕ
u32 n = n % 2 ^ 32

-- `millis`: the watchdog interrupt counts half milliseconds in a uint32_t.
unfoldable pub millis : ℕ → ℕ
millis watchdog_interrupt_cnt = u32 watchdog_interrupt_cnt / 2

-- `isr_watchdog`
unfoldable pub isr_watchdog : ℕ → ℕ
isr_watchdog watchdog_interrupt_cnt = u32 (watchdog_interrupt_cnt + 1)

abbrev pub timer_cleared : ℕ
timer_cleared = 0

-- `timer_start`, at the time `now` that `millis()` returns.
unfoldable pub timer_start : ℕ → ℕ → ℕ
timer_start now timeout_ms = u32 (now + timeout_ms)

unfoldable pub timer_timeout : ℕ → ℕ → Bool
timer_timeout now timer = if timer == timer_cleared then false else ltb timer now

unfoldable pub timer_clear : ℕ
timer_clear = timer_cleared
