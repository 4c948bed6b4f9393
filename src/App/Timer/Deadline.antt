-- ===== src/App/Timer/Deadline.antt =====
-- When a started timer expires (src/app/timer.c).
use nsumo_video.Prelude.{ltb, ℕ, ◌+◌, ◌^◌, ◌≤◌, ◌<◌, ◌≡◌, ◌≢◌, false, arith}
use nsumo_video.App.Timer.{millis, timer_cleared, timer_start, timer_timeout}

-- `millis` stays below 2^31.
pub millis-lt : (cnt : ℕ) → millis cnt < 2 ^ 31
unfolding millis
millis-lt cnt = omega arith

-- A timer that is started at a time that `millis` returns, with a timeout of more than 0 and
-- less than 2^31 ms, is not taken for a cleared one, and reads as expired exactly at the
-- times `now` that are later than the start plus the timeout.
pub timer_timeout-timer_start :
    (cnt timeout now : ℕ)
    → 0 < timeout
    → timeout < 2 ^ 31
    → (timer_start (millis cnt) timeout ≢ timer_cleared)
      × (timer_timeout now (timer_start (millis cnt) timeout) ≡ ltb (millis cnt + timeout) now)
unfolding timer_start timer_timeout
timer_timeout-timer_start cnt timeout now h k =
    (omega (arith, millis-lt cnt), ground (arith, millis-lt cnt))

-- A timer that is started with a timeout below 2^31 ms and whose deadline lies at or past 2^31 ms,
-- where `millis` starts again from 0, never expires: no value that `millis` returns is past it.
pub timer_start_wraps :
    (cnt timeout later : ℕ)
    → timeout < 2 ^ 31
    → 2 ^ 31 ≤ millis cnt + timeout
    → timer_timeout (millis later) (timer_start (millis cnt) timeout) ≡ false
unfolding timer_start timer_timeout
timer_start_wraps cnt timeout later h k = ground (arith, millis-lt cnt, millis-lt later)
