-- ===== src/Drivers/IrRemote/Timing.antt =====
-- The timers and pulses of src/drivers/ir_remote.c, one at a time.
use nsumo_video.Prelude.{
  if◌then◌else◌, ◌>>=◌, ℕ, zero, suc, ◌+◌, ◌*◌, ◌≤◌, ◌<◌, ◌≡◌, refl, ap, ◌∙◌, true, false, some,
  arith,
}
use nsumo_video.Common.RingBuffer.{put}
use nsumo_video.Drivers.IrRemote.{
  u32, timer_timeout_ms, Ir, decoded_cmd, bit_of, ir_timer_start, ir_timer_stop, count_pulse,
  push_message, isr_pulse, isr_timer_a0, quiet,
}

abbrev millisecond : Ir → Ir
millisecond s = if s.running then isr_timer_a0 s else s

millisecond_running :
    (s : Ir)
    → s.running ≡ true
    → s.timer_ms < timer_timeout_ms
    → millisecond s ≡ record s { timer_ms = s.timer_ms + 1 }
unfolding isr_timer_a0
millisecond_running s r h = ground arith

millisecond_stopped : (s : Ir) → s.running ≡ false → millisecond s ≡ s
millisecond_stopped s r = ground arith

-- Within the timeout the timer counts the milliseconds.
pub quiet_running :
    (ms : ℕ) (s : Ir)
    → s.running ≡ true
    → s.timer_ms + ms ≤ timer_timeout_ms
    → quiet ms s ≡ record s { timer_ms = s.timer_ms + ms }
unfolding quiet
quiet_running zero s r h =
    let e : s.timer_ms ≡ s.timer_ms + 0 = omega arith in λ i. record s { timer_ms = e i }
quiet_running (suc ms) s r h =
    let e : s.timer_ms + 1 + ms ≡ s.timer_ms + suc ms = omega arith in
    ap (quiet ms) (millisecond_running s r (omega arith))
    ∙ quiet_running ms (record s { timer_ms = s.timer_ms + 1 }) r (omega arith)
    ∙ (λ i. record s { timer_ms = e i })

-- While the timer is stopped nothing changes.
pub quiet_stopped : (ms : ℕ) (s : Ir) → s.running ≡ false → quiet ms s ≡ s
unfolding quiet
quiet_stopped zero s r = refl
quiet_stopped (suc ms) s r = ap (quiet ms) (millisecond_stopped s r) ∙ quiet_stopped ms s r

-- What a bit pulse leaves, before the last one of a message.
abbrev pub after_bit : ℕ → Ir → Ir
after_bit ms s = record s {
  raw = u32 (u32 (s.raw * 2) + bit_of ms);
  pulse_count = s.pulse_count + 1;
  timer_ms = 0;
  running = true;
}

pub isr_pulse_bit :
    (s : Ir)
    → 2 ≤ s.pulse_count
    → s.pulse_count < 33
    → s.timer_ms < 5
    → isr_pulse s ≡ some (after_bit s.timer_ms s)
unfolding isr_pulse count_pulse push_message ir_timer_start ir_timer_stop
isr_pulse_bit s h k t = ground arith

pub isr_pulse_last :
    (s : Ir)
    → s.pulse_count ≡ 33
    → s.timer_ms < 5
    → isr_pulse s ≡ (
        put s.ir_cmd_buffer (decoded_cmd (u32 (u32 (s.raw * 2) + bit_of s.timer_ms))) >>= λ b.
        some (record (after_bit s.timer_ms s) { ir_cmd_buffer = b }))
unfolding isr_pulse count_pulse push_message ir_timer_start ir_timer_stop
isr_pulse_last s h t = ground arith
