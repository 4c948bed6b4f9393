-- ===== src/Drivers/IrRemote.antt =====
-- src/drivers/ir_remote.c, for the build with DISABLE_IR_REMOTE not defined: the NEC protocol,
-- decoded from the times between the pulses of the receiver.
pub mod Timing
pub mod Frame
pub mod Message
pub mod Start
pub mod Receiving
use nsumo_video.Prelude.{
  ltb, leb, ◌==◌, if◌then◌else◌, ◌>>=◌, ℕ, zero, suc, ◌+◌, ◌*◌, ◌/◌, ◌%◌, ◌^◌, Bool, true, false,
  not, ◌&&◌, ◌||◌, Option, some, List, [], ◌∷◌,
}
use nsumo_video.Common.RingBuffer.{RingBuffer, is_empty, get, put}

abbrev pub u32 : ℕ → ℕ
u32 n = n % 2 ^ 32

abbrev pub timer_timeout_ms : ℕ
timer_timeout_ms = 150

-- The static variables. `raw` is the uint32_t of `ir_message`; `running` says that timer A1 counts,
-- and so that its interrupt comes every millisecond.
pub record Ir : Type 0 where
  pub raw : ℕ
  pub timer_ms : ℕ
  pub pulse_count : ℕ
  pub running : Bool
  pub ir_cmd_buffer : RingBuffer ℕ

-- `ir_message.decoded.cmd`: the second byte of the little-endian union.
abbrev pub decoded_cmd : ℕ → ℕ
decoded_cmd raw = raw / 256 % 256

abbrev is_odd : ℕ → Bool
is_odd n = n % 2 == 1

unfoldable pub is_valid_pulse : ℕ → ℕ → Bool
is_valid_pulse pulse ms =
    if pulse == 1
    then ms == 0
    else if pulse == 2
    then ltb ms 10
    else if leb 3 pulse && leb pulse 34
    then ltb ms 5
    else if pulse == 35
    then ltb ms 50
    else if pulse == 36
    then ltb ms 5
    else if leb 37 pulse && is_odd pulse
    then ltb ms 110
    else if leb 37 pulse
    then ltb ms 5
    else false

unfoldable pub is_bit_pulse : ℕ → Bool
is_bit_pulse pulse = leb 3 pulse && leb pulse 34

unfoldable pub is_message_pulse : ℕ → Bool
is_message_pulse pulse = pulse == 34 || (ltb 36 pulse && is_odd pulse)

-- The bit that a pulse ends: 1 from two milliseconds on.
abbrev pub bit_of : ℕ → ℕ
bit_of ms = if leb 2 ms then 1 else 0

-- `ir_timer_start`
unfoldable pub ir_timer_start : Ir → Ir
ir_timer_start s = record s { running = true; timer_ms = 0 }

-- `ir_timer_stop`
unfoldable pub ir_timer_stop : Ir → Ir
ir_timer_stop s = record s { running = false }

-- The part of `isr_pulse` that counts and decodes.
unfoldable pub count_pulse : Ir → Ir
unfolding is_valid_pulse is_bit_pulse
count_pulse s =
    let pulse = (s.pulse_count + 1) % 65536 in
    if not (is_valid_pulse pulse s.timer_ms)
    then record s { pulse_count = 1; raw = 0 }
    else if is_bit_pulse pulse
    then record s { pulse_count = pulse; raw = u32 (u32 (s.raw * 2) + bit_of s.timer_ms) }
    else record s { pulse_count = pulse }

-- The part of `isr_pulse` that hands a command over.
unfoldable pub push_message : Ir → Option Ir
unfolding is_message_pulse
push_message s =
    if is_message_pulse s.pulse_count
    then (put s.ir_cmd_buffer (decoded_cmd s.raw) >>= λ b. some (record s { ir_cmd_buffer = b }))
    else some s

unfoldable pub isr_pulse : Ir → Option Ir
isr_pulse s = push_message (count_pulse (ir_timer_stop s)) >>= λ t. some (ir_timer_start t)

unfoldable pub isr_timer_a0 : Ir → Ir
unfolding ir_timer_stop
isr_timer_a0 s =
    if ltb s.timer_ms timer_timeout_ms
    then record s { timer_ms = s.timer_ms + 1 }
    else record (ir_timer_stop s) { pulse_count = 0; raw = 0; timer_ms = 0 }

-- `ms` milliseconds without a pulse: the timer interrupts, while the timer counts.
unfoldable pub quiet : ℕ → Ir → Ir
unfolding isr_timer_a0
quiet zero s = s
quiet (suc ms) s = quiet ms (if s.running then isr_timer_a0 s else s)

-- Pulses, each after a time without one.
unfoldable pub receive : List ℕ → Ir → Option Ir
receive [] s = some s
receive (ms ∷ rest) s = isr_pulse (quiet ms s) >>= λ t. receive rest t

-- IR_CMD_NONE
abbrev pub no_cmd : ℕ
no_cmd = 0xFF

-- The result has its low byte overwritten by the byte from the buffer.
unfoldable pub ir_remote_get_cmd : Ir → Option (ℕ × Ir)
ir_remote_get_cmd s =
    if not (is_empty s.ir_cmd_buffer)
    then (get s.ir_cmd_buffer >>= λ p. some (p.0, record s { ir_cmd_buffer = p.1 }))
    else some (no_cmd, s)
