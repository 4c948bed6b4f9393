-- ===== src/Drivers/IrRemote/Message.antt =====
-- A whole NEC message through src/drivers/ir_remote.c, and the command that `ir_remote_get_cmd`
-- returns after it.
use nsumo_video.Prelude.{
  length, ◌>>=◌, Option-cases, ℕ, zero, suc, ◌+◌, ◌-◌, ◌*◌, ◌/◌, ◌%◌, ◌<◌, ◌≡◌, refl, sym, ap,
  subst, ◌∙◌, inl, inr, some, List, [], ◌∷◌, ◌++◌, arith,
}
use nsumo_video.Common.RingBuffer.{put}
use nsumo_video.Common.RingBuffer.Valid.{IsValid, is_empty_lem}
use nsumo_video.Common.RingBuffer.Queue.{Holds, push, put_lem, get_lem}
use nsumo_video.Drivers.IrRemote.{u32, Ir, decoded_cmd, bit_of, receive, no_cmd, ir_remote_get_cmd}
use nsumo_video.Drivers.IrRemote.Timing.{after_bit, isr_pulse_last}
use nsumo_video.Drivers.IrRemote.Frame.{
  value, AllShort, bits_of, after_bits, quiet_at, receive_bits, receive-append, IsIdle, after_lead,
  receive_lead, value-append, bits_of-append,
}

-- The `k` lowest bits of a number, most significant first.
abbrev pub spell : ℕ → ℕ → List ℕ
spell zero n = []
spell (suc k) n = spell k (n / 2) ++ n % 2 ∷ []

abbrev power_of_two : ℕ → ℕ
power_of_two zero = 1
power_of_two (suc k) = 2 * power_of_two k

value-spell : (k n : ℕ) → n < power_of_two k → value 0 (spell k n) ≡ n
value-spell zero n h = omega arith
value-spell (suc k) n h =
    omega (arith, value-append 0 (n % 2) (spell k (n / 2)), value-spell k (n / 2) (omega arith))

-- The last bit of a message: the timer has run since the pulse before it.
last_pulse :
    (ts : List ℕ) (t : ℕ) (s : Ir)
    → length ts ≡ 31
    → t < 5
    → let n = after_bits ts (after_lead s) in
      receive (t ∷ []) n ≡ (
        put s.ir_cmd_buffer (decoded_cmd (u32 (value 0 (bits_of (ts ++ t ∷ []))))) >>= λ b.
        some (record (after_bit t n) { ir_cmd_buffer = b }))
unfolding receive
last_pulse ts t s l k =
    let n = after_bits ts (after_lead s) in
    let e : u32 (u32 (n.raw * 2) + bit_of t) ≡ u32 (value 0 (bits_of (ts ++ t ∷ []))) =
      rw (bits_of-append ts t) (omega (arith, value-append 0 (bit_of t) (bits_of ts))) in
    rw (quiet_at t n refl refl (omega arith)) (
      rw (isr_pulse_last (record n { timer_ms = t }) (omega arith) k) (
        rw e
          (elim (Option-cases
            (put s.ir_cmd_buffer (decoded_cmd (u32 (value 0 (bits_of (ts ++ t ∷ []))))))) [
              | inl h ↦ rw h refl
              | inr (b, h) ↦ rw h refl
            ])))

-- Pulses `a`, `b` ms apart from what precedes them, then 32 bits.
-- On an idle receiver whose command buffer is well formed and holds `q`, a message whose second pulse
-- comes less than 10 ms after its first one is decoded without a failed assertion, whatever the times of its 32 bits, each below 5 ms: the buffer then holds also
-- the command, the second lowest byte of the number that the bits spell.
pub receive_lem :
    (a b : ℕ) (ts : List ℕ) (t : ℕ) (q : List ℕ) {s : Ir}
    → IsIdle s
    → b < 10
    → length ts ≡ 31
    → AllShort ts
    → t < 5
    → IsValid s.ir_cmd_buffer
    → Holds s.ir_cmd_buffer q
    → (s' : Ir) × (receive (a ∷ b ∷ ts ++ t ∷ []) s ≡ some s')
      × IsValid s'.ir_cmd_buffer
      × Holds s'.ir_cmd_buffer (
          push s.ir_cmd_buffer.buffer_size q (decoded_cmd (u32 (value 0 (bits_of (ts ++ t ∷ []))))))
receive_lem a b ts t q {s} i hb l short ht v hq =
    let c = decoded_cmd (u32 (value 0 (bits_of (ts ++ t ∷ [])))) in
    let p = put_lem q c v hq in
    (
      record (after_bit t (after_bits ts (after_lead s))) { ir_cmd_buffer = p.0 },
      receive_lead a b (ts ++ t ∷ []) s i hb
          ∙ receive-append ts (t ∷ []) (after_lead s)
          ∙ rw
              (receive_bits ts (after_lead s) refl refl (omega arith) (omega arith) (omega arith)
                short)
              (last_pulse ts t s l ht ∙ rw p.1 refl),
      p.2,
      p.3,
    )

push_first : (size c : ℕ) → 0 < size → push size [] c ≡ c ∷ []
push_first size c h = ground arith

-- Where the buffer holds one command, `ir_remote_get_cmd` returns it, then IR_CMD_NONE.
ir_remote_get_cmd_once :
    (c : ℕ) (s : Ir)
    → IsValid s.ir_cmd_buffer
    → Holds s.ir_cmd_buffer (c ∷ [])
    → (s' : Ir) × (ir_remote_get_cmd s ≡ some (c, s')) × (ir_remote_get_cmd s' ≡ some (no_cmd, s'))
unfolding ir_remote_get_cmd
ir_remote_get_cmd_once c s v hq =
    let g = get_lem c [] v hq in
    (
      record s { ir_cmd_buffer = g.0 },
      rw (is_empty_lem v) (rw (sym hq.len) (rw g.1 refl)),
      rw (is_empty_lem g.2) (rw (sym g.3.len) refl),
    )

-- The 32 bits that a remote sends: the address, its complement, the command, its complement.
abbrev pub message : ℕ → ℕ → ℕ
message address cmd = ((address * 256 + (255 - address)) * 256 + cmd) * 256 + (255 - cmd)

message-lt : (address cmd : ℕ) → address < 256 → cmd < 256 → message address cmd < power_of_two 32
message-lt address cmd ha hc = omega arith

message_cmd :
    (address cmd : ℕ) → address < 256 → cmd < 256 → decoded_cmd (u32 (message address cmd)) ≡ cmd
message_cmd address cmd ha hc = omega arith

decoded_message :
    (address cmd : ℕ)
    → address < 256
    → cmd < 256
    → decoded_cmd (u32 (value 0 (spell 32 (message address cmd)))) ≡ cmd
decoded_message address cmd ha hc =
    ap (λ n. decoded_cmd (u32 n))
      (value-spell 32 (message address cmd) (message-lt address cmd ha hc))
    ∙ message_cmd address cmd ha hc

-- On an idle receiver with an empty, well-formed command buffer: of a message whose second pulse comes
-- less than 10 ms after its first one (an address and a command of a byte each, every bit below 5 ms and
-- of 2 ms or more exactly where it is 1), `ir_remote_get_cmd` returns the command, and a second call
-- returns IR_CMD_NONE.
pub ir_remote_get_cmd-receive :
    (a b : ℕ) (ts : List ℕ) (t : ℕ) (address cmd : ℕ) {s : Ir}
    → IsIdle s
    → b < 10
    → length ts ≡ 31
    → AllShort ts
    → t < 5
    → IsValid s.ir_cmd_buffer
    → Holds s.ir_cmd_buffer []
    → address < 256
    → cmd < 256
    → bits_of (ts ++ t ∷ []) ≡ spell 32 (message address cmd)
    → (s' : Ir) × ((receive (a ∷ b ∷ ts ++ t ∷ []) s >>= ir_remote_get_cmd) ≡ some (cmd, s'))
      × (ir_remote_get_cmd s' ≡ some (no_cmd, s'))
ir_remote_get_cmd-receive a b ts t address cmd {s} i hb l short ht v hq ha hc e =
    let r = receive_lem a b ts t [] i hb l short ht v hq in
    let m : decoded_cmd (u32 (value 0 (bits_of (ts ++ t ∷ [])))) ≡ cmd =
      ap (λ bs. decoded_cmd (u32 (value 0 bs))) e ∙ decoded_message address cmd ha hc in
    let g = ir_remote_get_cmd_once cmd r.0 r.2 (
      subst (Holds r.0.ir_cmd_buffer)
        (ap (push s.ir_cmd_buffer.buffer_size []) m
          ∙ push_first s.ir_cmd_buffer.buffer_size cmd v.size_pos)
        r.3) in
    (g.0, rw r.1 g.1, g.2)
