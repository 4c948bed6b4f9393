-- ===== src/Drivers/IrRemote/Receiving.antt =====
-- The receiver of src/drivers/ir_remote.c over any pulses: no assertion of the ring of commands fails.
use nsumo_video.Prelude.{
  length, if-is_true, if◌then◌else◌, not, ◌==◌, Bool-cases, ◌>>=◌, ℕ, zero, suc, ◌≡◌, refl, sym, ap,
  subst, ◌∙◌, inl, inr, Option, some, List, [], ◌∷◌, arith,
}
use nsumo_video.Common.RingBuffer.{RingBuffer}
use nsumo_video.Common.RingBuffer.Valid.{IsValid, is_empty_lem}
use nsumo_video.Common.RingBuffer.Queue.{Holds, put_lem, get_lem, push}
use nsumo_video.Drivers.IrRemote.{
  Ir, decoded_cmd, ir_timer_start, ir_timer_stop, count_pulse, is_message_pulse, push_message,
  isr_pulse, isr_timer_a0, quiet, receive, no_cmd, ir_remote_get_cmd,
}

-- The ring of commands is well formed, and holds some commands.
pub record Stores (rb : RingBuffer ℕ) : Type 0 where
  pub commands : List ℕ
  pub valid : IsValid rb
  pub holds : Holds rb commands

-- Between two messages the ring stays.
ir_cmd_buffer-isr_timer_a0 : (s : Ir) → (isr_timer_a0 s).ir_cmd_buffer ≡ s.ir_cmd_buffer
unfolding isr_timer_a0 ir_timer_stop
ir_cmd_buffer-isr_timer_a0 s = ground arith

ir_cmd_buffer-quiet : (ms : ℕ) (s : Ir) → (quiet ms s).ir_cmd_buffer ≡ s.ir_cmd_buffer
unfolding quiet
ir_cmd_buffer-quiet zero s = refl
ir_cmd_buffer-quiet (suc ms) s = elim (Bool-cases s.running) [
  | inl h ↦
      ap (λ b. (quiet ms (if b then isr_timer_a0 s else s)).ir_cmd_buffer) h
      ∙ ir_cmd_buffer-quiet ms (isr_timer_a0 s)
      ∙ ir_cmd_buffer-isr_timer_a0 s
  | inr h ↦
      ap (λ b. (quiet ms (if b then isr_timer_a0 s else s)).ir_cmd_buffer) h
      ∙ ir_cmd_buffer-quiet ms s
]

ir_cmd_buffer-count_pulse :
    (s : Ir) → (count_pulse (ir_timer_stop s)).ir_cmd_buffer ≡ s.ir_cmd_buffer
unfolding count_pulse ir_timer_stop
ir_cmd_buffer-count_pulse s = ground arith

-- A call that fails no assertion and leaves such a ring.
abbrev pub Receives : Option Ir → Type 0
Receives o = (t : Ir) × (o ≡ some t) × Stores t.ir_cmd_buffer

push_message-Receives : (s : Ir) → Stores s.ir_cmd_buffer → Receives (push_message s)
unfolding push_message
push_message-Receives s h = elim (Bool-cases (is_message_pulse s.pulse_count)) [
  | inl e ↦
      let (b, p, v, q, n) = put_lem h.commands (decoded_cmd s.raw) h.valid h.holds in
      (
        record s { ir_cmd_buffer = b },
        rw e (rw p refl),
        record {
          commands = push s.ir_cmd_buffer.buffer_size h.commands (decoded_cmd s.raw);
          valid = v;
          holds = q;
        },
      )
  | inr e ↦ (s, rw e refl, h)
]

isr_pulse-Receives : (s : Ir) → Stores s.ir_cmd_buffer → Receives (isr_pulse s)
unfolding isr_pulse ir_timer_start
isr_pulse-Receives s h =
    let (t, e, k) =
      push_message-Receives (count_pulse (ir_timer_stop s))
        (subst Stores (sym (ir_cmd_buffer-count_pulse s)) h) in
    (ir_timer_start t, ap (λ o. o >>= λ u. some (ir_timer_start u)) e, k)

-- On a well-formed ring of commands, whatever it holds and whatever the receiver has counted: any pulses,
-- after any times, fail no assertion and leave a well-formed ring.
pub receive-Receives : (ts : List ℕ) (s : Ir) → Stores s.ir_cmd_buffer → Receives (receive ts s)
unfolding receive
receive-Receives [] s h = (s, refl, h)
receive-Receives (ms ∷ ts) s h =
    let (t, e, k) =
      isr_pulse-Receives (quiet ms s) (subst Stores (sym (ir_cmd_buffer-quiet ms s)) h) in
    let (u, f, l) = receive-Receives ts t k in (u, ap (λ o. o >>= λ v. receive ts v) e ∙ f, l)

-- A command is read without a failed assertion.
pub ir_remote_get_cmd-Stores :
    (s : Ir)
    → Stores s.ir_cmd_buffer
    → (c : ℕ) × (t : Ir) × (ir_remote_get_cmd s ≡ some (c, t)) × Stores t.ir_cmd_buffer
unfolding ir_remote_get_cmd
ir_remote_get_cmd-Stores s h = by_commands h.commands h.holds
  where
    by_commands :
        (q : List ℕ)
        → Holds s.ir_cmd_buffer q
        → (c : ℕ) × (t : Ir) × (ir_remote_get_cmd s ≡ some (c, t)) × Stores t.ir_cmd_buffer
    by_commands [] k = (no_cmd, s, rw (is_empty_lem h.valid) (rw (sym k.len) refl), h)
    by_commands (x ∷ q) k =
        let (b, e, v, l) = get_lem x q h.valid k in
        (
          x,
          record s { ir_cmd_buffer = b },
          rw (is_empty_lem h.valid)
              (rw (sym k.len) (rw e (if-is_true (not (length (x ∷ q) == 0)) _ _ (ground arith)))),
          record { commands = q; valid = v; holds = l },
        )
