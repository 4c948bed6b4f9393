-- ===== src/Drivers/IrRemote/Frame.antt =====
-- The times of a whole message through src/drivers/ir_remote.c: the pulses in front, then the bits.
use nsumo_video.Prelude.{
  length, ◌>>=◌, Option-cases, ℕ, suc, ◌+◌, ◌*◌, ◌^◌, ◌≤◌, ◌<◌, ◌≡◌, refl, ap, ◌∙◌, inl, inr, true,
  false, some, List, [], ◌∷◌, ◌++◌, arith,
}
use nsumo_video.Drivers.IrRemote.{
  u32, Ir, bit_of, ir_timer_start, ir_timer_stop, count_pulse, push_message, isr_pulse, quiet,
  receive,
}
use nsumo_video.Drivers.IrRemote.Timing.{quiet_running, quiet_stopped, after_bit, isr_pulse_bit}

-- The number that bits spell behind `acc`, most significant first.
abbrev pub value : ℕ → List ℕ → ℕ
value acc [] = acc
value acc (b ∷ bs) = value (acc * 2 + b) bs

-- Times below 5 ms each.
abbrev pub AllShort : List ℕ → Type 0
AllShort [] = Unit {0}
AllShort (t ∷ ts) = (t < 5) × AllShort ts

abbrev pub bits_of : List ℕ → List ℕ
bits_of [] = []
bits_of (t ∷ ts) = bit_of t ∷ bits_of ts

value-mod : (a b : ℕ) (bs : List ℕ) → u32 a ≡ u32 b → u32 (value a bs) ≡ u32 (value b bs)
value-mod a b [] h = h
value-mod a b (x ∷ bs) h = value-mod (a * 2 + x) (b * 2 + x) bs (omega arith)

-- What the bits of a message leave, before the last one.
abbrev pub after_bits : List ℕ → Ir → Ir
after_bits ts s = record s {
  raw = u32 (value s.raw (bits_of ts));
  pulse_count = s.pulse_count + length ts;
  timer_ms = 0;
  running = true;
}

pub quiet_at :
    (t : ℕ) (s : Ir)
    → s.running ≡ true
    → s.timer_ms ≡ 0
    → t ≤ 150
    → quiet t s ≡ record s { timer_ms = t }
quiet_at t s r z h =
    let e : s.timer_ms + t ≡ t = omega arith in
    quiet_running t s r (omega arith) ∙ (λ i. record s { timer_ms = e i })

receive_step :
    (t : ℕ) (ts : List ℕ) (s : Ir)
    → s.running ≡ true
    → s.timer_ms ≡ 0
    → 2 ≤ s.pulse_count
    → s.pulse_count < 33
    → t < 5
    → receive (t ∷ ts) s ≡ receive ts (after_bit t s)
unfolding receive
receive_step t ts s r z h k l =
    rw (quiet_at t s r z (omega arith)) (rw (isr_pulse_bit (record s { timer_ms = t }) h k l) refl)

pub receive_bits :
    (ts : List ℕ) (s : Ir)
    → s.running ≡ true
    → s.timer_ms ≡ 0
    → s.raw < 2 ^ 32
    → 2 ≤ s.pulse_count
    → s.pulse_count + length ts ≤ 33
    → AllShort ts
    → receive ts s ≡ some (after_bits ts s)
unfolding receive
receive_bits [] s r z w h k l =
    let e : s.raw ≡ u32 s.raw = omega arith in
    let p : s.pulse_count ≡ s.pulse_count + 0 = omega arith in
    λ i. some (record s { raw = e i; pulse_count = p i; timer_ms = z i; running = r i })
receive_bits (t ∷ ts) s r z w h k l =
    let e : u32 (value (u32 (u32 (s.raw * 2) + bit_of t)) (bits_of ts))
        ≡ u32 (value (s.raw * 2 + bit_of t) (bits_of ts)) =
      value-mod (u32 (u32 (s.raw * 2) + bit_of t)) (s.raw * 2 + bit_of t) (bits_of ts)
        (omega arith) in
    let p : s.pulse_count + 1 + length ts ≡ s.pulse_count + suc (length ts) = omega arith in
    receive_step t ts s r z h (omega arith) l.0
    ∙ receive_bits ts (after_bit t s) refl refl (omega arith) (omega arith) (omega arith) l.1
    ∙ (λ i. some (record (after_bits ts s) { raw = e i; pulse_count = p i }))

pub receive-append :
    (ts us : List ℕ) (s : Ir) → receive (ts ++ us) s ≡ (receive ts s >>= λ t. receive us t)
unfolding receive
receive-append [] us s = refl
receive-append (t ∷ ts) us s = elim (Option-cases (isr_pulse (quiet t s))) [
  | inl e ↦ rw e refl
  | inr (n, e) ↦ rw e (receive-append ts us n)
]

-- Nothing was received for longer than the timeout.
pub record IsIdle (s : Ir) : Type 0 where
  pub no_pulse : s.pulse_count ≡ 0
  pub no_bits : s.raw ≡ 0
  pub no_time : s.timer_ms ≡ 0
  pub stopped : s.running ≡ false

-- The two pulses in front of the bits.
abbrev pub after_lead : Ir → Ir
after_lead s = record s { raw = 0; pulse_count = 2; timer_ms = 0; running = true }

lead_first :
    (s : Ir)
    → IsIdle s
    → isr_pulse s ≡ some (record s { raw = 0; pulse_count = 1; timer_ms = 0; running = true })
unfolding isr_pulse count_pulse push_message ir_timer_start ir_timer_stop
lead_first s h = ground arith

lead_second :
    (s : Ir)
    → s.pulse_count ≡ 1
    → s.timer_ms < 10
    → isr_pulse s ≡ some (record s { pulse_count = 2; timer_ms = 0; running = true })
unfolding isr_pulse count_pulse push_message ir_timer_start ir_timer_stop
lead_second s h k = ground arith

pub receive_lead :
    (a b : ℕ) (ts : List ℕ) (s : Ir)
    → IsIdle s
    → b < 10
    → receive (a ∷ b ∷ ts) s ≡ receive ts (after_lead s)
unfolding receive
receive_lead a b ts s h k =
    let n = record s { raw = 0; pulse_count = 1; timer_ms = 0; running = true } in
    rw (quiet_stopped a s h.stopped) (
      rw (lead_first s h) (
        rw (quiet_at b n refl refl (omega arith))
          (rw (lead_second (record n { timer_ms = b }) refl k) refl)))

pub value-append : (acc b : ℕ) (bs : List ℕ) → value acc (bs ++ b ∷ []) ≡ value acc bs * 2 + b
value-append acc b [] = refl
value-append acc b (x ∷ bs) = value-append (acc * 2 + x) b bs

pub bits_of-append : (ts : List ℕ) (t : ℕ) → bits_of (ts ++ t ∷ []) ≡ bits_of ts ++ bit_of t ∷ []
bits_of-append [] t = refl
bits_of-append (x ∷ ts) t = ap (λ bs. bit_of x ∷ bs) (bits_of-append ts t)
