-- ===== src/Drivers/Uart/Polling.antt =====
-- The output of src/drivers/uart.c for failed assertions, which waits for each byte and does without the
-- buffer and the interrupt.
use nsumo_video.Prelude.{
  arith, ◌==◌, if◌then◌else◌, Bool-cases, ◌>>=◌, ℕ, zero, suc, ◌≡◌, refl, sym, ap, ◌∙◌, inl, inr,
  true, false, Option, none, some, List, [], ◌∷◌, ◌++◌,
}
use mathlib.Core.List.{append_assoc, append-nil}
use nsumo_video.Drivers.Uart.{Uart, write_tx_buf, transmitted, interrupt, uart_configure}
use nsumo_video.Drivers.Uart.Text.{spelled, all_spelled}

unfoldable pub uart_init_assert : Uart → Uart
unfolding uart_configure
uart_init_assert u = record u { tx_interrupt = false; registers = uart_configure u.registers }

-- `while (!(IFG2 & UCA0TXIFG)) { }`. Between two tests the peripheral sends the byte on its way. `none` is
-- a loop that has not ended after `fuel` tests.
unfoldable pub poll_flag : (fuel : ℕ) → Uart → Option Uart
unfolding transmitted
poll_flag zero u = none
poll_flag (suc fuel) u =
    let rest = poll_flag fuel (transmitted u) in if u.tx_flag then some u else rest

-- The part of `uart_putchar_polling` behind its test for a line feed.
unfoldable pub send_polling : (fuel : ℕ) → ℕ → Uart → Option Uart
unfolding poll_flag
send_polling fuel c u = poll_flag fuel (write_tx_buf c u)

unfoldable pub uart_putchar_polling : (fuel : ℕ) → ℕ → Uart → Option Uart
unfolding send_polling
uart_putchar_polling fuel c u =
    if c == 10 then (send_polling fuel 13 u >>= send_polling fuel c) else send_polling fuel c u

-- The argument is the memory from the string on; `none` is also a read past its end.
unfoldable pub uart_trace_assert : (fuel : ℕ) → List ℕ → Uart → Option Uart
unfolding uart_putchar_polling
uart_trace_assert fuel [] u = none
uart_trace_assert fuel (c ∷ cs) u =
    let rest = uart_putchar_polling fuel c u >>= uart_trace_assert fuel cs in
    if c == 0 then some u else rest

-- What a text leaves of the state before it: the bytes in `cs` have left behind all earlier ones, the
-- interrupt is disabled, and the buffer is as it was.
pub record Polled (cs : List ℕ) (u v : Uart) : Type 0 where
  pub sent_on : v.sent ≡ u.sent ++ cs
  pub disabled : v.tx_interrupt ≡ false
  pub buffer : v.tx_buffer ≡ u.tx_buffer

Polled-nothing : (u : Uart) → u.tx_interrupt ≡ false → Polled [] u u
Polled-nothing u h = record { sent_on = sym (append-nil u.sent); disabled = h; buffer = refl }

Polled-then :
    (cs ds : List ℕ) (u v w : Uart) → Polled cs u v → Polled ds v w → Polled (cs ++ ds) u w
Polled-then cs ds u v w h k = record {
  sent_on = k.sent_on ∙ (ap (λ l. l ++ ds) h.sent_on ∙ append_assoc u.sent cs ds);
  disabled = k.disabled;
  buffer = k.buffer ∙ h.buffer;
}

-- A call that returns, and leaves such a state.
abbrev PollsTo : List ℕ → Uart → Option Uart → Type 0
PollsTo cs u o = (v : Uart) × (o ≡ some v) × Polled cs u v

PollsTo-then :
    (cs ds : List ℕ) (u : Uart) (o : Option Uart) (f : Uart → Option Uart)
    → PollsTo cs u o
    → ((v : Uart) → v.tx_interrupt ≡ false → PollsTo ds v (f v))
    → PollsTo (cs ++ ds) u (o >>= f)
PollsTo-then cs ds u o f (v, e, h) k =
    let (w, p, g) = k v h.disabled in (w, ap (λ x. x >>= f) e ∙ p, Polled-then cs ds u v w h g)

-- The second test finds the flag.
send_polling-PollsTo :
    (n c : ℕ) (u : Uart)
    → u.tx_interrupt ≡ false
    → PollsTo (c ∷ []) u (send_polling (suc (suc n)) c u)
unfolding send_polling poll_flag transmitted
send_polling-PollsTo n c u h = (
  record u { tx_byte = none; tx_flag = true; sent = u.sent ++ c ∷ [] },
  refl,
  record { sent_on = refl; disabled = h; buffer = refl },
)

uart_putchar_polling-PollsTo :
    (n c : ℕ) (u : Uart)
    → u.tx_interrupt ≡ false
    → PollsTo (spelled c) u (uart_putchar_polling (suc (suc n)) c u)
unfolding uart_putchar_polling
uart_putchar_polling-PollsTo n c u h = elim (Bool-cases (c == 10)) [
  | inl e ↦ rw e (
      PollsTo-then (13 ∷ []) (c ∷ []) u _ (send_polling (suc (suc n)) c)
        (send_polling-PollsTo n 13 u h) (send_polling-PollsTo n c))
  | inr e ↦ rw e (send_polling-PollsTo n c u h)
]

-- No character of the text ends the string.
abbrev pub IsText : List ℕ → Type 0
IsText [] = Unit {0}
IsText (c ∷ cs) = ((c == 0) ≡ false) × IsText cs

uart_trace_assert-PollsTo :
    (n : ℕ) (cs past : List ℕ) (u : Uart)
    → IsText cs
    → u.tx_interrupt ≡ false
    → PollsTo (all_spelled cs) u (uart_trace_assert (suc (suc n)) (cs ++ 0 ∷ past) u)
unfolding uart_trace_assert
uart_trace_assert-PollsTo n [] past u t h = (u, refl, Polled-nothing u h)
uart_trace_assert-PollsTo n (c ∷ cs) past u t h = rw t.0 (
    PollsTo-then (spelled c) (all_spelled cs) u _ _ (uart_putchar_polling-PollsTo n c u h)
      (λ v. uart_trace_assert-PollsTo n cs past v t.1))

-- For every string, from a transmitter with no byte on its way (the first write could overwrite one), whatever its buffer, its flags and its
-- configuration are, and with at least two tests for each wait: behind `uart_init_assert`,
-- `uart_trace_assert` returns. The bytes that have left behind the earlier ones are exactly the string up to
-- its end, with a carriage return in front of every line feed; what the buffer held is still there, and the
-- interrupt does nothing any more.
pub uart_trace_assert-uart_init_assert :
    (n : ℕ) (cs past : List ℕ) (u : Uart)
    → u.tx_byte ≡ none
    → IsText cs
    → (v : Uart) × (uart_trace_assert (suc (suc n)) (cs ++ 0 ∷ past) (uart_init_assert u) ≡ some v)
      × (v.sent ≡ u.sent ++ all_spelled cs)
      × (v.tx_buffer ≡ u.tx_buffer)
      × (interrupt v ≡ some v)
unfolding uart_init_assert interrupt
uart_trace_assert-uart_init_assert n cs past u b t =
    let (v, e, h) = uart_trace_assert-PollsTo n cs past (uart_init_assert u) t refl in
    (v, e, h.sent_on, h.buffer, ground (arith, h.disabled))
