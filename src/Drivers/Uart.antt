-- ===== src/Drivers/Uart.antt =====
-- src/drivers/uart.c: the transmission of bytes through a ring buffer, an interrupt and the transmit
-- register of the peripheral. A failed assertion is `none`.
pub mod Stream
pub mod Text
pub mod Polling
use nsumo_video.Prelude.{
  ◌==◌, if◌then◌else◌, ◌>>=◌, ◌>>◌, assert, ℕ, zero, suc, ◌+◌, ◌*◌, ◌/◌, ◌%◌, Bool, true, false,
  not, ◌&&◌, Option, none, some, List, [], ◌∷◌, ◌++◌,
}
use nsumo_video.Common.RingBuffer
use nsumo_video.Drivers.Usci.{Control, select_smclk}
use nsumo_video.Common.RingBuffer.{RingBuffer}

abbrev pub uart_buffer_size : ℕ
uart_buffer_size = 16

-- UCA0CTL0, UCA0CTL1, UCA0BR0, UCA0BR1 and UCA0MCTL.
pub record Registers : Type 0 where
  pub ctl0 : ℕ
  pub ctl1 : Control
  pub br0 : ℕ
  pub br1 : ℕ
  pub mctl : ℕ

-- BRCLK and UART_BAUD_RATE
abbrev pub brclk : ℕ
brclk = 16 * 1000000

abbrev pub uart_baud_rate : ℕ
uart_baud_rate = 115200

-- UART_DIVISOR_INT_16BIT. The source computes the divisor of these two values with float, as 138.88889;
-- the fraction here is exact, with the same whole part and the same eighths.
unfoldable pub divisor_int : ℕ
divisor_int = brclk / uart_baud_rate % 65536

-- UART_UCBRS: 8 times the fractional part of the divisor, rounded down to a uint8_t.
unfoldable pub ucbrs : ℕ
ucbrs = 8 * (brclk % uart_baud_rate) / uart_baud_rate % 256

-- The writes of the prescaler and of the modulation, with UART_UCBRF and UART_UC0S16, which are 0.
unfoldable pub set_divisor : Registers → Registers
unfolding divisor_int ucbrs
set_divisor r = record r {
  br0 = divisor_int % 256;
  br1 = divisor_int / 256;
  mctl = 0 * 16 + ucbrs * 2 + 0;
}

-- `UCA0CTL1 &= UCSWRST` keeps that bit and clears the others.
unfoldable pub uart_configure : Registers → Registers
unfolding set_divisor select_smclk
uart_configure r =
    let kept : Control = record { ucswrst = r.ctl1.ucswrst; ucssel = 0; others = 0 } in
    let divided = set_divisor (record r { ctl0 = 0; ctl1 = select_smclk kept }) in
    record divided { ctl1 = record divided.ctl1 { ucswrst = false } }

-- The buffer, UCA0TXIE, UCA0TXIFG, the byte in UCA0TXBUF that is on its way out, the bytes that have left
-- the peripheral, and the registers of the configuration.
pub record Uart : Type 0 where
  pub tx_buffer : RingBuffer ℕ
  pub tx_interrupt : Bool
  pub tx_flag : Bool
  pub tx_byte : Option ℕ
  pub sent : List ℕ
  pub initialized : Bool
  pub registers : Registers

-- `UCA0TXBUF = c`. The peripheral takes the flag down with it.
abbrev pub write_tx_buf : ℕ → Uart → Uart
write_tx_buf c u = record u { tx_byte = some c; tx_flag = false }

unfoldable pub uart_tx_start : Uart → Option Uart
uart_tx_start u =
    if RingBuffer.is_empty u.tx_buffer
    then some u
    else RingBuffer.peek_tail u.tx_buffer >>= λ c. some (write_tx_buf c u)

-- `isr_uart_tx`. The next byte is started behind the clearing of the flag.
unfoldable pub isr_uart_tx : Uart → Option Uart
unfolding uart_tx_start
isr_uart_tx u = do
  assert (not (RingBuffer.is_empty u.tx_buffer))
  rb ← RingBuffer.drop_tail u.tx_buffer
  let v = record u { tx_buffer = rb; tx_flag = false }
  if RingBuffer.is_empty v.tx_buffer then some v else uart_tx_start v

unfoldable pub uart_init : Uart → Option Uart
unfolding uart_configure
uart_init u = do
  assert (not u.initialized)
  some (record u {
    tx_flag = false;
    tx_interrupt = true;
    initialized = true;
    registers = uart_configure u.registers;
  })

-- What the peripheral does when the byte on its way is out: the transmit register is empty.
abbrev pub byte_out : Option ℕ → Uart → Uart
byte_out none u = u
byte_out (some c) u = record u { tx_byte = none; tx_flag = true; sent = u.sent ++ c ∷ [] }

unfoldable pub transmitted : Uart → Uart
transmitted u = byte_out u.tx_byte u

-- The interrupt, where it is enabled and requested.
unfoldable pub interrupt : Uart → Option Uart
unfolding isr_uart_tx
interrupt u = if u.tx_interrupt && u.tx_flag then isr_uart_tx u else some u

-- The part of `_putchar` behind its wait.
unfoldable pub enqueue : ℕ → Uart → Option Uart
unfolding uart_tx_start
enqueue c u = do
  rb ← RingBuffer.put u.tx_buffer c
  let v = record u { tx_interrupt = false; tx_buffer = rb }
  w ← if RingBuffer.is_empty u.tx_buffer then uart_tx_start v else some v
  some (record w { tx_interrupt = true })

-- `while (ring_buffer_full(&tx_buffer)) { }`, and the rest. Between two tests the peripheral sends the
-- byte on its way, and interrupts. `none` is also a loop that has not ended after `fuel` tests.
unfoldable pub put_when_room : (fuel : ℕ) → ℕ → Uart → Option Uart
unfolding enqueue interrupt transmitted
put_when_room zero c u = none
put_when_room (suc fuel) c u =
    let rest = interrupt (transmitted u) >>= put_when_room fuel c in
    if RingBuffer.is_full u.tx_buffer then rest else enqueue c u

unfoldable pub putchar : (fuel : ℕ) → ℕ → Uart → Option Uart
unfolding put_when_room
putchar fuel c u =
    if c == 10 then (put_when_room fuel 13 u >>= put_when_room fuel c) else put_when_room fuel c u

-- A text, by its characters, as printf hands it over.
unfoldable pub put_text : (fuel : ℕ) → List ℕ → Uart → Option Uart
unfolding putchar
put_text fuel [] u = some u
put_text fuel (c ∷ cs) u = putchar fuel c u >>= put_text fuel cs

-- The peripheral sends `n` bytes, with the interrupts.
unfoldable pub serve : (n : ℕ) → Uart → Option Uart
unfolding interrupt transmitted
serve zero u = some u
serve (suc n) u = interrupt (transmitted u) >>= serve n
