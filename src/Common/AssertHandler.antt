-- ===== src/Common/AssertHandler.antt =====
-- src/common/assert_handler.c: what the handler of a failed assertion does to the pins. The breakpoint is
-- left out; the text is sent by the functions in Drivers.Uart.Polling.
pub mod Stopped
use nsumo_video.Prelude.{if◌then◌else◌, ℕ, zero, suc, List, [], ◌∷◌}
use nsumo_video.Drivers.Io.{reg_set, reg_clear, reg_test, Registers}
use nsumo_video.Drivers.Io.Pins.{io_10, io_uart_txd, io_test_led}

-- `P<port>OUT ^= BIT<bit>`
unfoldable pub toggle_out : ℕ → Registers → Registers
toggle_out io r = record r {
  out = if reg_test io r.out then reg_clear io r.out else reg_set io r.out;
}

-- The macro GPIO_OUTPUT_LOW(port, bit), for the pin 8 * (port - 1) + bit.
unfoldable pub gpio_output_low : ℕ → Registers → Registers
gpio_output_low io r = record r {
  sel1 = reg_clear io r.sel1;
  sel2 = reg_clear io r.sel2;
  dir = reg_set io r.dir;
  ren = reg_clear io r.ren;
  out = reg_clear io r.out;
}

-- A sequence of these macros.
unfoldable pub all_output_low : List ℕ → Registers → Registers
unfolding gpio_output_low
all_output_low [] r = r
all_output_low (io ∷ ios) r = all_output_low ios (gpio_output_low io r)

-- The pins of `assert_stop_motors`: 2.6, 2.1, 2.2, 2.4, 2.5, 2.7, 3.7, 3.5 and 3.6.
unfoldable pub stopped_pins : List ℕ
stopped_pins = 14 ∷ 9 ∷ 10 ∷ 12 ∷ 13 ∷ 15 ∷ 23 ∷ 21 ∷ 22 ∷ []

unfoldable pub assert_stop_motors : Registers → Registers
unfolding all_output_low stopped_pins
assert_stop_motors r = all_output_low stopped_pins r

-- The two writes to the registers of a pin in `assert_trace`.
unfoldable pub assert_trace : Registers → Registers
assert_trace r = record r { sel1 = reg_set io_uart_txd r.sel1; sel2 = reg_set io_uart_txd r.sel2 }

-- `n` rounds of the endless loop of `assert_blink_led`.
unfoldable pub blink : ℕ → Registers → Registers
unfolding toggle_out
blink zero r = r
blink (suc n) r = blink n (toggle_out io_test_led (toggle_out io_10 r))

unfoldable pub assert_blink_led : ℕ → Registers → Registers
unfolding all_output_low blink
assert_blink_led n r = blink n (all_output_low (io_10 ∷ io_test_led ∷ []) r)

-- The handler, after `n` rounds of its endless loop.
unfoldable pub assert_handler : ℕ → Registers → Registers
unfolding assert_stop_motors assert_trace assert_blink_led
assert_handler n r = assert_blink_led n (assert_trace (assert_stop_motors r))
