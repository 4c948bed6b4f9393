-- ===== src/Drivers/UartTests.antt =====
-- The serial line at concrete values.
use nsumo_video.Prelude.{◌≡◌, refl, true, some, [], ◌∷◌, ◌++◌}
use nsumo_video.Drivers.Uart.{Uart, set_divisor, interrupt}
use nsumo_video.Drivers.Uart.Text.{reset_control, booted, all_spelled}
use nsumo_video.Drivers.Uart.Polling.{
  uart_init_assert, uart_trace_assert, uart_trace_assert-uart_init_assert,
}

-- "A\n", its end, and a byte behind it.
uart_trace_assert-uart_init_assert_example :
    (v : Uart) × (uart_trace_assert 2
        ((65 ∷ 10 ∷ []) ++ 0 ∷ 77 ∷ [])
        (uart_init_assert (booted true))
      ≡ some v)
    × (v.sent ≡ [] ++ all_spelled (65 ∷ 10 ∷ []))
    × (v.tx_buffer ≡ (booted true).tx_buffer)
    × (interrupt v ≡ some v)
uart_trace_assert-uart_init_assert_example =
    uart_trace_assert-uart_init_assert 0 (65 ∷ 10 ∷ []) (77 ∷ []) (booted true) refl
      (refl, (refl, tt))

-- 16 MHz to 115200 baud: 138 clocks and seven eighths.
divisor_run : let s = set_divisor reset_control in (s.br0 ≡ 138) × (s.br1 ≡ 0) × (s.mctl ≡ 14)
unfolding set_divisor
divisor_run = (refl, refl, refl)
