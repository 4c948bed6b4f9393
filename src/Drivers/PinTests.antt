-- ===== src/Drivers/PinTests.antt =====
-- The theorems about interrupts, the samples, the serial line and the pins at boot and behind a failed
-- assertion at concrete values.
use nsumo_video.Prelude.{
  leb, ◌==◌, if◌then◌else◌, length, get_or, replicate, ℕ, zero, suc, ◌+◌, ◌<◌, ◌≡◌, refl, true,
  false, not, ◌&&◌, Option, none, some, List, [], ◌∷◌, ◌++◌, arith,
}
use nsumo_video.Drivers.Bits.{clear_bit, test_bit}
use nsumo_video.Drivers.Fixtures.{reset_adc, two_bytes, reset_registers, reset_registers-IsValid}
use nsumo_video.Drivers.Io.{io_port, io_pin_idx, reg_clear, reg_test, io_get_current_config}
use nsumo_video.Drivers.Io.Pins.{io_pwm_motors_left}
use nsumo_video.Drivers.Io.Interrupts.{
  Trigger, Interrupts, isr_function, io_configure_interrupt, io_isr, isr_port_1,
}
use nsumo_video.Drivers.Io.Interrupts.Raised.{raised, call_all, isr_port_1_lem}
use nsumo_video.Drivers.Io.Interrupts.Configured
use nsumo_video.Drivers.Io.Interrupts.Configured.{is_falling, io_configure_interrupt_lem}
use nsumo_video.Drivers.Adc.{Adc, isr_adc10, qre1113_get_voltages, line_init}
use nsumo_video.Drivers.Adc.Samples.{sequence, qre1113_get_voltages_lem}
use nsumo_video.Drivers.Uart.{Uart, uart_init, put_text, serve}
use nsumo_video.Drivers.Uart.Text.{booted, serve-put_text}
use nsumo_video.Common.AssertHandler.{assert_handler}
use nsumo_video.Common.AssertHandler.Stopped.{output_low, is_motor_pin, assert_handler_lem}

abbrev empty_row : List (Option ℕ)
empty_row = none ∷ none ∷ none ∷ none ∷ none ∷ none ∷ none ∷ none ∷ []

-- The functions 7 and 8 for the pins 1.0 and 1.2, whose flags are up, as is that of 2.1.
abbrev pending : Interrupts ℕ
pending = record {
  flag = 5 ∷ 2 ∷ [];
  enable = 5 ∷ 0 ∷ [];
  edge = 0 ∷ 0 ∷ [];
  isr_functions = (some 7 ∷ none ∷ some 8 ∷ none ∷ none ∷ none ∷ none ∷ none ∷ []) ∷ empty_row ∷ [];
}

-- An interrupt function that leaves its name.
abbrev leave : ℕ → List ℕ → List ℕ
leave f s = s ++ f ∷ []

isr_port_1_lem_example :
    ((isr_port_1 leave (pending, [])).1 ≡ call_all leave (raised 8 0 pending) [])
    × (reg_test 9 (isr_port_1 leave (pending, [])).0.flag ≡ (leb 8 9 && reg_test 9 pending.flag))
    × ((isr_port_1 leave (pending, [])).0.enable ≡ pending.enable)
    × ((isr_port_1 leave (pending, [])).0.isr_functions ≡ pending.isr_functions)
isr_port_1_lem_example =
    isr_port_1_lem leave 9 pending [] (omega arith) (two_bytes 5 2 (omega arith) (omega arith))

isr_port_1_run : (isr_port_1 leave (pending, [])).1 ≡ 7 ∷ 8 ∷ []
unfolding isr_port_1 io_isr isr_function reg_test reg_clear clear_bit test_bit io_port io_pin_idx
isr_port_1_run = refl

pending-IsValid : Configured.IsValid pending
pending-IsValid = record {
  flag_ports = two_bytes 5 2 (omega arith) (omega arith);
  enable_ports = two_bytes 5 0 (omega arith) (omega arith);
  edge_ports = two_bytes 0 0 (omega arith) (omega arith);
  functions = record { rows = refl; pins = pins };
}
  where
    pins : (p : ℕ) → p < 2 → length (get_or pending.isr_functions p []) ≡ 8
    pins zero h = refl
    pins (suc zero) h = refl
    pins (suc (suc p)) h = absurd (omega arith)

no_function : isr_function 9 pending ≡ none
unfolding isr_function io_port io_pin_idx
no_function = refl

io_configure_interrupt_lem_example :
    (j : Interrupts ℕ) × (io_configure_interrupt 9 Trigger.falling 6 pending ≡ some j)
    × (reg_test 9 j.enable ≡ (not (9 == 9) && reg_test 9 pending.enable))
    × (reg_test 9 j.flag ≡ (not (9 == 9) && reg_test 9 pending.flag))
    × (reg_test 9 j.edge ≡ (if 9 == 9 then is_falling Trigger.falling else reg_test 9 pending.edge))
    × (isr_function 9 j ≡ (if 9 == 9 then some 6 else isr_function 9 pending))
io_configure_interrupt_lem_example =
    io_configure_interrupt_lem 9 9 Trigger.falling 6 pending (omega arith) (omega arith)
      pending-IsValid no_function

abbrev eight : List ℕ
eight = replicate 8 0

abbrev idle_adc : Adc
idle_adc = record {
  adc_dtc_block = eight;
  adc_dtc_block_cache = eight;
  adc_pins = [];
  dtc_channel_cnt = 0;
  control = reset_adc;
  adc10ct = false;
  converting = false;
  adc10ae0 = 0;
  adc10dtc1 = 0;
  initialized = false;
}

qre1113_get_voltages_lem_example :
    (b : Adc) × (line_init false false idle_adc ≡ some b)
    × (qre1113_get_voltages eight (isr_adc10 (record b { adc_dtc_block = sequence (λ k. 100 + k) }))
        ≡ some (record { front_left = 103; front_right = 100; back_left = 104; back_right = 105 }))
qre1113_get_voltages_lem_example =
    qre1113_get_voltages_lem idle_adc (λ k. 100 + k) eight refl refl refl

serve-put_text_example :
    (u v w : Uart) × (left : ℕ) × (uart_init (booted true) ≡ some u)
    × (put_text 2 (72 ∷ 10 ∷ []) u ≡ some v)
    × (serve left v ≡ some w)
    × (w.sent ≡ 72 ∷ 13 ∷ 10 ∷ [])
serve-put_text_example = serve-put_text 0 true (72 ∷ 10 ∷ [])

assert_handler_lem_example :
    io_get_current_config io_pwm_motors_left (assert_handler 3 reset_registers) ≡ output_low
unfolding is_motor_pin
assert_handler_lem_example =
    assert_handler_lem 3 io_pwm_motors_left reset_registers (omega arith) refl
      reset_registers-IsValid
