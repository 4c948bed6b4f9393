-- ===== src/Common/AssertHandler/Stopped.antt =====
-- The pins of the motors behind a failed assertion (src/common/assert_handler.c).
use nsumo_video.Prelude.{
  ◌==◌, if◌then◌else◌, if-is_true, if-is_false, every_below, row_below, ℕ, zero, suc, ◌<◌, ◌≡◌,
  refl, sym, ap, subst, ◌∙◌, ◌≢◌, Bool, true, false, not, ◌&&◌, ◌||◌, List, [], ◌∷◌, arith,
}
use nsumo_video.Drivers.Io.{
  Select, Config, Registers, io_configure, io_get_current_config, output_config,
}
use nsumo_video.Drivers.Io.Pins.{
  io_10, io_uart_txd, io_motors_left_cc_2, io_motors_left_cc_1, io_test_led, io_motors_right_cc_2,
  io_pwm_motors_left, io_pwm_motors_right, io_motors_right_cc_1,
}
use nsumo_video.Drivers.Io.Bytes.{
  reg_set-IsPorts, reg_clear-IsPorts, reg_test-reg_set, reg_test-reg_clear,
}
use nsumo_video.Drivers.Io.Configure
use nsumo_video.Drivers.Io.Configure.{io_configure-IsValid, io_get_current_config-io_configure}
use nsumo_video.Common.AssertHandler.{
  toggle_out, gpio_output_low, all_output_low, stopped_pins, assert_stop_motors, assert_trace,
  blink, assert_blink_led, assert_handler,
}

-- The configuration that GPIO_OUTPUT_LOW gives a pin.
abbrev pub output_low : Config
output_low = output_config Select.gpio

gpio_output_low-io_configure :
    (io : ℕ) (r : Registers) → gpio_output_low io r ≡ io_configure io output_low r
unfolding gpio_output_low io_configure
gpio_output_low-io_configure io r = refl

abbrev listed : ℕ → List ℕ → Bool
listed jo [] = false
listed jo (io ∷ ios) = listed jo ios || io == jo

abbrev AllBelow : List ℕ → Type 0
AllBelow [] = Unit
AllBelow (io ∷ ios) = (io < 24) × AllBelow ios

all_output_low_lem :
    (ios : List ℕ) (jo : ℕ) (r : Registers)
    → AllBelow ios
    → jo < 24
    → Configure.IsValid r
    → io_get_current_config jo (all_output_low ios r)
      ≡ (if listed jo ios then output_low else io_get_current_config jo r)
unfolding all_output_low
all_output_low_lem [] jo r a k h = refl
all_output_low_lem (io ∷ ios) jo r a k h = ground (
  arith,
  all_output_low_lem ios jo (io_configure io output_low r) a.1 k
      (io_configure-IsValid io output_low a.0 h),
  io_get_current_config-io_configure io jo output_low r a.0 k h,
  ap (λ (x : Registers). io_get_current_config jo (all_output_low ios x))
      (gpio_output_low-io_configure io r),
)

all_output_low-IsValid :
    (ios : List ℕ) (r : Registers)
    → AllBelow ios
    → Configure.IsValid r
    → Configure.IsValid (all_output_low ios r)
unfolding all_output_low
all_output_low-IsValid [] r a h = h
all_output_low-IsValid (io ∷ ios) r a h =
    subst (λ (x : Registers). Configure.IsValid (all_output_low ios x))
      (sym (gpio_output_low-io_configure io r))
      (all_output_low-IsValid ios _ a.1 (io_configure-IsValid io output_low a.0 h))

toggle_out-IsValid :
    (io : ℕ) (r : Registers) → io < 24 → Configure.IsValid r → Configure.IsValid (toggle_out io r)
unfolding toggle_out
toggle_out-IsValid io r k h =
    ground (arith, reg_set-IsPorts io r.out k, reg_clear-IsPorts io r.out k)

toggle_out-config :
    (io jo : ℕ) (r : Registers)
    → io < 24
    → jo < 24
    → io ≢ jo
    → Configure.IsValid r
    → io_get_current_config jo (toggle_out io r) ≡ io_get_current_config jo r
unfolding toggle_out io_get_current_config
toggle_out-config io jo r k l n h = ground (
  arith,
  reg_test-reg_set io jo r.out k l h.out_ports,
  reg_test-reg_clear io jo r.out k l h.out_ports,
)

blink-config :
    (n jo : ℕ) (r : Registers)
    → jo < 24
    → io_10 ≢ jo
    → io_test_led ≢ jo
    → Configure.IsValid r
    → io_get_current_config jo (blink n r) ≡ io_get_current_config jo r
unfolding blink
blink-config zero jo r k a b h = refl
blink-config (suc n) jo r k a b h =
    let v : Configure.IsValid (toggle_out io_10 r) = toggle_out-IsValid io_10 r (omega arith) h in
    blink-config n jo _ k a b (toggle_out-IsValid io_test_led _ (omega arith) v)
    ∙ (toggle_out-config io_test_led jo _ (omega arith) k b v
        ∙ toggle_out-config io_10 jo r (omega arith) k a h)

assert_trace-IsValid : (r : Registers) → Configure.IsValid r → Configure.IsValid (assert_trace r)
unfolding assert_trace
assert_trace-IsValid r h = ground (
  arith,
  reg_set-IsPorts io_uart_txd r.sel1 (omega arith),
  reg_set-IsPorts io_uart_txd r.sel2 (omega arith),
)

assert_trace-config :
    (jo : ℕ) (r : Registers)
    → jo < 24
    → io_uart_txd ≢ jo
    → Configure.IsValid r
    → io_get_current_config jo (assert_trace r) ≡ io_get_current_config jo r
unfolding assert_trace io_get_current_config
assert_trace-config jo r k n h = ground (
  arith,
  reg_test-reg_set io_uart_txd jo r.sel1 (omega arith) k h.sel1_ports,
  reg_test-reg_set io_uart_txd jo r.sel2 (omega arith) k h.sel2_ports,
)

-- The pins that the motor driver of the Nsumo board hangs on: four for the directions, two for PWM.
unfoldable pub is_motor_pin : ℕ → Bool
is_motor_pin io =
    io == io_motors_left_cc_1
    || io == io_motors_left_cc_2
    || io == io_motors_right_cc_1
    || io == io_motors_right_cc_2
    || io == io_pwm_motors_left
    || io == io_pwm_motors_right

-- Such a pin is stopped first, and is none of those that the rest of the handler writes.
is_stopped_for_good : ℕ → Bool
unfolding stopped_pins
is_stopped_for_good io =
    listed io stopped_pins
    && not (io_uart_txd == io)
    && not (io_10 == io)
    && not (io_test_led == io)
    && not (listed io (io_10 ∷ io_test_led ∷ []))

motor_pins_table : every_below 24 (λ io. not (is_motor_pin io) || is_stopped_for_good io) ≡ true
unfolding every_below is_motor_pin is_stopped_for_good
motor_pins_table = refl

stopped-below : AllBelow stopped_pins
unfolding stopped_pins
stopped-below = ground arith

-- Whatever the pins were configured as when an assertion failed, in every round of the handler's
-- endless loop each pin of the motor driver is a GPIO output that is low, without a resistor.
pub assert_handler_lem :
    (n io : ℕ) (r : Registers)
    → io < 24
    → is_motor_pin io ≡ true
    → Configure.IsValid r
    → io_get_current_config io (assert_handler n r) ≡ output_low
unfolding assert_handler assert_stop_motors assert_blink_led is_stopped_for_good
assert_handler_lem n io r k m h =
    let s = all_output_low stopped_pins r in
    let sv : Configure.IsValid s = all_output_low-IsValid stopped_pins r stopped-below h in
    let t = assert_trace s in
    let tv : Configure.IsValid t = assert_trace-IsValid s sv in
    let leds = io_10 ∷ io_test_led ∷ [] in
    let u = all_output_low leds t in
    let uv : Configure.IsValid u = all_output_low-IsValid leds t (ground arith) tv in
    let good =
      row_below 24 (λ i. not (is_motor_pin i) || is_stopped_for_good i) io motor_pins_table k in
    blink-config n io u k (ground (arith, good, m)) (ground (arith, good, m)) uv
    ∙ (all_output_low_lem leds io t (ground arith) k tv
        ∙ (if-is_false (listed io leds) _ _ (ground (arith, good, m))
            ∙ (assert_trace-config io s k (ground (arith, good, m)) sv
                ∙ (all_output_low_lem stopped_pins io r stopped-below k h
                    ∙ if-is_true (listed io stopped_pins) _ _ (ground (arith, good, m))))))
