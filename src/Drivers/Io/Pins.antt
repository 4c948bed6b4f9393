-- ===== src/Drivers/Io/Pins.antt =====
-- The pins of the Nsumo board (`io_generic_e` and `io_e` of src/drivers/io.h).
use Prim.Native.Nat.{ℕ}

abbrev pub io_10 : ℕ
io_10 = 0

abbrev pub io_20 : ℕ
io_20 = 8

abbrev pub io_34 : ℕ
io_34 = 20

abbrev pub io_line_detect_front_right : ℕ
io_line_detect_front_right = 0

abbrev pub io_uart_rxd : ℕ
io_uart_rxd = 1

abbrev pub io_uart_txd : ℕ
io_uart_txd = 2

abbrev pub io_line_detect_front_left : ℕ
io_line_detect_front_left = 3

abbrev pub io_line_detect_back_left : ℕ
io_line_detect_back_left = 4

abbrev pub io_line_detect_back_right : ℕ
io_line_detect_back_right = 5

abbrev pub io_i2c_scl : ℕ
io_i2c_scl = 6

abbrev pub io_i2c_sda : ℕ
io_i2c_sda = 7

abbrev pub io_ir_remote : ℕ
io_ir_remote = 8

abbrev pub io_range_sensor_front_int : ℕ
io_range_sensor_front_int = 9

abbrev pub io_xshut_front : ℕ
io_xshut_front = 10

abbrev pub io_motors_left_cc_2 : ℕ
io_motors_left_cc_2 = 12

abbrev pub io_motors_left_cc_1 : ℕ
io_motors_left_cc_1 = 13

abbrev pub io_test_led : ℕ
io_test_led = 14

abbrev pub io_motors_right_cc_2 : ℕ
io_motors_right_cc_2 = 15

abbrev pub io_xshut_front_right : ℕ
io_xshut_front_right = 16

abbrev pub io_xshut_right : ℕ
io_xshut_right = 17

abbrev pub io_xshut_front_left : ℕ
io_xshut_front_left = 18

abbrev pub io_xshut_left : ℕ
io_xshut_left = 19

abbrev pub io_pwm_motors_left : ℕ
io_pwm_motors_left = 21

abbrev pub io_pwm_motors_right : ℕ
io_pwm_motors_right = 22

abbrev pub io_motors_right_cc_1 : ℕ
io_motors_right_cc_1 = 23
