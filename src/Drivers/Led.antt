-- ===== src/Drivers/Led.antt =====
-- src/drivers/led.c: the LED on the board.
use nsumo_video.Prelude.{◌>>◌, assert, Bool, true, not, Option, some}
use nsumo_video.Drivers.Io.{
  Select, Out, Registers, io_set_out, io_get_current_config, io_config_compare, output_config,
}
use nsumo_video.Drivers.Io.Pins.{io_test_led}

-- `led_state_e`
pub data LedState : Type 0 where
  off on : LedState

-- `led_init`, for the flag `initialized`, which it sets.
unfoldable pub led_init : Bool → Registers → Option Bool
led_init initialized r = do
  assert (not initialized)
  assert (io_config_compare (output_config Select.gpio) (io_get_current_config io_test_led r))
  some true

abbrev led_out : LedState → Out
led_out LedState.on = Out.high
led_out LedState.off = Out.low

-- `led_set(LED_TEST, state)`
unfoldable pub led_set : Bool → LedState → Registers → Option Registers
led_set initialized state r = do assert initialized; some (io_set_out io_test_led (led_out state) r)
