-- ===== src/Drivers/McuInit.antt =====
-- src/drivers/mcu_init.c: the watchdog, the clocks, the pins, and the interrupts of the processor.
use nsumo_video.Prelude.{◌==◌, ◌>>=◌, ◌>>◌, assert, ℕ, Bool, true, not, ◌&&◌, Option, some}
use nsumo_video.Drivers.Io.{Registers, io_init}

-- What WDTCTL was written with last: nothing yet, WDTHOLD, or WDT_MDLY_0_5_16MHZ.
pub data Watchdog : Type 0 where
  running held interval : Watchdog

-- The calibration values in the processor's information memory, the clock registers BCSCTL1 and DCOCTL,
-- LFXT1S_2 in BCSCTL3, the watchdog with WDTIE in IE1, and the general interrupt enable.
pub record Mcu : Type 0 where
  pub calbc1_1mhz : ℕ
  pub calbc1_16mhz : ℕ
  pub caldco_16mhz : ℕ
  pub bcsctl1 : ℕ
  pub dcoctl : ℕ
  pub aclk_vlo : Bool
  pub watchdog : Watchdog
  pub wdtie : Bool
  pub interrupts_enabled : Bool

unfoldable pub init_clocks : Mcu → Option Mcu
init_clocks m = do
  assert (not (m.calbc1_1mhz == 0xFF) && not (m.calbc1_16mhz == 0xFF))
  some (record m { bcsctl1 = m.calbc1_16mhz; dcoctl = m.caldco_16mhz; aclk_vlo = true })

abbrev stop_watchdog : Mcu → Mcu
stop_watchdog m = record m { watchdog = Watchdog.held }

unfoldable pub watchdog_setup : Mcu → Mcu
watchdog_setup m = record (stop_watchdog m) { watchdog = Watchdog.interval; wdtie = true }

-- `_enable_interrupts()`
abbrev enable_interrupts : Mcu → Mcu
enable_interrupts m = record m { interrupts_enabled = true }

unfoldable pub mcu_init : Mcu → Registers → Option (Mcu × Registers)
unfolding init_clocks watchdog_setup io_init
mcu_init m r = do
  m' ← init_clocks (watchdog_setup m)
  r' ← io_init r
  some (enable_interrupts m', r')
