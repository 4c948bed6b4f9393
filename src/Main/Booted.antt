-- ===== src/Main/Booted.antt =====
-- What the calls in `main` before `state_machine_run` leave, from the power on.
use nsumo_video.Prelude.{◌==◌, ◌≡◌, sym, subst, true, false, not, ◌&&◌, none, some}
use nsumo_video.Common.Trace.{trace_init}
use nsumo_video.Drivers.Adc.{sequence_control, io_adc_pins, line_init}
use nsumo_video.Drivers.Adc.Samples.{adc_init_lem}
use nsumo_video.Drivers.Io.{Registers, io_init, reg_test, io_get_input}
use nsumo_video.Drivers.Io.Configure
use nsumo_video.Drivers.Io.Interrupts.{
  Trigger, Interrupts, io_enable_interrupt, io_configure_interrupt, isr_function,
}
use nsumo_video.Drivers.Io.Interrupts.Configured
use nsumo_video.Drivers.Io.Pins.{io_34, io_ir_remote, io_range_sensor_front_int}
use nsumo_video.Drivers.IrRemote.Receiving.{Stores}
use nsumo_video.Drivers.IrRemote.Start.{timer_interrupt_ticks, ir_timer_init, ir_remote_init}
use nsumo_video.Drivers.McuInit.{Mcu, Watchdog, init_clocks, watchdog_setup, mcu_init}
use nsumo_video.Drivers.Pwm.{pwm_ta0ccr0}
use nsumo_video.Drivers.Pwm.Enabled
use nsumo_video.Drivers.Tb6612fng.Boot.{tb6612fng_init-io_init}
use nsumo_video.Drivers.Tb6612fng.Outputs.{IsDriver}
use nsumo_video.Drivers.Uart.{uart_configure, uart_init}
use nsumo_video.App.Drive.{drive_init}
use nsumo_video.Drivers.Vl53l0x.{Isr, Run, returns, asserts, hangs}
use nsumo_video.Main.{
  Robot, motors_of, start_mcu, start_trace, start_drive, start_line, start_ir, ◌>>=◌,
}

-- The state at power on, as far as the start depends on it: the processor has its calibration values,
-- the registers and the interrupt table are well formed, pin 3.4 is high, no part is initialized, and neither of the two
-- pins that get an interrupt function has one; the ring of commands is well formed.
pub record Reset {S : Type 0} (r : Robot S) : Type 0 where
  pub calibrated : (not (r.mcu.calbc1_1mhz == 0xFF) && not (r.mcu.calbc1_16mhz == 0xFF)) ≡ true
  pub registers : Configure.IsValid r.sensors.io
  pub is_nsumo : io_get_input io_34 r.sensors.io ≡ true
  pub tables : Configured.IsValid r.sensors.interrupts
  pub front_free : isr_function io_range_sensor_front_int r.sensors.interrupts ≡ none
  pub remote_free : isr_function io_ir_remote r.sensors.interrupts ≡ none
  pub pwm_valid : Enabled.IsValid r.pwm
  pub pwm_off : r.pwm.running ≡ false
  pub trace_off : r.trace_initialized ≡ false
  pub uart_off : r.uart.initialized ≡ false
  pub drive_off : r.drive_initialized ≡ false
  pub tb6612fng_off : r.tb6612fng_initialized ≡ false
  pub pwm_new : r.pwm.initialized ≡ false
  pub enemy_off : r.enemy_initialized ≡ false
  pub sensors_off : r.sensors.initialized ≡ false
  pub i2c_off : r.sensors.i2c_initialized ≡ false
  pub line_off : r.line_initialized ≡ false
  pub qre1113_off : r.qre1113_initialized ≡ false
  pub adc_off : r.adc.initialized ≡ false
  pub commands : Stores r.ir.ir_cmd_buffer

-- The state behind the start: the clock runs at 16 MHz, with the watchdog as a counter; every part but
-- drive.c, which never says so, and the sensors, which may have failed, is marked as initialized; the
-- motors and the ring of commands are well formed, a conversion of the line sensors is started, and the infrared
-- receiver's interrupt is enabled and has its function.
pub record Booted {S : Type 0} (r t : Robot S) : Type 0 where
  pub clock : (t.mcu.bcsctl1 ≡ r.mcu.calbc1_16mhz) × (t.mcu.dcoctl ≡ r.mcu.caldco_16mhz)
  pub counting : (t.mcu.watchdog ≡ Watchdog.interval) × (t.mcu.wdtie ≡ true)
  pub interrupts_enabled : t.mcu.interrupts_enabled ≡ true
  pub trace_on : t.trace_initialized ≡ true
  pub uart_on : (t.uart.initialized ≡ true) × (t.uart.tx_interrupt ≡ true)
  pub motors : IsDriver (motors_of t)
  pub motors_on : (t.tb6612fng_initialized ≡ true) × (t.pwm.initialized ≡ true)
  pub sensors_on : t.sensors.initialized ≡ t.enemy_initialized
  pub line_on :
      (t.line_initialized ≡ true) × (t.qre1113_initialized ≡ true) × (t.adc.initialized ≡ true)
  pub channels : (t.adc.dtc_channel_cnt ≡ 6) × (t.adc.adc_pins ≡ io_adc_pins)
  pub sampling : t.adc.converting ≡ true
  pub remote_function : isr_function io_ir_remote t.sensors.interrupts ≡ some Isr.pulse
  pub remote_enabled : reg_test io_ir_remote t.sensors.interrupts.enable ≡ true
  pub commands : Stores t.ir.ir_cmd_buffer
  pub remote_timer : (t.ir_timer.ta1ccr0 ≡ timer_interrupt_ticks) × (t.ir_timer.ccie ≡ true)

-- No assertion failed, and a call that returns leaves what `Q` says.
unfoldable pub BootsWell : {S : Type 0} → (Robot S → Type 0) → Run (Robot S) → Type 0
BootsWell Q (returns t) = Q t
BootsWell Q asserts = ⊥
BootsWell Q hangs = Unit

pub BootsWell-then :
    {S : Type 0} (Q : Robot S → Type 0) (x : Run (Robot S)) (t : Robot S)
    (f : Robot S → Run (Robot S))
    → x ≡ returns t
    → BootsWell Q (f t)
    → BootsWell Q (x >>= f)
BootsWell-then Q x t f e h = subst (λ y. BootsWell Q (y >>= f)) (sym e) h

abbrev pub clocked : Mcu → Mcu
clocked m = record m {
  bcsctl1 = m.calbc1_16mhz;
  dcoctl = m.caldco_16mhz;
  aclk_vlo = true;
  watchdog = Watchdog.interval;
  wdtie = true;
  interrupts_enabled = true;
}

module _ {S : Type 0} (r : Robot S) where
  pub start_mcu_lem :
      (io : Registers)
      → (not (r.mcu.calbc1_1mhz == 0xFF) && not (r.mcu.calbc1_16mhz == 0xFF)) ≡ true
      → io_init r.sensors.io ≡ some io
      → start_mcu r
        ≡ returns (record r { mcu = clocked r.mcu; sensors = record r.sensors { io = io } })
  unfolding start_mcu mcu_init init_clocks watchdog_setup
  start_mcu_lem io h e = simp (h, e)

  pub start_trace_lem :
      r.trace_initialized ≡ false
      → r.uart.initialized ≡ false
      → start_trace r
        ≡ returns (record r {
          trace_initialized = true;
          uart = record r.uart {
            tx_flag = false;
            tx_interrupt = true;
            initialized = true;
            registers = uart_configure r.uart.registers;
          };
        })
  unfolding start_trace trace_init uart_init
  start_trace_lem h k = simp (h, k)

  pub start_drive_lem :
      (io io' : Registers)
      → Configure.IsValid io
      → io_init io ≡ some io'
      → r.sensors.io ≡ io'
      → r.drive_initialized ≡ false
      → r.tb6612fng_initialized ≡ false
      → r.pwm.initialized ≡ false
      → start_drive r
        ≡ returns (record r {
          pwm = record r.pwm {
            running = false;
            tassel = 2;
            divider = 3;
            ta0ccr0 = pwm_ta0ccr0;
            initialized = true;
          };
          tb6612fng_initialized = true;
        })
  unfolding start_drive drive_init
  start_drive_lem io io' v e q h k l =
      simp (h, tb6612fng_init-io_init io io' (motors_of r) v e q k l)

  pub start_line_lem :
      r.line_initialized ≡ false
      → r.qre1113_initialized ≡ false
      → r.adc.initialized ≡ false
      → start_line r
        ≡ returns (record r {
          adc = record r.adc {
            adc_pins = io_adc_pins;
            adc10ae0 = 57;
            control = sequence_control 5;
            adc10ct = true;
            converting = true;
            dtc_channel_cnt = 6;
            adc10dtc1 = 6;
            initialized = true;
          };
          qre1113_initialized = true;
          line_initialized = true;
        })
  unfolding start_line line_init
  start_line_lem h k l = simp (h, k, adc_init_lem r.adc l)

  pub start_ir_lem :
      (j : Interrupts Isr)
      → io_configure_interrupt io_ir_remote Trigger.rising Isr.pulse r.sensors.interrupts ≡ some j
      → start_ir r
        ≡ returns (record r {
          sensors = record r.sensors { interrupts = io_enable_interrupt io_ir_remote j };
          ir = record r.ir { running = false };
          ir_timer = record { ta1ccr0 = timer_interrupt_ticks; ccie = true };
        })
  unfolding start_ir ir_remote_init ir_timer_init
  start_ir_lem j e = simp e
