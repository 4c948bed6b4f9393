-- ===== src/Main/Start.antt =====
-- The calls in `main` of src/main.c before `state_machine_run`, in their order.
use nsumo_video.Prelude.{ℕ, ◌≡◌, refl, sym, subst, ◌∙◌, Bool, true, false, none, some, arith}
use nsumo_video.Drivers.I2c.Transfer.{Peripheral}
use nsumo_video.Drivers.Io.{Registers, io_init}
use nsumo_video.Drivers.Io.Configure
use nsumo_video.Drivers.Io.Interrupts.{Trigger, isr_function}
use nsumo_video.Drivers.Io.Interrupts.Configured
use nsumo_video.Drivers.Io.Interrupts.Kept.{io_enable_interrupt-io_configure_interrupt}
use nsumo_video.Drivers.Io.Pins.{io_ir_remote, io_range_sensor_front_int}
use nsumo_video.Drivers.IrRemote.Receiving.{Stores}
use nsumo_video.Drivers.McuInit.{Watchdog}
use nsumo_video.Drivers.Pwm.Enabled
use nsumo_video.Drivers.Uart.{uart_configure}
use nsumo_video.Drivers.Vl53l0x.Safe.{IsTotal}
use nsumo_video.Drivers.Vl53l0x.OnBus.{i2c_driver-IsTotal}
use nsumo_video.Drivers.Vl53l0x.{Isr, I2cDriver, Sensors, Run, returns, asserts, hangs}
use nsumo_video.Drivers.Vl53l0x.Prepared.{Alive}
use nsumo_video.Drivers.Vl53l0x.Transfers.{Link, i2c_driver}
use nsumo_video.App.Enemy.Start.{Started, enemy_init, enemy_init-io_init}
use nsumo_video.Main.{Robot, start_line, start_ir, start_enemy, boot, ◌>>=◌}
use nsumo_video.Drivers.Io.Configure.{io_init_lem}
use nsumo_video.Main.Booted.{
  Reset, Booted, BootsWell, BootsWell-then, clocked, start_mcu_lem, start_trace_lem,
  start_drive_lem, start_line_lem, start_ir_lem,
}

-- The state behind the start of the motors.
record Ready {S : Type 0} (io : Registers) (r t : Robot S) : Type 0 where
  clock : (t.mcu.bcsctl1 ≡ r.mcu.calbc1_16mhz) × (t.mcu.dcoctl ≡ r.mcu.caldco_16mhz)
  counting : (t.mcu.watchdog ≡ Watchdog.interval) × (t.mcu.wdtie ≡ true)
  interrupts_enabled : t.mcu.interrupts_enabled ≡ true
  trace_on : t.trace_initialized ≡ true
  uart_on : (t.uart.initialized ≡ true) × (t.uart.tx_interrupt ≡ true)
  pwm_valid : Enabled.IsValid t.pwm
  motors_on : (t.tb6612fng_initialized ≡ true) × (t.pwm.initialized ≡ true)
  pins : t.sensors.io ≡ io
  tables : Configured.IsValid t.sensors.interrupts
  front_free : isr_function io_range_sensor_front_int t.sensors.interrupts ≡ none
  remote_free : isr_function io_ir_remote t.sensors.interrupts ≡ none
  enemy_off : t.enemy_initialized ≡ false
  sensors_off : t.sensors.initialized ≡ false
  i2c_off : t.sensors.i2c_initialized ≡ false
  line_off : t.line_initialized ≡ false
  qre1113_off : t.qre1113_initialized ≡ false
  adc_off : t.adc.initialized ≡ false
  commands : Stores t.ir.ir_cmd_buffer

module _ {S : Type 0} (io : Registers) (r t : Robot S) (h : Ready io r t) where
  -- The calls behind the start of the sensors, which has left `s`.
  last_calls-BootsWell :
      (b : Bool) (s : Sensors S)
      → Alive s
      → s.initialized ≡ b
      → BootsWell
          (Booted r)
          (start_line (record t { enemy_initialized = b; sensors = s }) >>= λ u. start_ir u)
  unfolding BootsWell
  last_calls-BootsWell b s a k =
      let (j, e, v, fn, en) =
        io_enable_interrupt-io_configure_interrupt io_ir_remote io_ir_remote Trigger.rising
          Isr.pulse s.interrupts (omega arith) (omega arith) a.tables a.remote_free in
      BootsWell-then (Booted r) _ _ _
        (start_line_lem (record t { enemy_initialized = b; sensors = s }) h.line_off h.qre1113_off
          h.adc_off)
        (subst (BootsWell (Booted r)) (sym (start_ir_lem _ j e)) (record {
          clock = h.clock;
          counting = h.counting;
          interrupts_enabled = h.interrupts_enabled;
          trace_on = h.trace_on;
          uart_on = h.uart_on;
          motors = record { io_valid = a.valid; pwm_valid = h.pwm_valid };
          motors_on = h.motors_on;
          sensors_on = k;
          line_on = (refl, refl, refl);
          channels = (refl, refl);
          sampling = refl;
          remote_function = fn;
          remote_enabled = en;
          commands = h.commands;
          remote_timer = (refl, refl);
        }))

-- What an end of `start_enemy` comes to.
module _ {S : Type 0} (io : Registers) (r t : Robot S) (h : Ready io r t) where
  enemy_end-BootsWell :
      (x : Run (Bool × Sensors S))
      → Started x
      → BootsWell (Booted r) (
          (x >>= λ e. returns (record t { enemy_initialized = e.0; sensors = e.1 })) >>= λ u.
          start_line u >>= λ w. start_ir w)
  unfolding BootsWell Started
  enemy_end-BootsWell (returns (b, s)) k = last_calls-BootsWell io r t h b s k.0 k.1
  enemy_end-BootsWell asserts k = k
  enemy_end-BootsWell hangs k = tt

  start_enemy-BootsWell :
      (i2c : I2cDriver S) (total : IsTotal i2c) (polls : ℕ) (before : Registers)
      → Configure.IsValid before
      → io_init before ≡ some io
      → BootsWell (Booted r) (start_enemy i2c polls t >>= λ r4. start_line r4 >>= λ u. start_ir u)
  unfolding start_enemy
  start_enemy-BootsWell i2c total polls before v e =
      subst
        (λ b. BootsWell (Booted r) (
          (enemy_init i2c polls b t.sensors >>= λ e.
          returns (record t { enemy_initialized = e.0; sensors = e.1 }))
          >>= λ u. start_line u >>= λ w. start_ir w))
        (sym h.enemy_off)
        (enemy_end-BootsWell (enemy_init i2c polls false t.sensors) (
          enemy_init-io_init i2c total polls before io t.sensors v e h.pins h.i2c_off h.sensors_off
            h.tables h.front_free h.remote_free))

module _ {S : Type 0} (i2c : I2cDriver S) (total : IsTotal i2c) (polls : ℕ) where
  -- The start over any I2C driver whose transfers fail no assertion.
  pub boot-BootsWell : (r : Robot S) → Reset r → BootsWell (Booted r) (boot i2c polls r)
  unfolding boot
  boot-BootsWell r h =
      let (io, e, v, at) = io_init_lem r.sensors.io 0 h.registers h.is_nsumo (omega arith) in
      let r1 : Robot S = record r { mcu = clocked r.mcu; sensors = record r.sensors { io = io } } in
      let r2 : Robot S = record r1 {
        trace_initialized = true;
        uart = record r.uart {
          tx_flag = false;
          tx_interrupt = true;
          initialized = true;
          registers = uart_configure r.uart.registers;
        };
      } in
      BootsWell-then (Booted r) _ _ _ (start_mcu_lem r io h.calibrated e) (
        BootsWell-then (Booted r) _ _ _ (start_trace_lem r1 h.trace_off h.uart_off) (
          BootsWell-then (Booted r) _ _ _
            (start_drive_lem r2 r.sensors.io io h.registers e refl h.drive_off h.tb6612fng_off
              h.pwm_new)
            (start_enemy-BootsWell io r _
              (record {
                clock = (refl, refl);
                counting = (refl, refl);
                interrupts_enabled = refl;
                trace_on = refl;
                uart_on = (refl, refl);
                pwm_valid = record {
                  left_mode = h.pwm_valid.left_mode;
                  right_mode = h.pwm_valid.right_mode;
                  known = sym h.pwm_off ∙ h.pwm_valid.known;
                  on_demand = h.pwm_valid.on_demand;
                };
                motors_on = (refl, refl);
                pins = refl;
                tables = h.tables;
                front_free = h.front_free;
                remote_free = h.remote_free;
                enemy_off = h.enemy_off;
                sensors_off = h.sensors_off;
                i2c_off = h.i2c_off;
                line_off = h.line_off;
                qre1113_off = h.qre1113_off;
                adc_off = h.adc_off;
                commands = h.commands;
              })
              i2c total polls r.sensors.io h.registers e)))

-- For any I2C peripheral: from the power on of an Nsumo board, the calls in `main` before
-- `state_machine_run` fail no assertion: none of a first call, on the pins, on the interrupt table, on
-- the channels or on the sizes of a transfer, in none of the parts. They return, or a polling loop of
-- the range sensors runs past `polls` reads. Where they return, also after a failed start of the sensors,
-- the clock runs on the calibration for 16 MHz and the watchdog counts, the interrupts are enabled, and
-- the serial line, the trace, the motors and the line sensors are initialized, with six channels and a
-- started conversion; the motors and the ring of commands are well formed, and the infrared receiver's
-- interrupt is enabled and has its function. The sensors' driver is initialized exactly where enemy.c is.
pub boot-Booted :
    (p : Peripheral) (polls : ℕ) (r : Robot Link)
    → Reset r
    → BootsWell (Booted r) (boot (i2c_driver p) polls r)
boot-Booted p polls r h = boot-BootsWell (i2c_driver p) (i2c_driver-IsTotal p) polls r h
