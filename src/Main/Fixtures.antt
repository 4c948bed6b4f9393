-- ===== src/Main/Fixtures.antt =====
-- Concrete states, buses and sensors for the program.
use nsumo_video.Prelude.{
  ◌==◌, ◌%◌, if◌then◌else◌, map, replicate, length, get_or, ◌++◌, ◌+◌, ℕ, zero, suc, ◌<◌, ◌≡◌, refl,
  true, false, Option, none, some, List, [], ◌∷◌, arith,
}
use nsumo_video.Common.RingBuffer
use nsumo_video.Common.RingBuffer.Valid.{init-IsValid}
use nsumo_video.Common.RingBuffer.Queue.{init-Holds}
use nsumo_video.Drivers.Bits.{set_bit, clear_bit, test_bit}
use nsumo_video.Drivers.Fixtures.{
  reset_i2c, reset_adc, reset_registers, reset_registers-IsValid, idle_pwm, idle_pwm-IsValid,
  two_bytes,
}
use nsumo_video.Drivers.I2c.{Result, wait_cleared, wait_result, i2c_wait_start_condition}
use nsumo_video.Drivers.I2c.Transfer.{
  Act, tx_byte, Bus, Peripheral, i2c_write, i2c_read, i2c_send_addr, i2c_start_rx_transfer,
}
use nsumo_video.Drivers.Io.{
  io_port, io_pin_idx, reg_set, reg_clear, reg_test, io_set_out, io_get_input,
  io_get_current_config, io_config_compare,
}
use nsumo_video.Drivers.Io.Interrupts.{isr_function, io_configure_interrupt}
use nsumo_video.Drivers.Io.Interrupts.Configured
use nsumo_video.Drivers.Pwm.{pwm_init}
use nsumo_video.Drivers.Tb6612fng.{tb6612fng_init, tb6612fng_assert_io_cfg}
use nsumo_video.Drivers.McuInit.{Watchdog}
use nsumo_video.Drivers.Uart.Text.{reset_control}
use nsumo_video.Drivers.Vl53l0x.{
  StatusMultiple, Isr, I2cDriver, Sensors, Run, returns, asserts, hangs, ◌⨟◌,
}
use nsumo_video.Drivers.Vl53l0x.Safe.{IsTotal}
use nsumo_video.Drivers.Vl53l0x.Setup.{default_tuning_regs}
use nsumo_video.Drivers.Vl53l0x.Boot.{front_interrupt_for}
use nsumo_video.Drivers.Vl53l0x.Transfers.{Link, i2c_driver, written, received}
use nsumo_video.Main.{Robot, boot}
use nsumo_video.Main.Booted.{Reset}

-- The rows of the interrupt functions, before any is registered.
abbrev no_functions : List (Option Isr)
no_functions = none ∷ none ∷ none ∷ none ∷ none ∷ none ∷ none ∷ none ∷ []

abbrev pub sensors : {S : Type 0} → S → Sensors S
sensors link = record {
  link = link;
  io = reset_registers;
  interrupts = record {
    flag = 0 ∷ 0 ∷ [];
    enable = 0 ∷ 0 ∷ [];
    edge = 0 ∷ 0 ∷ [];
    isr_functions = no_functions ∷ no_functions ∷ [];
  };
  i2c_initialized = false;
  i2c_registers = reset_i2c;
  stop_variable = 0;
  status_multiple = StatusMultiple.not_started;
  initialized = false;
  latest_ranges = [];
  caller_range = 0;
}

-- A device whose flags change from one test to the next.
abbrev pub present : Peripheral
present = record {
  signals = λ n. record { flag = λ i. i % 2 == n % 2; nack = false };
  rx_byte = λ n. n;
}

abbrev pub reset_link : Link
reset_link = record { bus = record { acts = []; waits = 0; buffer = [] }; slave_address = 0 }

abbrev pub reset : {S : Type 0} → S → Robot S
reset link = record {
  mcu = record {
    calbc1_1mhz = 0x86;
    calbc1_16mhz = 0x8F;
    caldco_16mhz = 0x98;
    bcsctl1 = 0x87;
    dcoctl = 0x60;
    aclk_vlo = false;
    watchdog = Watchdog.running;
    wdtie = false;
    interrupts_enabled = false;
  };
  uart = record {
    tx_buffer = RingBuffer.init 16 0;
    tx_interrupt = false;
    tx_flag = true;
    tx_byte = none;
    sent = [];
    initialized = false;
    registers = reset_control;
  };
  pwm = idle_pwm;
  sensors = sensors link;
  adc = record {
    adc_dtc_block = replicate 8 0;
    adc_dtc_block_cache = replicate 8 0;
    adc_pins = [];
    dtc_channel_cnt = 0;
    control = reset_adc;
    adc10ct = false;
    converting = false;
    adc10ae0 = 0;
    adc10dtc1 = 0;
    initialized = false;
  };
  ir = record {
    raw = 0;
    timer_ms = 0;
    pulse_count = 0;
    running = false;
    ir_cmd_buffer = RingBuffer.init 10 0;
  };
  ir_timer = record { ta1ccr0 = 0; ccie = false };
  trace_initialized = false;
  tb6612fng_initialized = false;
  drive_initialized = false;
  enemy_initialized = false;
  qre1113_initialized = false;
  line_initialized = false;
}

no_functions-IsValid : {S : Type 0} → (link : S) → Configured.IsValid (sensors link).interrupts
no_functions-IsValid link = record {
  flag_ports = two_bytes 0 0 (omega arith) (omega arith);
  enable_ports = two_bytes 0 0 (omega arith) (omega arith);
  edge_ports = two_bytes 0 0 (omega arith) (omega arith);
  functions = record { rows = refl; pins = pins };
}
  where
    pins : (p : ℕ) → p < 2 → length (get_or (sensors link).interrupts.isr_functions p []) ≡ 8
    pins zero h = refl
    pins (suc zero) h = refl
    pins (suc (suc p)) h = absurd (omega arith)

pub reset-Reset : {S : Type 0} → (link : S) → Reset (reset link)
unfolding isr_function io_port io_pin_idx io_get_input reg_test test_bit
reset-Reset link = record {
  calibrated = refl;
  registers = reset_registers-IsValid;
  is_nsumo = refl;
  tables = no_functions-IsValid link;
  front_free = refl;
  remote_free = refl;
  pwm_valid = idle_pwm-IsValid;
  pwm_off = refl;
  trace_off = refl;
  uart_off = refl;
  drive_off = refl;
  tb6612fng_off = refl;
  pwm_new = refl;
  enemy_off = refl;
  sensors_off = refl;
  i2c_off = refl;
  line_off = refl;
  qre1113_off = refl;
  adc_off = refl;
  commands = record {
    commands = [];
    valid = init-IsValid 10 0 (omega arith) (omega arith);
    holds = init-Holds 10 0;
  };
}

-- A bus with no device: the start condition passes, and nothing acknowledges.
abbrev pub absent : Peripheral
absent = record { signals = λ n. record { flag = λ i. false; nack = true }; rx_byte = λ n. 0 }

-- What a transfer comes to there, at an address byte.
abbrev refused : ℕ → Bus → Result × Bus
refused addr b = (
  Result.error_start,
  record b {
    acts = ((b.acts ++ Act.transmitter ∷ []) ++ Act.start ∷ []) ++ tx_byte addr ∷ [];
    waits = b.waits + 1;
  },
)

abbrev refused_write : ℕ → List ℕ → Bus → Option (Result × Bus)
refused_write addr [] b = none
refused_write addr (d ∷ ds) b = some (refused addr b)

abbrev refusing : I2cDriver Link
refusing = record {
  write = λ addr bytes l. written l.slave_address (refused_write addr bytes l.bus);
  read = λ addr buffer l.
      received l.slave_address (refused_write addr buffer (record l.bus { buffer = buffer }));
  i2c_set_slave_address = λ addr l. record l { slave_address = addr };
}

cleared_at_once : (retries : ℕ) → wait_cleared (λ i. false) (suc retries) 0 ≡ suc retries
unfolding wait_cleared
cleared_at_once retries = refl

wait_absent : (n : ℕ) → i2c_wait_start_condition (absent.signals n) ≡ Result.error_start
unfolding i2c_wait_start_condition wait_result
wait_absent n = rw (cleared_at_once 65534) refl

i2c_write-absent :
    (addr : ℕ) (bytes : List ℕ) (b : Bus)
    → i2c_write absent (addr ∷ []) bytes b ≡ refused_write addr bytes b
unfolding i2c_write i2c_send_addr
i2c_write-absent addr [] b = refl
i2c_write-absent addr (d ∷ ds) b = rw (wait_absent b.waits) refl

i2c_read-absent :
    (addr : ℕ) (bytes : List ℕ) (b : Bus)
    → i2c_read absent (addr ∷ []) (length bytes) b ≡ refused_write addr bytes b
unfolding i2c_read i2c_start_rx_transfer i2c_send_addr
i2c_read-absent addr [] b = refl
i2c_read-absent addr (d ∷ ds) b = rw (wait_absent b.waits) refl

pub i2c_driver-absent : i2c_driver absent ≡ refusing
i2c_driver-absent = λ j. record {
  write = λ addr bytes l. written l.slave_address (i2c_write-absent addr bytes l.bus j);
  read = λ addr buffer l.
      received l.slave_address (i2c_read-absent addr buffer (record l.bus { buffer = buffer }) j);
  i2c_set_slave_address = λ addr l. record l { slave_address = addr };
}

-- The state that a start comes to.
abbrev pub state_of : Run (Robot Link) → Robot Link
state_of (returns t) = t
state_of asserts = reset reset_link
state_of hangs = reset reset_link

abbrev pub absent_boot : Run (Robot Link)
absent_boot = boot refusing 3 (reset reset_link)

pub boot_absent : absent_boot ≡ returns (state_of absent_boot)
unfolding boot ◌⨟◌ test_bit default_tuning_regs front_interrupt_for io_config_compare
    io_get_current_config reg_test io_port io_pin_idx io_set_out reg_set set_bit
    io_configure_interrupt io_get_input tb6612fng_init tb6612fng_assert_io_cfg reg_clear clear_bit
    pwm_init
boot_absent = refl

pub boot_failed : (state_of absent_boot).enemy_initialized ≡ false
unfolding boot ◌⨟◌ test_bit default_tuning_regs front_interrupt_for io_config_compare
    io_get_current_config reg_test io_port io_pin_idx io_set_out reg_set set_bit
    io_configure_interrupt io_get_input tb6612fng_init tb6612fng_assert_io_cfg reg_clear clear_bit
    pwm_init
boot_failed = refl

-- Five sensors: the model id, one SPAD of the type that is no aperture, and a ready measurement.
abbrev sensor_register : ℕ → List ℕ → List ℕ
sensor_register addr b = if addr == 0x90 then 0 ∷ 1 ∷ 0 ∷ 0 ∷ [] else map (λ x. 0xEE) b

abbrev pub sensors_driver : I2cDriver ℕ
sensors_driver = record {
  write = λ addr bytes l. some (Result.ok, l);
  read = λ addr buffer l. some (Result.ok, sensor_register addr buffer, l);
  i2c_set_slave_address = λ addr l. addr;
}

pub sensors_driver-IsTotal : IsTotal sensors_driver
sensors_driver-IsTotal = record {
  write_total = λ addr b bs l. refl;
  read_total = λ addr b bs l. refl;
}
