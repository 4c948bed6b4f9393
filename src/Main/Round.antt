-- ===== src/Main/Round.antt =====
-- A round of the loop of `state_machine_run` with what it reads: `process_input` of
-- src/app/state_machine.c down to the range sensors, the line sensors and the infrared receiver, and
-- the interrupts since the round before.
pub mod Running
pub mod Stops
pub mod Kept
use nsumo_video.Prelude.{if◌then◌else◌, ℕ, Bool, false, Option, none, some, List, [], ◌∷◌}
use nsumo_video.Drivers.Adc.{Adc, isr_adc10, qre1113_get_voltages}
use nsumo_video.Drivers.IrRemote.{Ir, receive, ir_remote_get_cmd}
use nsumo_video.Drivers.Vl53l0x.{RangeResult, I2cDriver, Sensors, Run, returns, asserts, hangs}
use nsumo_video.Drivers.Vl53l0x.Ranging.{front_measurement_done_isr}
use nsumo_video.Drivers.Vl53l0x.Multiple
use nsumo_video.Drivers.Vl53l0x.Multiple.{vl53l0x_read_range_multiple}
use nsumo_video.App.Enemy.Ranges.{range_reading}
use nsumo_video.App.Machine.{Machine}
use nsumo_video.App.StateMachine.{Reading, step, state_machine_init}
use nsumo_video.Main.{Robot, motors_of, boot, ended, ◌>>=◌}

-- What happens around a round: the times of the receiver's pulses, the samples that the transfer
-- controller has written if the converter has interrupted, whether the front sensor has interrupted
-- before the round and whether it does while the round waits for it, what the stack holds where
-- `ranges` and `values` are, and what `millis` returns at its two calls.
pub record Surroundings : Type 0 where
  pub pulses : List ℕ
  pub samples : Option (List ℕ)
  pub front_done : Bool
  pub interrupted : Bool
  pub ranges_garbage : List ℕ
  pub values_garbage : List ℕ
  pub now_check : ℕ
  pub now_start : ℕ

abbrev pub converted : Option (List ℕ) → Adc → Adc
unfolding isr_adc10
converted none a = a
converted (some block) a = isr_adc10 (record a { adc_dtc_block = block; converting = false })

abbrev pub front_interrupt : {S : Type 0} → Bool → Sensors S → Sensors S
unfolding front_measurement_done_isr
front_interrupt happened s = if happened then front_measurement_done_isr s else s

-- The caller's variables of `vl53l0x_read_range_multiple` in `enemy_get`.
abbrev pub before_reading : Surroundings → Multiple.Reading
before_reading e = record {
  result = RangeResult.ok;
  ranges = e.ranges_garbage;
  fresh_values = false;
}

module _ {S : Type 0} where
  -- The interrupts since the round before.
  unfoldable pub interrupts : Surroundings → Robot S → Run (Robot S)
  unfolding receive converted front_interrupt
  interrupts e r = do
    s ← ended (receive e.pulses r.ir)
    returns (record r {
      ir = s;
      adc = converted e.samples r.adc;
      sensors = front_interrupt e.front_done r.sensors;
    })

  -- `line_get()` and `ir_remote_get_cmd()`, behind the measurement.
  unfoldable pub read_rest :
      Surroundings → Robot S → Multiple.Reading × Sensors S → Run (Reading × Robot S)
  unfolding qre1113_get_voltages ir_remote_get_cmd range_reading
  read_rest e r (a, s) = do
    v ← ended (qre1113_get_voltages e.values_garbage r.adc)
    c ← ended (ir_remote_get_cmd r.ir)
    returns (
      record {
        ranges = range_reading a;
        voltages = v;
        cmd = c.0;
        now_check = e.now_check;
        now_start = e.now_start;
      },
      record r { sensors = s; ir = c.1 },
    )

-- The rest of a round, behind the reads.
unfoldable pub process : {S : Type 0} → Machine → Reading × Robot S → Run (Robot S × Machine)
unfolding step
process m (reading, r) = do m' ← ended (step reading m); returns (r, m')

module _ {S : Type 0} (i2c : I2cDriver S) (polls : ℕ) where
  -- The three calls at the start of `process_input`.
  unfoldable pub read_inputs : Surroundings → Robot S → Run (Reading × Robot S)
  unfolding vl53l0x_read_range_multiple read_rest
  read_inputs e r = do
    a ← vl53l0x_read_range_multiple i2c polls e.interrupted (before_reading e) r.sensors
    read_rest e r a

  unfoldable pub round : Surroundings → Robot S × Machine → Run (Robot S × Machine)
  unfolding interrupts read_inputs process
  round e (r, m) = do r1 ← interrupts e r; p ← read_inputs e r1; process m p

  unfoldable pub rounds : List Surroundings → Robot S × Machine → Run (Robot S × Machine)
  unfolding round
  rounds [] w = returns w
  rounds (e ∷ es) w = round e w >>= λ v. rounds es v

  -- The program: `main` with its first rounds.
  unfoldable pub program : List Surroundings → Robot S → Run (Robot S × Machine)
  unfolding boot rounds state_machine_init
  program es r = do t ← boot i2c polls r; rounds es (t, state_machine_init (motors_of t))
