-- ===== src/App/Enemy/Start.antt =====
-- `enemy_init` of src/app/enemy.c, down to src/drivers/vl53l0x.c, i2c.c and io.c. The trace of a
-- failure is left out.
use nsumo_video.Prelude.{ℕ, ◌≡◌, Bool, true, false, some, none}
use nsumo_video.Drivers.Io.{Registers, io_init}
use nsumo_video.Drivers.Io.Configure
use nsumo_video.Drivers.Io.Pins.{io_range_sensor_front_int, io_ir_remote}
use nsumo_video.Drivers.Io.Interrupts.{isr_function}
use nsumo_video.Drivers.Vl53l0x.{
  RangeResult, value_5, I2cDriver, Sensors, Run, returns, asserts, hangs,
}
use nsumo_video.Drivers.Vl53l0x.Boot.{vl53l0x_init}
use nsumo_video.Drivers.Vl53l0x.Safe.{EndsWell, IsTotal}
use nsumo_video.Drivers.Io.Interrupts.Configured
use nsumo_video.Drivers.Vl53l0x.Prepared.{Alive, Waiting, Done}
use nsumo_video.Drivers.Vl53l0x.Started.{vl53l0x_init-EndsWell}

-- `if (result) { ...; return; } initialized = true;`, for what `vl53l0x_init` comes to. The Bool is
-- `initialized` of enemy.c.
unfoldable pub init_end : {S : Type 0} → Run (RangeResult × Sensors S) → Run (Bool × Sensors S)
init_end (returns (RangeResult.ok, s)) = returns (true, s)
init_end (returns (e, s)) = returns (false, s)
init_end asserts = asserts
init_end hangs = hangs

module _ {S : Type 0} (i2c : I2cDriver S) (polls : ℕ) where
  unfoldable pub enemy_init : Bool → Sensors S → Run (Bool × Sensors S)
  unfolding vl53l0x_init init_end
  enemy_init true s = asserts
  enemy_init false s = init_end (vl53l0x_init i2c polls s)

-- No assertion failed. Where the call returns, the registers and the interrupt table are well formed and
-- the infrared receiver has no function; and enemy.c is marked as initialized exactly where the sensors'
-- driver is.
unfoldable pub Started : {S : Type 0} → Run (Bool × Sensors S) → Type 0
Started (returns (b, s)) = Alive s × (s.initialized ≡ b)
Started asserts = ⊥
Started hangs = Unit

init_end-Started :
    {S : Type 0} (r : Run (RangeResult × Sensors S))
    → EndsWell Waiting Done r
    → Started (init_end r)
unfolding init_end Started
init_end-Started (returns (RangeResult.ok, s)) h = h
init_end-Started (returns (RangeResult.error_i2c, s)) h = (h.alive, h.not_yet)
init_end-Started (returns (RangeResult.error_boot, s)) h = (h.alive, h.not_yet)
init_end-Started (returns (RangeResult.error_spad, s)) h = (h.alive, h.not_yet)
init_end-Started (returns (RangeResult.error_measure_ongoing, s)) h = (h.alive, h.not_yet)
init_end-Started (returns (value_5, s)) h = (h.alive, h.not_yet)
init_end-Started asserts h = h
init_end-Started hangs h = tt

-- For any I2C driver whose transfers fail no assertion: on the registers that a successful `io_init`
-- leaves, with none of `enemy_init`, `vl53l0x_init` and `i2c_init` called before, a well-formed interrupt
-- table and no function registered for the interrupt pin of the front sensor or for the infrared
-- receiver, `enemy_init` fails no assertion: none on the pins, on the interrupt table or on a first call,
-- of the five sensors' start. It returns, or a polling loop runs past `polls` reads. Where it returns, the
-- registers and the table are well formed and the infrared receiver has no function; and it marks itself
-- as initialized exactly where the sensors' driver is.
pub enemy_init-io_init :
    {S : Type 0} (i2c : I2cDriver S) (total : IsTotal i2c) (polls : ℕ) (r r' : Registers)
    (s : Sensors S)
    → Configure.IsValid r
    → io_init r ≡ some r'
    → s.io ≡ r'
    → s.i2c_initialized ≡ false
    → s.initialized ≡ false
    → Configured.IsValid s.interrupts
    → isr_function io_range_sensor_front_int s.interrupts ≡ none
    → isr_function io_ir_remote s.interrupts ≡ none
    → Started (enemy_init i2c polls false s)
unfolding enemy_init
enemy_init-io_init i2c total polls r r' s h e q n m w f g =
    init_end-Started (vl53l0x_init i2c polls s)
      (vl53l0x_init-EndsWell i2c total polls r r' s h e q n m w f g)
