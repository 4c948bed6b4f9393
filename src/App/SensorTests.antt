-- ===== src/App/SensorTests.antt =====
-- The theorems about the range sensors at concrete values.
use nsumo_video.Prelude.{
  ltb, length, ℕ, suc, ◌%◌, ◌≤◌, ◌<◌, ◌≡◌, refl, true, false, ◌&&◌, none, some, List, [], ◌∷◌,
  arith,
}
use nsumo_video.Drivers.Bits.{set_bit, test_bit}
use nsumo_video.Drivers.I2c.{Result}
use nsumo_video.Drivers.Fixtures.{reset_i2c, reset_registers}
use nsumo_video.Drivers.Io.Interrupts.{Interrupts}
use nsumo_video.Drivers.Vl53l0x.{
  RangeResult, StatusMultiple, Isr, I2cDriver, Sensors, returns, transferred, ◌⨟◌, write_bytes,
  write8, i2c_slave, vl53l0x_write_8regs,
}
use nsumo_video.Drivers.Vl53l0x.Spads.{visit_spad, select_spads}
use nsumo_video.Drivers.Vl53l0x.Spads.Eligible.{spad_bit, eligible, eligible_below}
use nsumo_video.Drivers.Vl53l0x.Spads.Selected.{select_spads_lem, select_spads_none}
use nsumo_video.Drivers.Vl53l0x.Polling.{Loop, loop_of, awaited, Answers, stops, loop_of-awaited}
use nsumo_video.Drivers.Vl53l0x.Ranging.{
  set_status, vl53l0x_start_sysrange, start_sensors, vl53l0x_start_measuring_multiple,
}
use nsumo_video.App.Enemy.{no_enemy}
use nsumo_video.App.Enemy.Ranges.{enemy_get_ranges, initial_ranges, enemy_get-failed_start}

abbrev all_good : List ℕ
all_good = 255 ∷ 255 ∷ 255 ∷ 255 ∷ 255 ∷ 255 ∷ []

all_good_count : eligible_below all_good 12 43 ≡ 31
unfolding eligible_below eligible test_bit
all_good_count = refl

select_spads_lem_example :
    (spad_map : List ℕ) × (select_spads all_good 12 5 ≡ some spad_map)
    × (length spad_map ≡ 6)
    × (spad_bit spad_map 14 ≡ (eligible all_good 12 14 && ltb (eligible_below all_good 12 14) 5))
select_spads_lem_example =
    select_spads_lem all_good 12 5 14 (omega (arith, all_good_count)) (omega arith)

select_spads_run : select_spads all_good 12 5 ≡ some (0 ∷ 240 ∷ 1 ∷ 0 ∷ 0 ∷ 0 ∷ [])
unfolding select_spads visit_spad test_bit set_bit
select_spads_run = refl

-- The only good SPAD is the last one of the 44.
abbrev last_good : List ℕ
last_good = 0 ∷ 0 ∷ 0 ∷ 0 ∷ 0 ∷ 8 ∷ []

last_good_count : eligible_below last_good 0 43 ≡ 0
unfolding eligible_below eligible test_bit
last_good_count = refl

select_spads_none_example : select_spads last_good 0 1 ≡ none
select_spads_none_example = select_spads_none last_good 0 1 (omega (arith, last_good_count))

-- A device whose registers count the reads, on a bus without errors.
abbrev counting : I2cDriver ℕ
counting = record {
  write = λ addr bytes l. some (Result.ok, l);
  read = λ addr buffer l. some (Result.ok, l % 256 ∷ [], suc l);
  i2c_set_slave_address = λ addr l. l;
}

-- A bus where every transfer fails.
abbrev failing : I2cDriver ℕ
failing = record {
  write = λ addr bytes l. some (Result.error_tx, l);
  read = λ addr buffer l. some (Result.error_tx, buffer, l);
  i2c_set_slave_address = λ addr l. l;
}

abbrev no_interrupts : Interrupts Isr
no_interrupts = record {
  flag = 0 ∷ 0 ∷ [];
  enable = 0 ∷ 0 ∷ [];
  edge = 0 ∷ 0 ∷ [];
  isr_functions = [];
}

abbrev sensors : Sensors ℕ
sensors = record {
  link = 0;
  io = reset_registers;
  interrupts = no_interrupts;
  i2c_initialized = true;
  i2c_registers = reset_i2c;
  stop_variable = 0;
  status_multiple = StatusMultiple.not_started;
  initialized = true;
  latest_ranges = initial_ranges;
  caller_range = 0;
}

abbrev counted : Answers counting 0x13 sensors.link
counted = record {
  state = λ k. k;
  result = λ k. Result.ok;
  value = λ k. k % 256;
  first = refl;
  reads = λ k. refl;
  bytes = λ k. omega arith;
}

loop_of-awaited_example :
    (k : ℕ) × (k ≤ 1)
    × (stops (counted.result k) (awaited Loop.measured (counted.value k)) ≡ true)
    × ((j : ℕ) → j < k → stops (counted.result j) (awaited Loop.measured (counted.value j)) ≡ false)
    × (loop_of counting 5 Loop.measured sensors
        ≡ returns (transferred (counted.result k), record sensors { link = counted.state (suc k) }))
loop_of-awaited_example =
    loop_of-awaited counting Loop.measured 5 1 sensors counted (omega arith) refl

abbrev stuck : Sensors ℕ
stuck = record sensors { status_multiple = StatusMultiple.measuring }

start_fails :
    vl53l0x_start_measuring_multiple failing 3 sensors ≡ returns (RangeResult.error_i2c, stuck)
unfolding vl53l0x_start_measuring_multiple start_sensors set_status vl53l0x_start_sysrange i2c_slave
    vl53l0x_write_8regs write8 write_bytes ◌⨟◌
start_fails = refl

enemy_get-failed_start_example :
    (enemy_get_ranges failing 3 true [] sensors ≡ returns (no_enemy, stuck))
    × (enemy_get_ranges failing 3 true [] stuck ≡ returns (no_enemy, stuck))
enemy_get-failed_start_example =
    enemy_get-failed_start failing 3 true sensors stuck RangeResult.error_i2c [] [] refl refl refl
      refl start_fails
