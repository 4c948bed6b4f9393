-- ===== src/Drivers/Vl53l0x/Spads.antt =====
-- The SPAD configuration of src/drivers/vl53l0x.c: what the sensor's memory says, the choice of the
-- SPADs to enable, and its transfer.
pub mod Eligible
pub mod Selected
use nsumo_video.Prelude.{
  ltb, leb, ◌==◌, if◌then◌else◌, get_or, set, replicate, ◌>>=◌, ◌>>◌, assert, ℕ, zero, suc, ◌+◌,
  ◌*◌, ◌/◌, ◌%◌, not, Option, none, some, List, [], ◌∷◌,
}
use nsumo_video.Drivers.Bits.{set_bit, clear_bit, test_bit}
use nsumo_video.Drivers.I2c.{Result}
use nsumo_video.Drivers.Vl53l0x.{
  RangeResult, value_5, I2cDriver, Sensors, Run, returns, asserts, Proc, then_run, ◌⨟◌, return,
  write_bytes, write8, read_bytes, read8, vl53l0x_write_8regs, poll,
  reg_global_config_spad_enables_ref_0,
}

abbrev pub spad_max_count : ℕ
spad_max_count = 44

abbrev pub spad_map_row_count : ℕ
spad_map_row_count = 6

abbrev pub spad_row_size : ℕ
spad_row_size = 8

abbrev pub spad_aperture_start_index : ℕ
spad_aperture_start_index = 12

-- `spad_map` and `spads_enabled_count`.
pub record Selection : Type 0 where
  pub spad_map : List ℕ
  pub enabled_count : ℕ

-- `spad_map[row] |= (1 << column); spads_enabled_count++`
abbrev pub enable_spad : ℕ → ℕ → Selection → Selection
enable_spad row column m = record {
  spad_map = set m.spad_map row (set_bit (get_or m.spad_map row 0) column);
  enabled_count = m.enabled_count + 1;
}

-- One round of the inner loop behind its two tests: `(good_spad_map[row] >> column) & 0x1`, for an
-- index from `offset` on.
unfoldable pub visit_spad : List ℕ → ℕ → ℕ → ℕ → Selection → Selection
visit_spad good offset row column m =
    if ltb (row * spad_row_size + column) offset
    then m
    else if test_bit (get_or good row 0) column
    then enable_spad row column m
    else m

-- The inner loop over `n` columns from `column`: `none` is the return of VL53L0X_RESULT_ERROR_SPAD.
unfoldable pub select_columns : (n : ℕ) → List ℕ → ℕ → ℕ → ℕ → ℕ → Selection → Option Selection
unfolding visit_spad
select_columns zero good offset count row column m = some m
select_columns (suc n) good offset count row column m =
    let rest =
      select_columns n good offset count row (column + 1) (visit_spad good offset row column m) in
    if leb spad_max_count (row * spad_row_size + column)
    then none
    else if m.enabled_count == count
    then some m
    else rest

-- The outer loop over `n` rows from `row`.
unfoldable pub select_rows : (n : ℕ) → List ℕ → ℕ → ℕ → ℕ → Selection → Option Selection
unfolding select_columns
select_rows zero good offset count row m = some m
select_rows (suc n) good offset count row m = do
  m1 ← select_columns spad_row_size good offset count row 0 m
  let rest = select_rows n good offset count (row + 1) m1
  if m1.enabled_count == count then some m1 else rest

-- The loops of `vl53l0x_set_spads_from_nvm` and the test behind them.
unfoldable pub select_spads : List ℕ → ℕ → ℕ → Option (List ℕ)
unfolding select_rows
select_spads good offset count = do
  m ←
      select_rows spad_map_row_count good offset count 0
        (record { spad_map = replicate spad_map_row_count 0; enabled_count = 0 })
  assert (m.enabled_count == count)
  some m.spad_map

-- `i2c_read_addr8_data32` stores the bytes in the order of a little-endian number.
abbrev pub number_of : List ℕ → ℕ
number_of [] = 0
number_of (b ∷ bs) = b + 256 * number_of bs

abbrev pub zero_map : List ℕ
zero_map = 0 ∷ 0 ∷ 0 ∷ 0 ∷ 0 ∷ 0 ∷ []

-- The value of an `i2c_result_e` as a `vl53l0x_result_e`.
unfoldable pub range_result_of : Result → RangeResult
range_result_of Result.ok = RangeResult.ok
range_result_of Result.error_start = RangeResult.error_i2c
range_result_of Result.error_tx = RangeResult.error_boot
range_result_of Result.error_rx = RangeResult.error_spad
range_result_of Result.error_stop = RangeResult.error_measure_ongoing
range_result_of Result.error_timeout = value_5

-- The choice of the SPADs, and the rest of the function.
abbrev pub select_then : {S : Type 0} → Option (List ℕ) → (List ℕ → Proc S) → Proc S
select_then none k = return RangeResult.error_spad
select_then (some spads) k = k spads

module _ {S : Type 0} (i2c : I2cDriver S) (polls : ℕ) where
  -- The loop of `vl53l0x_read_strobe`.
  abbrev pub wait_strobe : Proc S
  wait_strobe = poll i2c polls 0x83 (λ strobe. not (strobe == 0))

  unfoldable pub vl53l0x_read_strobe : Proc S
  unfolding write8
  vl53l0x_read_strobe = write8 i2c 0x83 0x00 ⨟ wait_strobe ⨟ write8 i2c 0x83 0x01

  unfoldable pub spad_map_end :
      (List ℕ → Proc S) → Sensors S → Option (Result × List ℕ × S) → Run (RangeResult × Sensors S)
  unfolding range_result_of
  spad_map_end k s none = asserts
  spad_map_end k s (some (e, b, l)) =
      then_run (returns (range_result_of e, record s { link = l })) (k b)

  -- The last statement of `vl53l0x_get_spad_info_from_nvm`: `result = i2c_read(...)`, which is returned
  -- without a conversion between the two enumerations.
  unfoldable pub read_good_spad_map : (List ℕ → Proc S) → Proc S
  unfolding spad_map_end
  read_good_spad_map k s =
      spad_map_end k s (i2c.read reg_global_config_spad_enables_ref_0 zero_map s.link)

  -- `vl53l0x_get_spad_info_from_nvm` from its last use of `tmp_data8`, `w`, on, with the bytes of
  -- `tmp_data32`. `k` is the rest of the caller, which uses the count, the type and the map of good SPADs.
  unfoldable pub nvm_finish : (ℕ → ℕ → List ℕ → Proc S) → List ℕ → ℕ → Proc S
  unfolding write8 vl53l0x_write_8regs read_good_spad_map
  nvm_finish k info w =
      write8 i2c 0x83 (clear_bit w 2)
      ⨟ vl53l0x_write_8regs i2c ((0xFF, 0x01) ∷ (0x00, 0x01) ∷ (0xFF, 0x00) ∷ (0x80, 0x00) ∷ [])
      ⨟ read_good_spad_map (k (number_of info / 0x100 % 0x80) (number_of info / 0x8000 % 2))

  -- From the restore on.
  unfoldable pub nvm_restore : (ℕ → ℕ → List ℕ → Proc S) → ℕ → List ℕ → Proc S
  unfolding vl53l0x_write_8regs read8 nvm_finish
  nvm_restore k v info =
      vl53l0x_write_8regs i2c ((0x81, 0x00) ∷ (0xFF, 0x06) ∷ [])
      ⨟ read8 i2c 0x83 v (nvm_finish k info)

  -- From the first use of `tmp_data8`, `v`, on.
  unfoldable pub nvm_request : (ℕ → ℕ → List ℕ → Proc S) → ℕ → Proc S
  unfolding write8 vl53l0x_write_8regs vl53l0x_read_strobe read_bytes nvm_restore
  nvm_request k v =
      write8 i2c 0x83 (set_bit v 2)
      ⨟ vl53l0x_write_8regs i2c ((0xFF, 0x07) ∷ (0x81, 0x01) ∷ (0x80, 0x01) ∷ [])
      ⨟ write8 i2c 0x94 0x6b
      ⨟ vl53l0x_read_strobe
      ⨟ read_bytes i2c 0x90 (0 ∷ 0 ∷ 0 ∷ 0 ∷ []) (nvm_restore k v)

  unfoldable pub vl53l0x_get_spad_info_from_nvm : (ℕ → ℕ → List ℕ → Proc S) → Proc S
  unfolding vl53l0x_write_8regs read8 nvm_request
  vl53l0x_get_spad_info_from_nvm k =
      vl53l0x_write_8regs i2c ((0x80, 0x01) ∷ (0xFF, 0x01) ∷ (0x00, 0x00) ∷ (0xFF, 0x06) ∷ [])
      ⨟ read8 i2c 0x83 0 (nvm_request k)

  -- `vl53l0x_set_spads_from_nvm` behind that call.
  unfoldable pub set_spads : ℕ → ℕ → List ℕ → Proc S
  unfolding vl53l0x_write_8regs select_spads write_bytes
  set_spads count spad_type good =
      vl53l0x_write_8regs i2c
        ((0xFF, 0x01) ∷ (0x4F, 0x00) ∷ (0x4E, 0x2C) ∷ (0xFF, 0x00) ∷ (0xB6, 0xB4) ∷ [])
      ⨟ select_then
          (select_spads good (if spad_type == 1 then spad_aperture_start_index else 0) count)
          (write_bytes i2c reg_global_config_spad_enables_ref_0)

  unfoldable pub vl53l0x_set_spads_from_nvm : Proc S
  unfolding vl53l0x_get_spad_info_from_nvm set_spads
  vl53l0x_set_spads_from_nvm = vl53l0x_get_spad_info_from_nvm set_spads
