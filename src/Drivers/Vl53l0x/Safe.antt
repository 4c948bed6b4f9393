-- ===== src/Drivers/Vl53l0x/Safe.antt =====
-- When a function of src/drivers/vl53l0x.c fails no assertion.
use nsumo_video.Prelude.{
  length, get_or, is_some, value_of, ℕ, zero, suc, ◌≡◌, refl, sym, subst, Bool, true, false, Option,
  none, some, List, [], ◌∷◌, arith,
}
use nsumo_video.Drivers.Vl53l0x.{
  RangeResult, value_5, I2cDriver, Sensors, Run, returns, asserts, hangs, Proc, then_run, ◌⨟◌,
  return, transferred, write_end, write_bytes, write8, read_end, read_bytes, read8, i2c_slave,
  vl53l0x_write_8regs, poll_step, poll,
}
use nsumo_video.Drivers.Vl53l0x.Spads.Selected.{length-select_spads}
use nsumo_video.Drivers.Vl53l0x.Spads.{
  select_spads, zero_map, range_result_of, select_then, vl53l0x_read_strobe, spad_map_end,
  read_good_spad_map,
}
use nsumo_video.Drivers.Vl53l0x.Setup.{
  data_init_rest, device_is_booted, stop_variable_end, read_stop_variable, vl53l0x_data_init,
  configure_interrupt_rest, vl53l0x_configure_interrupt,
}

module _ {S : Type 0} where
  -- No assertion failed. Behind VL53L0X_RESULT_OK the state is as `Q` says, and behind any other result
  -- as `E` says.
  abbrev pub EndsWell : (E Q : Sensors S → Type 0) → Run (RangeResult × Sensors S) → Type 0
  EndsWell E Q (returns (RangeResult.ok, t)) = Q t
  EndsWell E Q (returns (e, t)) = E t
  EndsWell E Q asserts = ⊥
  EndsWell E Q hangs = Unit

  pub record Safe (E P Q : Sensors S → Type 0) (p : Proc S) : Type 0 where
    pub safe : (s : Sensors S) → P s → EndsWell E Q (p s)

  pub returns-EndsWell :
      (E Q : Sensors S → Type 0) (e : RangeResult) (t : Sensors S)
      → ((s : Sensors S) → Q s → E s)
      → Q t
      → EndsWell E Q (returns (e, t))
  returns-EndsWell E Q RangeResult.ok t w h = h
  returns-EndsWell E Q RangeResult.error_i2c t w h = w t h
  returns-EndsWell E Q RangeResult.error_boot t w h = w t h
  returns-EndsWell E Q RangeResult.error_spad t w h = w t h
  returns-EndsWell E Q RangeResult.error_measure_ongoing t w h = w t h
  returns-EndsWell E Q value_5 t w h = w t h

  pub then_run-EndsWell :
      (E Q R : Sensors S → Type 0) (r : Run (RangeResult × Sensors S)) (q : Proc S)
      → EndsWell E Q r
      → Safe E Q R q
      → EndsWell E R (then_run r q)
  then_run-EndsWell E Q R (returns (RangeResult.ok, t)) q h k = k.safe t h
  then_run-EndsWell E Q R (returns (RangeResult.error_i2c, t)) q h k = h
  then_run-EndsWell E Q R (returns (RangeResult.error_boot, t)) q h k = h
  then_run-EndsWell E Q R (returns (RangeResult.error_spad, t)) q h k = h
  then_run-EndsWell E Q R (returns (RangeResult.error_measure_ongoing, t)) q h k = h
  then_run-EndsWell E Q R (returns (value_5, t)) q h k = h
  then_run-EndsWell E Q R asserts q h k = absurd h
  then_run-EndsWell E Q R hangs q h k = tt

  pub Safe-then :
      (E P Q R : Sensors S → Type 0) (p q : Proc S)
      → Safe E P Q p
      → Safe E Q R q
      → Safe E P R (p ⨟ q)
  unfolding ◌⨟◌
  Safe-then E P Q R p q h k = record {
    safe = λ s a. then_run-EndsWell E Q R (p s) q (h.safe s a) k;
  }

  pub Safe-return :
      (E P : Sensors S → Type 0)
      → ((s : Sensors S) → P s → E s)
      → (e : RangeResult) → Safe E P P (return e)
  Safe-return E P w e = record { safe = λ s a. returns-EndsWell E P e s w a }

-- A transfer of at least one byte fails no assertion of the i2c driver.
pub record IsTotal {S : Type 0} (i2c : I2cDriver S) : Type 0 where
  pub write_total : (addr b : ℕ) (bs : List ℕ) (l : S) → is_some (i2c.write addr (b ∷ bs) l) ≡ true
  pub read_total : (addr b : ℕ) (bs : List ℕ) (l : S) → is_some (i2c.read addr (b ∷ bs) l) ≡ true

-- The functions that only use the bus, for a predicate that the bus does not matter for.
module _ {S : Type 0} (i2c : I2cDriver S) (total : IsTotal i2c) (E P : Sensors S → Type 0)
    (weak : (s : Sensors S) → P s → E s)
    (apart : (s : Sensors S) (l : S) (v : ℕ)
      → P s
      → P (record s { link = l; stop_variable = v })) where
  pub Safe-write_bytes : (addr b : ℕ) (bs : List ℕ) → Safe E P P (write_bytes i2c addr (b ∷ bs))
  unfolding write_bytes
  Safe-write_bytes addr b bs = record {
    safe = λ s a.
        let ((e, l), h) =
          value_of (i2c.write addr (b ∷ bs) s.link) (total.write_total addr b bs s.link) in
        subst (λ o. EndsWell E P (write_end i2c s o)) (sym h)
          (returns-EndsWell E P (transferred e) (record s { link = l }) weak
            (apart s l s.stop_variable a));
  }

  pub Safe-read_bytes :
      (addr b : ℕ) (bs : List ℕ) (k : List ℕ → Proc S)
      → ((c : List ℕ) → Safe E P P (k c))
      → Safe E P P (read_bytes i2c addr (b ∷ bs) k)
  unfolding read_bytes
  Safe-read_bytes addr b bs k hk = record {
    safe = λ s a.
        let ((e, c, l), h) =
          value_of (i2c.read addr (b ∷ bs) s.link) (total.read_total addr b bs s.link) in
        subst (λ o. EndsWell E P (read_end i2c k s o)) (sym h)
          (then_run-EndsWell E P P (returns (transferred e, record s { link = l })) (k c)
            (returns-EndsWell E P (transferred e) (record s { link = l }) weak
              (apart s l s.stop_variable a))
            (hk c));
  }

  pub Safe-write8 : (addr value : ℕ) → Safe E P P (write8 i2c addr value)
  unfolding write8
  Safe-write8 addr value = Safe-write_bytes addr value []

  pub Safe-read8 :
      (addr value : ℕ) (k : ℕ → Proc S)
      → ((v : ℕ) → Safe E P P (k v))
      → Safe E P P (read8 i2c addr value k)
  unfolding read8
  Safe-read8 addr value k hk =
      Safe-read_bytes addr value [] (λ b. k (get_or b 0 value)) (λ b. hk (get_or b 0 value))

  pub Safe-i2c_slave : (addr : ℕ) → Safe E P P (i2c_slave i2c addr)
  unfolding i2c_slave
  Safe-i2c_slave addr = record {
    safe = λ s a. apart s (i2c.i2c_set_slave_address addr s.link) s.stop_variable a;
  }

  pub Safe-vl53l0x_write_8regs : (regs : List (ℕ × ℕ)) → Safe E P P (vl53l0x_write_8regs i2c regs)
  unfolding vl53l0x_write_8regs
  Safe-vl53l0x_write_8regs [] = Safe-return E P weak RangeResult.ok
  Safe-vl53l0x_write_8regs (r ∷ regs) =
      Safe-then E P P P _ _ (Safe-write8 r.0 r.1) (Safe-vl53l0x_write_8regs regs)

  Safe-poll_step :
      (b : Bool) (again : Proc S) → Safe E P P again → Safe E P P (poll_step i2c b again)
  Safe-poll_step true again h = record { safe = λ s a. a }
  Safe-poll_step false again h = h

  pub Safe-poll : (fuel addr : ℕ) (ready : ℕ → Bool) → Safe E P P (poll i2c fuel addr ready)
  unfolding poll
  Safe-poll zero addr ready = record { safe = λ s a. tt }
  Safe-poll (suc fuel) addr ready =
      Safe-read8 addr 0 _ (λ value. Safe-poll_step (ready value) _ (Safe-poll fuel addr ready))

  Safe-read_stop_variable : Safe E P P (read_stop_variable i2c)
  unfolding read_stop_variable
  Safe-read_stop_variable = record {
    safe = λ s a.
        let ((e, c, l), h) =
          value_of (i2c.read 0x91 (s.stop_variable ∷ []) s.link)
            (total.read_total 0x91 s.stop_variable [] s.link) in
        subst (λ o. EndsWell E P (stop_variable_end i2c s o)) (sym h)
          (returns-EndsWell E P (transferred e) _ weak (apart s l (get_or c 0 s.stop_variable) a));
  }

  pub Safe-read_good_spad_map :
      (polls : ℕ) (k : List ℕ → Proc S)
      → ((c : List ℕ) → Safe E P P (k c))
      → Safe E P P (read_good_spad_map i2c polls k)
  unfolding read_good_spad_map range_result_of spad_map_end
  Safe-read_good_spad_map polls k hk = record {
    safe = λ s a.
        let ((e, c, l), h) =
          value_of (i2c.read 0xB0 zero_map s.link) (total.read_total 0xB0 0 _ s.link) in
        subst (λ o. EndsWell E P (spad_map_end i2c polls k s o)) (sym h)
          (then_run-EndsWell E P P (returns (range_result_of e, record s { link = l })) (k c)
            (returns-EndsWell E P (range_result_of e) _ weak (apart s l s.stop_variable a)) (hk c));
  }

  select_then-Safe :
      (o : Option (List ℕ)) (addr : ℕ)
      → ((m : List ℕ) → o ≡ some m → length m ≡ 6)
      → Safe E P P (select_then o (write_bytes i2c addr))
  select_then-Safe none addr h = Safe-return E P weak RangeResult.error_spad
  select_then-Safe (some []) addr h = absurd (omega (arith, h [] refl))
  select_then-Safe (some (b ∷ bs)) addr h = Safe-write_bytes addr b bs

  pub Safe-select_then :
      (good : List ℕ) (offset count addr : ℕ)
      → Safe E P P (select_then (select_spads good offset count) (write_bytes i2c addr))
  Safe-select_then good offset count addr =
      select_then-Safe (select_spads good offset count) addr (length-select_spads good offset count)

  pub Safe-and : (p q : Proc S) → Safe E P P p → Safe E P P q → Safe E P P (p ⨟ q)
  Safe-and = Safe-then E P P P

  pub Safe-device_is_booted : Safe E P P (device_is_booted i2c)
  unfolding device_is_booted
  Safe-device_is_booted = search (Safe-read8, Safe-return)

  pub Safe-vl53l0x_data_init : Safe E P P (vl53l0x_data_init i2c)
  unfolding vl53l0x_data_init data_init_rest
  Safe-vl53l0x_data_init = Safe-read8 0x89 0 (data_init_rest i2c) (λ v.
      search (Safe-and, Safe-write8, Safe-vl53l0x_write_8regs, Safe-read_stop_variable) depth 8)

  pub Safe-vl53l0x_configure_interrupt : Safe E P P (vl53l0x_configure_interrupt i2c)
  unfolding vl53l0x_configure_interrupt configure_interrupt_rest
  Safe-vl53l0x_configure_interrupt =
      Safe-and (write8 i2c 0x0A 0x04) (read8 i2c 0x84 0 (configure_interrupt_rest i2c))
        (Safe-write8 0x0A 0x04)
        (Safe-read8 0x84 0 (configure_interrupt_rest i2c) (λ v. search (Safe-and, Safe-write8)))

  pub Safe-vl53l0x_read_strobe : (polls : ℕ) → Safe E P P (vl53l0x_read_strobe i2c polls)
  unfolding vl53l0x_read_strobe
  Safe-vl53l0x_read_strobe polls = search (Safe-and, Safe-write8, Safe-poll)
