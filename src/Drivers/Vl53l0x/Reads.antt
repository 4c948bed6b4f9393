-- ===== src/Drivers/Vl53l0x/Reads.antt =====
-- Which assertion `vl53l0x_read_range_multiple` of src/drivers/vl53l0x.c can fail.
use nsumo_video.Prelude.{
  Bool-cases, if-is_true, if-is_false, if◌then◌else◌, value_of, get_or, ℕ, ◌/◌, ◌%◌, ◌≡◌, refl, sym,
  subst, inl, inr, Bool, true, false, Option, some, List, [], ◌∷◌,
}
use nsumo_video.Drivers.Vl53l0x.{
  Idx, RangeResult, I2cDriver, Sensors, Proc, ◌⨟◌, assert_then, return, write8, i2c_slave,
  vl53l0x_write_8regs, poll, transferred, reg_result_interrupt_status,
}
use nsumo_video.Drivers.I2c.{Result}
use nsumo_video.Drivers.Vl53l0x.Setup.{measurement_ready}
use nsumo_video.Drivers.Vl53l0x.Spads.{number_of}
use nsumo_video.Drivers.Vl53l0x.Ranging.{
  RangePointer, latest, done_end, range_end, is_measuring, range_at, store_range, clip_range_at,
  set_status, write_stop_variable, vl53l0x_clear_sysrange_interrupt, read_is_done,
  vl53l0x_is_sysrange_done, read_range_at, vl53l0x_start_sysrange, vl53l0x_pollwait_sysrange,
  vl53l0x_read_range, start_sensors, vl53l0x_start_measuring_multiple,
}
use nsumo_video.Drivers.Vl53l0x.Multiple.{and_done, is_done, measurements_done, read_and_start}
use nsumo_video.Drivers.Vl53l0x.Safe.{
  EndsWell, Safe, IsTotal, returns-EndsWell, Safe-then, Safe-write8, Safe-i2c_slave,
  Safe-vl53l0x_write_8regs, Safe-poll,
}

-- The driver is initialized.
abbrev pub On : {S : Type 0} → Sensors S → Type 0
On s = s.initialized ≡ true

On-On : {S : Type 0} → (s : Sensors S) → On s → On s
On-On s h = h

On-apart :
    {S : Type 0}
    → (s : Sensors S) (l : S) (v : ℕ) → On s
    → On (record s { link = l; stop_variable = v })
On-apart s l v h = h

store_range-On :
    {S : Type 0} → (p : RangePointer) (v : ℕ) (s : Sensors S) → On s → On (store_range p v s)
unfolding store_range
store_range-On (latest idx) v s h = h
store_range-On RangePointer.caller v s h = h

module _ {S : Type 0} (i2c : I2cDriver S) (total : IsTotal i2c) where
  pub On-then : (p q : Proc S) → Safe On On On p → Safe On On On q → Safe On On On (p ⨟ q)
  On-then = Safe-then On On On On

  On-write8 : (addr value : ℕ) → Safe On On On (write8 i2c addr value)
  On-write8 = Safe-write8 i2c total On On On-On On-apart

  On-i2c_slave : (addr : ℕ) → Safe On On On (i2c_slave i2c addr)
  On-i2c_slave = Safe-i2c_slave i2c total On On On-On On-apart

  On-vl53l0x_write_8regs : (regs : List (ℕ × ℕ)) → Safe On On On (vl53l0x_write_8regs i2c regs)
  On-vl53l0x_write_8regs = Safe-vl53l0x_write_8regs i2c total On On On-On On-apart

  On-poll : (fuel addr : ℕ) (ready : ℕ → Bool) → Safe On On On (poll i2c fuel addr ready)
  On-poll = Safe-poll i2c total On On On-On On-apart

  On-write_stop_variable : Safe On On On (write_stop_variable i2c)
  unfolding write_stop_variable
  On-write_stop_variable = record { safe = λ s. (On-write8 0x91 s.stop_variable).safe s }

  On-vl53l0x_start_sysrange :
      (polls : ℕ) (idx : Idx) → Safe On On On (vl53l0x_start_sysrange i2c polls idx)
  unfolding vl53l0x_start_sysrange
  On-vl53l0x_start_sysrange polls idx =
      search
        (On-then, On-i2c_slave, On-vl53l0x_write_8regs, On-write_stop_variable, On-write8, On-poll)
        depth 8

  On-start_sensors : (polls : ℕ) → Safe On On On (start_sensors i2c polls)
  unfolding start_sensors set_status
  On-start_sensors polls =
      On-then _ _ (record { safe = λ s h. h }) (search (On-then, On-vl53l0x_start_sysrange) depth 8)

  pub On-vl53l0x_start_measuring_multiple :
      (polls : ℕ) → Safe On On On (vl53l0x_start_measuring_multiple i2c polls)
  unfolding vl53l0x_start_measuring_multiple
  On-vl53l0x_start_measuring_multiple polls = record {
    safe = λ s h.
        let p : Proc S =
          if is_measuring s.status_multiple
          then return RangeResult.error_measure_ongoing
          else start_sensors i2c polls in
        let run : EndsWell On On (p s) = elim (Bool-cases (is_measuring s.status_multiple)) [
          | inl e ↦
              subst (λ q. EndsWell On On (q s))
                (sym (if-is_true _ (return RangeResult.error_measure_ongoing) _ e)) h
          | inr e ↦
              subst (λ q. EndsWell On On (q s))
                (sym (if-is_false _ (return RangeResult.error_measure_ongoing) _ e))
                ((On-start_sensors polls).safe s h)
        ] in
        subst (λ b. EndsWell On On (assert_then b p s)) (sym h) run;
  }

  -- The end of a test of a measurement.
  abbrev pub TestEnds : Option (Bool × Sensors S) → Type 0
  TestEnds o = (b : Bool) × (t : Sensors S) × (o ≡ some (b, t)) × On t

  done_end-On :
      (s : Sensors S) (e : Result) (b : List ℕ) (l : S)
      → On s
      → TestEnds (done_end i2c s (some (e, b, l)))
  unfolding done_end
  done_end-On s Result.ok b l h = (measurement_ready (get_or b 0 0), record s { link = l }, refl, h)
  done_end-On s Result.error_start b l h = (false, record s { link = l }, refl, h)
  done_end-On s Result.error_tx b l h = (false, record s { link = l }, refl, h)
  done_end-On s Result.error_rx b l h = (false, record s { link = l }, refl, h)
  done_end-On s Result.error_stop b l h = (false, record s { link = l }, refl, h)
  done_end-On s Result.error_timeout b l h = (false, record s { link = l }, refl, h)

  read_is_done-On : (s : Sensors S) → On s → TestEnds (read_is_done i2c s)
  unfolding read_is_done
  read_is_done-On s h =
      let ((e, b, l), q) =
        value_of (i2c.read reg_result_interrupt_status (0 ∷ []) s.link)
          (total.read_total reg_result_interrupt_status 0 [] s.link) in
      subst (λ o. TestEnds (done_end i2c s o)) (sym q) (done_end-On s e b l h)

  pub vl53l0x_is_sysrange_done-On :
      (idx : Idx) (s : Sensors S) → On s → TestEnds (vl53l0x_is_sysrange_done i2c idx s)
  unfolding vl53l0x_is_sysrange_done
  vl53l0x_is_sysrange_done-On Idx.left s h = (true, s, refl, h)
  vl53l0x_is_sysrange_done-On Idx.right s h = (true, s, refl, h)
  vl53l0x_is_sysrange_done-On Idx.front s h = read_is_done-On _ h
  vl53l0x_is_sysrange_done-On Idx.front_left s h = read_is_done-On _ h
  vl53l0x_is_sysrange_done-On Idx.front_right s h = read_is_done-On _ h

  and_done-On :
      (o : Option (Bool × Sensors S)) (k : Sensors S → Option (Bool × Sensors S))
      → TestEnds o
      → ((s : Sensors S) → On s → TestEnds (k s))
      → TestEnds (and_done o k)
  and_done-On o k (true, t, e, h) g = subst (λ x. TestEnds (and_done x k)) (sym e) (g t h)
  and_done-On o k (false, t, e, h) g =
      subst (λ x. TestEnds (and_done x k)) (sym e) (false, t, refl, h)

  pub measurements_done-On :
      (polls : ℕ) (interrupted : Bool) (s : Sensors S)
      → On s
      → TestEnds (measurements_done i2c polls interrupted s)
  unfolding measurements_done
  measurements_done-On polls interrupted s h =
      and_done-On _ _ (is_done s.status_multiple, s, refl, h)
        (λ a ha. and_done-On _ _ (vl53l0x_is_sysrange_done-On Idx.left a ha) (λ b hb.
          and_done-On _ _ (vl53l0x_is_sysrange_done-On Idx.right b hb) (λ c hc.
            and_done-On _ _ (vl53l0x_is_sysrange_done-On Idx.front_left c hc)
              (vl53l0x_is_sysrange_done-On Idx.front_right))))

  On-vl53l0x_clear_sysrange_interrupt : Safe On On On (vl53l0x_clear_sysrange_interrupt i2c)
  unfolding vl53l0x_clear_sysrange_interrupt
  On-vl53l0x_clear_sysrange_interrupt = On-write8 _ 0x01

  On-read_range_at : (p : RangePointer) → Safe On On On (read_range_at i2c p)
  unfolding read_range_at range_end
  On-read_range_at p = record {
    safe = λ s h.
        let ((e, b, l), q) =
          value_of (i2c.read 0x1E (range_at p s % 256 ∷ range_at p s / 256 ∷ []) s.link)
            (total.read_total 0x1E (range_at p s % 256) (range_at p s / 256 ∷ []) s.link) in
        subst (λ o. EndsWell On On (range_end i2c p s o)) (sym q)
          (returns-EndsWell On On (transferred e) _ On-On (store_range-On p (number_of b) _ h));
  }

  On-clip_range_at : (p : RangePointer) → Safe On On On (clip_range_at {S = S} p)
  unfolding clip_range_at
  On-clip_range_at p = record { safe = λ s h. store_range-On p _ s h }

  On-vl53l0x_read_range :
      (polls : ℕ) (idx : Idx) (p : RangePointer)
      → Safe On On On (vl53l0x_read_range i2c polls idx p)
  unfolding vl53l0x_read_range vl53l0x_pollwait_sysrange
  On-vl53l0x_read_range polls idx p =
      search (On-then, On-i2c_slave, On-poll, On-read_range_at, On-write8, On-clip_range_at) depth 8

  -- The reads and the restart behind the sanity check.
  pub On-read_and_start :
      (polls : ℕ) (interrupted : Bool) → Safe On On On (read_and_start i2c polls interrupted)
  On-read_and_start polls interrupted =
      search (On-then, On-vl53l0x_read_range, On-vl53l0x_start_measuring_multiple) depth 8
