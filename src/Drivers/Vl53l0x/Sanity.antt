-- ===== src/Drivers/Vl53l0x/Sanity.antt =====
-- Which assertion `vl53l0x_read_range_multiple` of src/drivers/vl53l0x.c can fail.
use nsumo_video.Prelude.{
  arith, Bool-cases, if-is_true, if-is_false, ℕ, ◌≡◌, refl, sym, ap, subst, ◌∙◌, ◌↔◌, ◌⊎◌, inl, inr,
  Bool, true, false, Option, some,
}
use nsumo_video.Drivers.Vl53l0x.{
  Idx, RangeResult, value_5, I2cDriver, Sensors, Run, returns, asserts, hangs, then_run, ◌⨟◌,
}
use nsumo_video.Drivers.Vl53l0x.Ranging.{vl53l0x_is_sysrange_done, front_measurement_done_isr}
use nsumo_video.Drivers.Vl53l0x.Multiple.{
  Reading, finish, is_not_started, block_until_done, measurements_done, front_done_end,
  assert_front_done, read_and_start, read_and_restart, read_measured, read_if_done, start_if_needed,
  read_started, vl53l0x_read_range_multiple,
}
use nsumo_video.Drivers.Vl53l0x.Safe.{EndsWell, Safe, IsTotal}
use nsumo_video.Drivers.Vl53l0x.Reads.{
  On, On-then, TestEnds, vl53l0x_is_sysrange_done-On, measurements_done-On,
  On-vl53l0x_start_measuring_multiple, On-read_and_start,
}

-- Every measurement counts as ready, but the front sensor, whose interrupt said so, denies it.
pub record SanityFails {S : Type 0} (i2c : I2cDriver S) (polls : ℕ) (interrupted : Bool)
    (s : Sensors S) : Type 0 where
  pub started : Sensors S
  pub measured : Sensors S
  pub asked : Sensors S
  pub starts : start_if_needed i2c polls interrupted s ≡ returns (RangeResult.ok, started)
  pub others_ready : measurements_done i2c polls interrupted started ≡ some (true, measured)
  pub front_denies : vl53l0x_is_sysrange_done i2c Idx.front measured ≡ some (false, asked)

module _ {S : Type 0} where
  -- An assertion fails only where `F` holds, and the driver stays initialized.
  abbrev pub ReadsWell : (F : Type 0) → Run (Reading × Sensors S) → Type 0
  ReadsWell F (returns (a, t)) = On t
  ReadsWell F asserts = F
  ReadsWell F hangs = Unit

  finish-ReadsWell :
      (F : Type 0) (before : Reading) (b : Bool) (x : Run (RangeResult × Sensors S))
      → EndsWell On On x
      → ReadsWell F (finish before b x)
  unfolding finish
  finish-ReadsWell F before b (returns (RangeResult.ok, t)) h = h
  finish-ReadsWell F before b (returns (RangeResult.error_i2c, t)) h = h
  finish-ReadsWell F before b (returns (RangeResult.error_boot, t)) h = h
  finish-ReadsWell F before b (returns (RangeResult.error_spad, t)) h = h
  finish-ReadsWell F before b (returns (RangeResult.error_measure_ongoing, t)) h = h
  finish-ReadsWell F before b (returns (value_5, t)) h = h
  finish-ReadsWell F before b asserts h = absurd h
  finish-ReadsWell F before b hangs h = tt

  On-block_until_done : (interrupted : Bool) → Safe {S = S} On On On (block_until_done interrupted)
  unfolding block_until_done front_measurement_done_isr
  On-block_until_done interrupted = record { safe = λ s h. ground arith }

module _ {S : Type 0} (i2c : I2cDriver S) (total : IsTotal i2c) (polls : ℕ)
    (interrupted : Bool) where
  start_if_needed-EndsWell :
      (s : Sensors S) → On s → EndsWell On On (start_if_needed i2c polls interrupted s)
  unfolding start_if_needed
  start_if_needed-EndsWell s h = elim (Bool-cases (is_not_started s.status_multiple)) [
    | inl e ↦ subst (EndsWell On On) (sym (if-is_true _ _ (returns (RangeResult.ok, s)) e)) (
        (On-then i2c total _ _ (On-vl53l0x_start_measuring_multiple i2c total polls)
            (On-block_until_done interrupted)).safe
          s h)
    | inr e ↦ subst (EndsWell On On) (sym (if-is_false _ _ (returns (RangeResult.ok, s)) e)) h
  ]

  -- The check of the front sensor, and what comes behind it.
  restart-ReadsWell :
      (F : Type 0) (before : Reading) (t : Sensors S)
      → On t
      → ((v : Sensors S) → vl53l0x_is_sysrange_done i2c Idx.front t ≡ some (false, v) → F)
      → ReadsWell F (finish before true (read_and_restart i2c polls interrupted t))
  unfolding read_and_restart ◌⨟◌ assert_front_done finish
  restart-ReadsWell F before t h k =
      let (b, v, e, g) = vl53l0x_is_sysrange_done-On i2c total Idx.front t h in restart_by b v e g
    where
      restart_by :
          (b : Bool) (v : Sensors S)
          → vl53l0x_is_sysrange_done i2c Idx.front t ≡ some (b, v)
          → On v
          → ReadsWell F (finish before true (read_and_restart i2c polls interrupted t))
      restart_by true v e g =
          subst
            (λ o. ReadsWell F (
              finish before true
                (then_run (front_done_end o) (read_and_start i2c polls interrupted))))
            (sym e)
            (finish-ReadsWell F before true (read_and_start i2c polls interrupted v)
              ((On-read_and_start i2c total polls interrupted).safe v g))
      restart_by false v e g =
          subst
            (λ o. ReadsWell F (
              finish before true
                (then_run (front_done_end o) (read_and_start i2c polls interrupted))))
            (sym e) (k v e)

  read_measured-ReadsWell :
      (F : Type 0) (before : Reading) (o : Option (Bool × Sensors S))
      → TestEnds i2c total o
      → ((t : Sensors S)
          → o ≡ some (true, t)
          → On t
          → ReadsWell F (finish before true (read_and_restart i2c polls interrupted t)))
      → ReadsWell F (read_measured i2c polls interrupted before o)
  unfolding read_measured finish
  read_measured-ReadsWell F before o (true, t, e, g) k =
      subst (λ p. ReadsWell F (read_measured i2c polls interrupted before p)) (sym e) (k t e g)
  read_measured-ReadsWell F before o (false, t, e, g) k =
      subst (λ p. ReadsWell F (read_measured i2c polls interrupted before p)) (sym e) g

  -- The function from its second `if` on.
  read_if_done-ReadsWell :
      (F : Type 0) (before : Reading) (u : Sensors S)
      → On u
      → ((t v : Sensors S)
          → measurements_done i2c polls interrupted u ≡ some (true, t)
          → vl53l0x_is_sysrange_done i2c Idx.front t ≡ some (false, v)
          → F)
      → ReadsWell F (read_if_done i2c polls interrupted before u)
  unfolding read_if_done
  read_if_done-ReadsWell F before u h k =
      read_measured-ReadsWell F before _ (measurements_done-On i2c total polls interrupted u h)
        (λ t e g. restart-ReadsWell F before t g (λ v. k t v e))

  read_started-ReadsWell :
      (F : Type 0) (before : Reading) (x : Run (RangeResult × Sensors S))
      → EndsWell On On x
      → ((u t v : Sensors S)
          → x ≡ returns (RangeResult.ok, u)
          → measurements_done i2c polls interrupted u ≡ some (true, t)
          → vl53l0x_is_sysrange_done i2c Idx.front t ≡ some (false, v)
          → F)
      → ReadsWell F (read_started i2c polls interrupted before x)
  unfolding read_started
  read_started-ReadsWell F before (returns (RangeResult.ok, u)) h k =
      read_if_done-ReadsWell F before u h (λ t v. k u t v refl)
  read_started-ReadsWell F before (returns (RangeResult.error_i2c, u)) h k = h
  read_started-ReadsWell F before (returns (RangeResult.error_boot, u)) h k = h
  read_started-ReadsWell F before (returns (RangeResult.error_spad, u)) h k = h
  read_started-ReadsWell F before (returns (RangeResult.error_measure_ongoing, u)) h k = h
  read_started-ReadsWell F before (returns (value_5, u)) h k = h
  read_started-ReadsWell F before asserts h k = absurd h
  read_started-ReadsWell F before hangs h k = tt

  -- With an initialized driver and transfers that fail no assertion, a call fails an assertion at most
  -- where the sanity check does, and leaves the driver initialized.
  pub vl53l0x_read_range_multiple-ReadsWell :
      (before : Reading) (s : Sensors S)
      → On s
      → ReadsWell
          (SanityFails i2c polls interrupted s)
          (vl53l0x_read_range_multiple i2c polls interrupted before s)
  unfolding vl53l0x_read_range_multiple
  vl53l0x_read_range_multiple-ReadsWell before s h =
      subst (ReadsWell (SanityFails i2c polls interrupted s)) (sym (if-is_true _ _ asserts h)) (
        read_started-ReadsWell _ before _ (start_if_needed-EndsWell s h) (λ u t v e f g. record {
          started = u;
          measured = t;
          asked = v;
          starts = e;
          others_ready = f;
          front_denies = g;
        }))

  pub SanityFails-asserts :
      (before : Reading) (s : Sensors S)
      → On s
      → SanityFails i2c polls interrupted s
      → vl53l0x_read_range_multiple i2c polls interrupted before s ≡ asserts
  unfolding vl53l0x_read_range_multiple read_started read_if_done read_measured finish
      read_and_restart ◌⨟◌ assert_front_done
  SanityFails-asserts before s h f =
      if-is_true _ _ asserts h
      ∙ ap (read_started i2c polls interrupted before) f.starts
      ∙ ap (read_measured i2c polls interrupted before) f.others_ready
      ∙ ap
          (λ o.
            finish before true (then_run (front_done_end o) (read_and_start i2c polls interrupted)))
          f.front_denies

  -- With transfers that fail no assertion of the i2c driver: `vl53l0x_read_range_multiple` fails an
  -- assertion exactly where the driver is not initialized, or where its sanity check fails: the front
  -- sensor, whose interrupt has come, says that it has no measurement or does not answer.
  pub vl53l0x_read_range_multiple-asserts_iff :
      (before : Reading) (s : Sensors S)
      → (vl53l0x_read_range_multiple i2c polls interrupted before s ≡ asserts)
        ↔ ((s.initialized ≡ false) ⊎ SanityFails i2c polls interrupted s)
  unfolding vl53l0x_read_range_multiple
  vl53l0x_read_range_multiple-asserts_iff before s = (
    λ e. elim (Bool-cases s.initialized) [
      | inl h ↦ inr (
          subst (ReadsWell (SanityFails i2c polls interrupted s)) e
            (vl53l0x_read_range_multiple-ReadsWell before s h))
      | inr h ↦ inl h
    ],
    λ w. elim w [
      | inl h ↦ if-is_false _ _ asserts h
      | inr f ↦ elim (Bool-cases s.initialized) [
        | inl h ↦ SanityFails-asserts before s h f
        | inr h ↦ if-is_false _ _ asserts h
      ]
    ],
  )
