-- ===== src/Drivers/Vl53l0x/Prepared.antt =====
-- What the start in src/drivers/vl53l0x.c needs of the pins and of the interrupt table, and the steps that
-- use them.
use nsumo_video.Prelude.{
  get_or, ℕ, ◌<◌, ◌≡◌, ◌==◌, refl, sym, subst, ◌∙◌, true, false, Option, some, none, arith,
}
use nsumo_video.Drivers.Io.{
  Out, Registers, io_set_out, io_get_current_config, input_config, io_initial_configs,
}
use nsumo_video.Drivers.Io.Configure
use nsumo_video.Drivers.Io.Configure.{io_set_out-IsValid, io_config_compare_iff}
use nsumo_video.Drivers.Io.Pins.{io_range_sensor_front_int, io_ir_remote}
use nsumo_video.Drivers.Io.Interrupts.{
  Trigger, Interrupts, isr_function, io_configure_interrupt, io_enable_interrupt,
}
use nsumo_video.Drivers.Io.Interrupts.Kept.{io_enable_interrupt-io_configure_interrupt}
use nsumo_video.Drivers.Io.Interrupts.Configured
use nsumo_video.Drivers.Tb6612fng.Boot.{AtInitial}
use nsumo_video.Drivers.Tb6612fng.Outputs.{reg_test-io_set_out}
use nsumo_video.Drivers.Vl53l0x.{Idx, Isr, Sensors, assert_then}
use nsumo_video.Drivers.Vl53l0x.Boot.{
  xshut_io, config_is, vl53l0x_set_hardware_standby, vl53l0x_assert_xshut_pins,
  enable_front_interrupt, vl53l0x_configure_front_sensor_interrupt, mark_initialized,
}
use nsumo_video.Drivers.Vl53l0x.AtBoot.{vl53l0x_assert_xshut_pins-AtInitial}
use nsumo_video.Drivers.Vl53l0x.Safe.{EndsWell, Safe}

-- What stays through the start, whether it fails or not: the registers and the interrupt table are well
-- formed, and no function is registered for the infrared receiver.
pub record Alive {S : Type 0} (s : Sensors S) : Type 0 where
  pub valid : Configure.IsValid s.io
  pub tables : Configured.IsValid s.interrupts
  pub remote_free : isr_function io_ir_remote s.interrupts ≡ none

-- In addition, the driver is not initialized yet.
pub record Waiting {S : Type 0} (s : Sensors S) : Type 0 where
  pub alive : Alive s
  pub not_yet : s.initialized ≡ false

-- What the start needs of the state while the slave addresses are assigned: the interrupt pin of the
-- front sensor is an input, and no function is registered for it.
pub record Prepared {S : Type 0} (s : Sensors S) : Type 0 where
  pub waiting : Waiting s
  pub front_pin : io_get_current_config io_range_sensor_front_int s.io ≡ input_config
  pub free : isr_function io_range_sensor_front_int s.interrupts ≡ none

-- In addition, every pin is as `io_init` leaves it.
pub record Fresh {S : Type 0} (s : Sensors S) : Type 0 where
  pub prepared : Prepared s
  pub at_initial : AtInitial s.io

-- The level of an output does not change the configuration of another pin.
io_get_current_config-io_set_out :
    (io jo : ℕ) (o : Out) (r : Registers)
    → io < 24
    → jo < 24
    → (io == jo) ≡ false
    → Configure.IsValid r
    → io_get_current_config jo (io_set_out io o r) ≡ io_get_current_config jo r
unfolding io_get_current_config io_set_out
io_get_current_config-io_set_out io jo Out.low r k l e h =
    ground (arith, reg_test-io_set_out io jo Out.low r k l h)
io_get_current_config-io_set_out io jo Out.high r k l e h =
    ground (arith, reg_test-io_set_out io jo Out.high r k l h)

xshut_io-lt : (idx : Idx) → xshut_io idx < 24
xshut_io-lt Idx.front = omega arith
xshut_io-lt Idx.left = omega arith
xshut_io-lt Idx.right = omega arith
xshut_io-lt Idx.front_right = omega arith
xshut_io-lt Idx.front_left = omega arith

xshut_io-ne : (idx : Idx) → (xshut_io idx == io_range_sensor_front_int) ≡ false
xshut_io-ne Idx.front = refl
xshut_io-ne Idx.left = refl
xshut_io-ne Idx.right = refl
xshut_io-ne Idx.front_right = refl
xshut_io-ne Idx.front_left = refl

pub front_entry : get_or io_initial_configs io_range_sensor_front_int input_config ≡ input_config
unfolding io_initial_configs
front_entry = refl

pub moved-Waiting :
    {S : Type 0}
    → (s : Sensors S) (l : S) (v : ℕ) → Waiting s
    → Waiting (record s { link = l; stop_variable = v })
moved-Waiting s l v h = record {
  alive = record {
    valid = h.alive.valid;
    tables = h.alive.tables;
    remote_free = h.alive.remote_free;
  };
  not_yet = h.not_yet;
}

pub moved :
    {S : Type 0}
    → (s : Sensors S) (l : S) (v : ℕ) → Prepared s
    → Prepared (record s { link = l; stop_variable = v })
moved s l v h = record {
  waiting = moved-Waiting s l v h.waiting;
  front_pin = h.front_pin;
  free = h.free;
}

pub Prepared-Waiting : {S : Type 0} → (s : Sensors S) → Prepared s → Waiting s
Prepared-Waiting s h = h.waiting

pub Waiting-Waiting : {S : Type 0} → (s : Sensors S) → Waiting s → Waiting s
Waiting-Waiting s h = h

module _ {S : Type 0} where
  set_out-Prepared :
      (io : ℕ) (o : Out) (s : Sensors S)
      → io < 24
      → (io == io_range_sensor_front_int) ≡ false
      → Prepared s
      → Prepared (record s { io = io_set_out io o s.io })
  set_out-Prepared io o s k n h = record {
    waiting = record {
      alive = record {
        valid = io_set_out-IsValid io k h.waiting.alive.valid o;
        tables = h.waiting.alive.tables;
        remote_free = h.waiting.alive.remote_free;
      };
      not_yet = h.waiting.not_yet;
    };
    front_pin =
        io_get_current_config-io_set_out io 9 o s.io k (omega arith) n h.waiting.alive.valid
        ∙ h.front_pin;
    free = h.free;
  }

  pub Safe-vl53l0x_set_hardware_standby :
      (idx : Idx) → Safe {S = S} Waiting Prepared Prepared (vl53l0x_set_hardware_standby idx false)
  unfolding vl53l0x_set_hardware_standby
  Safe-vl53l0x_set_hardware_standby idx = record {
    safe = λ s h. set_out-Prepared (xshut_io idx) Out.high s (xshut_io-lt idx) (xshut_io-ne idx) h;
  }

  pub Safe-vl53l0x_assert_xshut_pins : Safe {S = S} Waiting Fresh Prepared vl53l0x_assert_xshut_pins
  Safe-vl53l0x_assert_xshut_pins = record {
    safe = λ s h.
        subst (EndsWell Waiting Prepared) (sym (vl53l0x_assert_xshut_pins-AtInitial s h.at_initial))
          h.prepared;
  }

  front_interrupt-EndsWell :
      (o : Option (Interrupts Isr)) (j : Interrupts Isr) (s : Sensors S)
      → o ≡ some j
      → Waiting (record s { interrupts = io_enable_interrupt io_range_sensor_front_int j })
      → EndsWell Waiting Waiting (enable_front_interrupt o s)
  front_interrupt-EndsWell o j s e h =
      subst (λ p. EndsWell Waiting Waiting (enable_front_interrupt p s)) (sym e) h

  pub Safe-vl53l0x_configure_front_sensor_interrupt :
      Safe {S = S} Waiting Prepared Waiting vl53l0x_configure_front_sensor_interrupt
  unfolding vl53l0x_configure_front_sensor_interrupt config_is
  Safe-vl53l0x_configure_front_sensor_interrupt = record {
    safe = λ s h.
        let o =
          io_configure_interrupt io_range_sensor_front_int Trigger.falling
            Isr.front_measurement_done s.interrupts in
        let (j, e, v, remote, en) =
          io_enable_interrupt-io_configure_interrupt io_range_sensor_front_int io_ir_remote
            Trigger.falling Isr.front_measurement_done s.interrupts (omega arith) (omega arith)
            h.waiting.alive.tables h.free in
        subst (λ c. EndsWell Waiting Waiting (assert_then c (enable_front_interrupt o) s))
          (sym ((io_config_compare_iff input_config _).1 (sym h.front_pin)))
          (front_interrupt-EndsWell o j s e (record {
            alive = record {
              valid = h.waiting.alive.valid;
              tables = v;
              remote_free = remote ∙ h.waiting.alive.remote_free;
            };
            not_yet = h.waiting.not_yet;
          }));
  }

  abbrev pub Done : Sensors S → Type 0
  Done t = Alive t × (t.initialized ≡ true)

  pub Safe-mark_initialized : Safe {S = S} Waiting Waiting Done mark_initialized
  unfolding mark_initialized
  Safe-mark_initialized = record {
    safe = λ s h. (
      record { valid = h.alive.valid; tables = h.alive.tables; remote_free = h.alive.remote_free },
      refl,
    );
  }
