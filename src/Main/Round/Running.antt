-- ===== src/Main/Round/Running.antt =====
-- When a round of the loop of `state_machine_run` fails an assertion.
use nsumo_video.Prelude.{
  Option-cases, ℕ, ◌≡◌, ◌↔◌, ◌⊎◌, refl, sym, ap, subst, ◌∙◌, inl, inr, Bool, true, false, Option,
  none, some, List,
}
use nsumo_video.Drivers.Adc.{Adc, io_adc_pins, isr_adc10}
use nsumo_video.Drivers.Adc.Samples.{qre1113_get_voltages-some}
use nsumo_video.Drivers.IrRemote.Receiving.{Stores, receive-Receives, ir_remote_get_cmd-Stores}
use nsumo_video.Drivers.Vl53l0x.{I2cDriver, Sensors, Run, returns, asserts, hangs}
use nsumo_video.Drivers.Vl53l0x.Ranging.{front_measurement_done_isr}
use nsumo_video.Drivers.Vl53l0x.Multiple
use nsumo_video.Drivers.Vl53l0x.Multiple.{vl53l0x_read_range_multiple}
use nsumo_video.Drivers.Vl53l0x.Safe.{IsTotal}
use nsumo_video.Drivers.Vl53l0x.Sanity.{SanityFails, vl53l0x_read_range_multiple-asserts_iff}
use nsumo_video.App.Enemy.Ranges.{range_reading}
use nsumo_video.App.Machine.{Machine}
use nsumo_video.App.StateMachine.{Reading, step}
use nsumo_video.App.StateMachine.Invariant.{Inv}
use nsumo_video.App.StateMachine.Halting.{step-none_iff, step-Inv}
use nsumo_video.App.StateMachine.Rounds.{Refused}
use nsumo_video.Main.{Robot, ended, ◌>>=◌}
use nsumo_video.Main.Round.{
  Surroundings, converted, front_interrupt, before_reading, interrupts, read_rest, process,
  read_inputs, round,
}

-- The ring of commands is well formed, the pins of the converter are those of `adc_init`, and a conversion is
-- started.
pub record Running {S : Type 0} (r : Robot S) : Type 0 where
  pub commands : Stores r.ir.ir_cmd_buffer
  pub pins : r.adc.adc_pins ≡ io_adc_pins
  pub sampling : r.adc.converting ≡ true

adc_pins-converted :
    (samples : Option (List ℕ)) (a : Adc) → (converted samples a).adc_pins ≡ a.adc_pins
unfolding isr_adc10
adc_pins-converted none a = refl
adc_pins-converted (some block) a = refl

converting-converted :
    (samples : Option (List ℕ)) (a : Adc)
    → a.converting ≡ true
    → (converted samples a).converting ≡ true
unfolding isr_adc10
converting-converted none a h = h
converting-converted (some block) a h = refl

module _ {S : Type 0} where
  initialized-front_interrupt :
      (b : Bool) (s : Sensors S) → (front_interrupt b s).initialized ≡ s.initialized
  unfolding front_measurement_done_isr
  initialized-front_interrupt true s = refl
  initialized-front_interrupt false s = refl

  -- The interrupts fail no assertion, and do not initialize the sensors.
  pub interrupts-Running :
      (e : Surroundings) (r : Robot S)
      → Running r
      → (t : Robot S) × (interrupts e r ≡ returns t)
        × Running t
        × (t.sensors.initialized ≡ r.sensors.initialized)
  unfolding interrupts
  interrupts-Running e r h =
      let (s, p, k) = receive-Receives e.pulses r.ir h.commands in
      (
        record r {
          ir = s;
          adc = converted e.samples r.adc;
          sensors = front_interrupt e.front_done r.sensors;
        },
        ap
            (λ o. ended o >>= λ i. returns (record r {
              ir = i;
              adc = converted e.samples r.adc;
              sensors = front_interrupt e.front_done r.sensors;
            }))
            p,
        record {
          commands = k;
          pins = adc_pins-converted e.samples r.adc ∙ h.pins;
          sampling = converting-converted e.samples r.adc h.sampling;
        },
        initialized-front_interrupt e.front_done r.sensors,
      )

  read_rest-Running :
      (e : Surroundings) (r : Robot S) (a : Multiple.Reading × Sensors S)
      → Running r
      → (x : Reading) × (t : Robot S) × (read_rest e r a ≡ returns (x, t)) × Running t
  unfolding read_rest
  read_rest-Running e r (a, s) h =
      let (v, p) = qre1113_get_voltages-some r.adc e.values_garbage h.pins in
      let (c, i, q, k) = ir_remote_get_cmd-Stores r.ir h.commands in
      (
        record {
          ranges = range_reading a;
          voltages = v;
          cmd = c;
          now_check = e.now_check;
          now_start = e.now_start;
        },
        record r { sensors = s; ir = i },
        rw p (rw q refl),
        record { commands = k; pins = h.pins; sampling = h.sampling },
      )

  process-asserts :
      (m : Machine) (x : Reading) (r : Robot S) → (process m (x, r) ≡ asserts) ↔ (step x m ≡ none)
  unfolding process
  process-asserts m x r = (
    λ e. elim (Option-cases (step x m)) [
      | inl p ↦ p
      | inr (n, p) ↦ (let q = sym (ap (λ o. ended o >>= λ m'. returns (r, m')) p) ∙ e in cc)
    ],
    λ p. ap (λ o. ended o >>= λ m'. returns (r, m')) p,
  )

-- The sensors are not initialized, or their sanity check fails, or the state machine refuses what is
-- read: how a round that begins with `r` fails an assertion, behind the interrupts before it.
pub record RoundFails {S : Type 0} (i2c : I2cDriver S) (polls : ℕ) (e : Surroundings) (r : Robot S)
    (m : Machine) : Type 0 where
  pub now : Robot S
  pub comes_to : interrupts e r ≡ returns now
  pub fails :
      (now.sensors.initialized ≡ false)
      ⊎ SanityFails i2c polls e.interrupted now.sensors
      ⊎ ((x : Reading) × (t : Robot S) × (read_inputs i2c polls e now ≡ returns (x, t))
          × Refused x m)

module _ {S : Type 0} (e : Surroundings) (r : Robot S) (m : Machine) (h : Running r)
    (inv : Inv m) where
  -- What follows an end of `vl53l0x_read_range_multiple`.
  rest-asserts :
      (y : Run (Multiple.Reading × Sensors S))
      → ((y >>= read_rest e r) >>= process m) ≡ asserts
      → (y ≡ asserts)
        ⊎ ((x : Reading) × (t : Robot S) × ((y >>= read_rest e r) ≡ returns (x, t)) × Refused x m)
  rest-asserts (returns a) k =
      let (x, t, p, g) = read_rest-Running e r a h in
      inr (
        x,
        t,
        p,
        (step-none_iff x m inv).0
            ((process-asserts m x t).0 (sym (ap (λ o. o >>= process m) p) ∙ k)),
      )
  rest-asserts asserts k = inl refl
  rest-asserts hangs k = cc

  rest-returns :
      (y : Run (Multiple.Reading × Sensors S)) (r' : Robot S) (m' : Machine)
      → ((y >>= read_rest e r) >>= process m) ≡ returns (r', m')
      → Running r' × Inv m'
  unfolding process
  rest-returns (returns a) r' m' k =
      let (x, t, p, g) = read_rest-Running e r a h in
      let q : process m (x, t) ≡ returns (r', m') = sym (ap (λ o. o >>= process m) p) ∙ k in
      elim (Option-cases (step x m)) [
        | inl z ↦ (let w = sym (ap (λ o. ended o >>= λ n. returns (t, n)) z) ∙ q in cc)
        | inr (n, z) ↦
            let w : ◌≡◌ {A = Run (Robot S × Machine)} (returns (t, n)) (returns (r', m')) =
              sym (ap (λ o. ended o >>= λ n'. returns (t, n')) z) ∙ q in
            let u : t ≡ r' = cc in
            let v : n ≡ m' = cc in (subst Running u g, subst Inv v (step-Inv x m n inv z))
      ]
  rest-returns asserts r' m' k = cc
  rest-returns hangs r' m' k = cc

module _ {S : Type 0} (i2c : I2cDriver S) (total : IsTotal i2c) (polls : ℕ) (e : Surroundings) where
  round-fails :
      (r : Robot S) (m : Machine)
      → Running r
      → Inv m
      → round i2c polls e (r, m) ≡ asserts
      → RoundFails i2c polls e r m
  unfolding round read_inputs
  round-fails r m h inv k =
      let (t, p, g, i) = interrupts-Running e r h in
      record {
        now = t;
        comes_to = p;
        fails =
            elim (rest-asserts e t m g inv _
              (sym (ap (λ o. o >>= λ r1. read_inputs i2c polls e r1 >>= process m) p) ∙ k)) [
                | inl a ↦
                    elim ((vl53l0x_read_range_multiple-asserts_iff i2c total polls e.interrupted
                        (before_reading e) t.sensors).0
                      a) [ inl b ↦ inl b | inr b ↦ inr (inl b) ]
                | inr b ↦ inr (inr b)
              ];
      }

  pub RoundFails-round :
      (r : Robot S) (m : Machine)
      → Inv m
      → RoundFails i2c polls e r m
      → round i2c polls e (r, m) ≡ asserts
  unfolding round read_inputs
  RoundFails-round r m inv f =
      ap (λ o. o >>= λ r1. read_inputs i2c polls e r1 >>= process m) f.comes_to ∙ elim f.fails [
        | inl b ↦ sensors_fail (
            (vl53l0x_read_range_multiple-asserts_iff i2c total polls e.interrupted
                (before_reading e) f.now.sensors).1
              (inl b))
        | inr (inl b) ↦ sensors_fail (
            (vl53l0x_read_range_multiple-asserts_iff i2c total polls e.interrupted
                (before_reading e) f.now.sensors).1
              (inr b))
        | inr (inr (x, t, p, b)) ↦
            ap (λ o. o >>= process m) p ∙ (process-asserts m x t).1 ((step-none_iff x m inv).1 b)
      ]
    where
      sensors_fail :
          vl53l0x_read_range_multiple i2c polls e.interrupted (before_reading e) f.now.sensors
            ≡ asserts
          → (read_inputs i2c polls e f.now >>= process m) ≡ asserts
      sensors_fail q = ap (λ o. (o >>= read_rest e f.now) >>= process m) q

  -- With transfers that fail no assertion of the i2c driver, a well-formed ring of commands, the pins of
  -- `adc_init`, a started conversion and the invariant of the state machine: a round fails an assertion exactly where, behind
  -- the interrupts, the sensors are not initialized, the sanity check of `vl53l0x_read_range_multiple`
  -- fails, or the state machine refuses what the round reads.
  pub round-asserts_iff :
      (r : Robot S) (m : Machine)
      → Running r
      → Inv m
      → (round i2c polls e (r, m) ≡ asserts) ↔ RoundFails i2c polls e r m
  round-asserts_iff r m h inv = (round-fails r m h inv, RoundFails-round r m inv)

  -- A round that ends keeps all this.
  pub round-Running :
      (r r' : Robot S) (m m' : Machine)
      → Running r
      → Inv m
      → round i2c polls e (r, m) ≡ returns (r', m')
      → Running r' × Inv m'
  unfolding round read_inputs
  round-Running r r' m m' h inv k =
      let (t, p, g, i) = interrupts-Running e r h in
      rest-returns e t m g inv _ r' m'
        (sym (ap (λ o. o >>= λ r1. read_inputs i2c polls e r1 >>= process m) p) ∙ k)
