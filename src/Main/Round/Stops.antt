-- ===== src/Main/Round/Stops.antt =====
-- The program of src/main.c with the sensors that it reads: where it fails an assertion.
use nsumo_video.Prelude.{ℕ, ◌≡◌, ◌↔◌, refl, sym, ap, subst, ◌∙◌, inl, false, List, [], ◌∷◌, ◌++◌}
use nsumo_video.Drivers.I2c.Transfer.{Peripheral}
use nsumo_video.Drivers.Vl53l0x.{I2cDriver, Run, returns, asserts, hangs}
use nsumo_video.Drivers.Vl53l0x.Safe.{IsTotal}
use nsumo_video.Drivers.Vl53l0x.OnBus.{i2c_driver-IsTotal}
use nsumo_video.Drivers.Vl53l0x.Transfers.{Link, i2c_driver}
use nsumo_video.App.Machine.{Machine}
use nsumo_video.App.StateMachine.{state_machine_init}
use nsumo_video.App.StateMachine.Invariant.{Inv, state_machine_init-Inv}
use nsumo_video.Main.{Robot, motors_of, boot, ◌>>=◌}
use nsumo_video.Main.Booted.{Reset, Booted, BootsWell}
use nsumo_video.Main.Start.{boot-Booted}
use nsumo_video.Main.Round.{Surroundings, round, rounds, program}
use nsumo_video.Main.Round.Running.{
  Running, interrupts-Running, RoundFails, RoundFails-round, round-asserts_iff, round-Running,
}

-- The first rounds come to `state`, and the next one fails.
pub record Stops {S : Type 0} (i2c : I2cDriver S) (polls : ℕ) (es : List Surroundings)
    (w : Robot S × Machine) : Type 0 where
  pub before : List Surroundings
  pub surroundings : Surroundings
  pub after : List Surroundings
  pub state : Robot S × Machine
  pub split : es ≡ before ++ surroundings ∷ after
  pub reached : rounds i2c polls before w ≡ returns state
  pub fails : RoundFails i2c polls surroundings state.0 state.1

module _ {S : Type 0} (i2c : I2cDriver S) (polls : ℕ) where
  rounds-step :
      (e : Surroundings) (es : List Surroundings) (w : Robot S × Machine)
      (x : Run (Robot S × Machine))
      → round i2c polls e w ≡ x
      → rounds i2c polls (e ∷ es) w ≡ (x >>= λ v. rounds i2c polls es v)
  unfolding rounds
  rounds-step e es w x p = ap (λ o. o >>= λ v. rounds i2c polls es v) p

  Stops-cons :
      (e : Surroundings) (es : List Surroundings) (w v : Robot S × Machine)
      → round i2c polls e w ≡ returns v
      → Stops i2c polls es v
      → Stops i2c polls (e ∷ es) w
  Stops-cons e es w v p s = record {
    before = e ∷ s.before;
    surroundings = s.surroundings;
    after = s.after;
    state = s.state;
    split = ap (λ l. e ∷ l) s.split;
    reached = rounds-step e s.before w _ p ∙ s.reached;
    fails = s.fails;
  }

module _ {S : Type 0} (i2c : I2cDriver S) (total : IsTotal i2c) (polls : ℕ) where
  -- The rounds behind an end of the first one.
  later-Stops :
      (e : Surroundings) (es : List Surroundings)
      → ((r : Robot S) (m : Machine)
          → Running r
          → Inv m
          → rounds i2c polls es (r, m) ≡ asserts
          → Stops i2c polls es (r, m))
      → (r : Robot S) (m : Machine) (x : Run (Robot S × Machine)) → Running r
      → Inv m
      → round i2c polls e (r, m) ≡ x
      → (x >>= λ v. rounds i2c polls es v) ≡ asserts
      → Stops i2c polls (e ∷ es) (r, m)
  unfolding rounds
  later-Stops e es later r m (returns (r', m')) h inv p k =
      let (h', inv') = round-Running i2c total polls e r r' m m' h inv p in
      Stops-cons i2c polls e es (r, m) (r', m') p (later r' m' h' inv' k)
  later-Stops e es later r m asserts h inv p k = record {
    before = [];
    surroundings = e;
    after = es;
    state = (r, m);
    split = refl;
    reached = refl;
    fails = (round-asserts_iff i2c total polls e r m h inv).0 p;
  }
  later-Stops e es later r m hangs h inv p k = cc

  pub rounds-Stops :
      (es : List Surroundings) (r : Robot S) (m : Machine)
      → Running r
      → Inv m
      → rounds i2c polls es (r, m) ≡ asserts
      → Stops i2c polls es (r, m)
  unfolding rounds
  rounds-Stops [] r m h inv k = cc
  rounds-Stops (e ∷ es) r m h inv k =
      later-Stops e es (rounds-Stops es) r m (round i2c polls e (r, m)) h inv refl k

  later-asserts :
      (d e : Surroundings) (before after : List Surroundings) (v : Robot S × Machine)
      → ((r : Robot S) (m : Machine)
          → Running r
          → Inv m
          → rounds i2c polls before (r, m) ≡ returns v
          → rounds i2c polls (before ++ e ∷ after) (r, m) ≡ asserts)
      → (r : Robot S) (m : Machine) (x : Run (Robot S × Machine)) → Running r
      → Inv m
      → round i2c polls d (r, m) ≡ x
      → (x >>= λ w. rounds i2c polls before w) ≡ returns v
      → (x >>= λ w. rounds i2c polls (before ++ e ∷ after) w) ≡ asserts
  later-asserts d e before after v later r m (returns (r', m')) h inv p q =
      let (h', inv') = round-Running i2c total polls d r r' m m' h inv p in later r' m' h' inv' q
  later-asserts d e before after v later r m asserts h inv p q = cc
  later-asserts d e before after v later r m hangs h inv p q = cc

  stops_after :
      (before after : List Surroundings) (e : Surroundings) (r : Robot S) (m : Machine)
      (v : Robot S × Machine)
      → Running r
      → Inv m
      → rounds i2c polls before (r, m) ≡ returns v
      → RoundFails i2c polls e v.0 v.1
      → rounds i2c polls (before ++ e ∷ after) (r, m) ≡ asserts
  unfolding rounds
  stops_after [] after e r m (r', m') h inv k f =
      let p : ◌≡◌ {A = Robot S × Machine} (r', m') (r, m) = cc in
      rounds-step i2c polls e after (r, m) asserts
        (RoundFails-round i2c total polls e r m inv
          (subst (λ w. RoundFails i2c polls e w.0 w.1) p f))
  stops_after (d ∷ before) after e r m v h inv k f =
      later-asserts d e before after v
        (λ r' m' h' inv' q. stops_after before after e r' m' v h' inv' q f) r m
        (round i2c polls d (r, m)) h inv refl k

  pub Stops-rounds :
      (es : List Surroundings) (r : Robot S) (m : Machine)
      → Running r
      → Inv m
      → Stops i2c polls es (r, m)
      → rounds i2c polls es (r, m) ≡ asserts
  Stops-rounds es r m h inv s =
      subst (λ l. rounds i2c polls l (r, m) ≡ asserts) (sym s.split)
        (stops_after s.before s.after s.surroundings r m s.state h inv s.reached s.fails)

-- The rounds behind an end of the start.
Booted-asserts :
    (p : Peripheral) (polls : ℕ) (es : List Surroundings) (r : Robot Link) (x : Run (Robot Link))
    → BootsWell (Booted r) x
    → ((x >>= λ t. rounds (i2c_driver p) polls es (t, state_machine_init (motors_of t))) ≡ asserts)
      ↔ ((t : Robot Link) × (x ≡ returns t)
          × Stops (i2c_driver p) polls es (t, state_machine_init (motors_of t)))
unfolding BootsWell
Booted-asserts p polls es r (returns t) h =
    let run : Running t = record {
      commands = h.commands;
      pins = h.channels.1;
      sampling = h.sampling;
    } in
    let inv = state_machine_init-Inv (motors_of t) h.motors in
    (
      λ k. (t, refl, rounds-Stops (i2c_driver p) (i2c_driver-IsTotal p) polls es t _ run inv k),
      λ (u, q, s).
          let e : u ≡ t = cc in
          Stops-rounds (i2c_driver p) (i2c_driver-IsTotal p) polls es t _ run inv
            (subst (λ v. Stops (i2c_driver p) polls es (v, state_machine_init (motors_of v))) e s),
    )
Booted-asserts p polls es r asserts h = absurd h
Booted-asserts p polls es r hangs h = (λ k. cc, λ (t, q, s). cc)

-- For any I2C peripheral, from the power on of an Nsumo board, and for any surroundings of the rounds:
-- pulses of a remote, samples of the line sensors, interrupts of the front range sensor and times. The
-- program fails an assertion within these rounds exactly where the start returns and, in a state
-- that the rounds before it come to, a round fails: the range sensors were not initialized, or all
-- measurements count as ready but the front sensor, whose interrupt came, denies it or does not answer, or the state
-- machine refuses what is read, as `step-none_iff` says.
pub program-asserts_iff :
    (p : Peripheral) (polls : ℕ) (es : List Surroundings) (r : Robot Link)
    → Reset r
    → (program (i2c_driver p) polls es r ≡ asserts) ↔ (
        (t : Robot Link) × (boot (i2c_driver p) polls r ≡ returns t)
        × Stops (i2c_driver p) polls es (t, state_machine_init (motors_of t)))
unfolding program
program-asserts_iff p polls es r h =
    Booted-asserts p polls es r (boot (i2c_driver p) polls r) (boot-Booted p polls r h)

-- For any I2C peripheral, from the power on of an Nsumo board: where the start of the range sensors has
-- failed, which `main` does not look at, the first round of `state_machine_run` fails an assertion, whatever its
-- surroundings.
pub program-failed_sensors :
    (p : Peripheral) (polls : ℕ) (e : Surroundings) (es : List Surroundings) (r t : Robot Link)
    → Reset r
    → boot (i2c_driver p) polls r ≡ returns t
    → t.enemy_initialized ≡ false
    → program (i2c_driver p) polls (e ∷ es) r ≡ asserts
unfolding BootsWell rounds
program-failed_sensors p polls e es r t h k off =
    let b : Booted r t = subst (BootsWell (Booted r)) k (boot-Booted p polls r h) in
    let (now, c, g, i) =
      interrupts-Running e t
        (record { commands = b.commands; pins = b.channels.1; sampling = b.sampling }) in
    (program-asserts_iff p polls (e ∷ es) r h).1 (
      t,
      k,
      record {
        before = [];
        surroundings = e;
        after = es;
        state = (t, state_machine_init (motors_of t));
        split = refl;
        reached = refl;
        fails = record { now = now; comes_to = c; fails = inl (i ∙ b.sensors_on ∙ off) };
      },
    )
