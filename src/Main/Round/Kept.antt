-- ===== src/Main/Round/Kept.antt =====
-- The program of src/main.c with the sensors that it reads: what every round keeps.
use nsumo_video.Prelude.{ℕ, ◌≡◌, refl, subst, List, [], ◌∷◌}
use nsumo_video.Drivers.Vl53l0x.{I2cDriver, Run, returns, asserts, hangs}
use nsumo_video.Drivers.Vl53l0x.Safe.{IsTotal}
use nsumo_video.App.Machine.{Machine}
use nsumo_video.App.StateMachine.{state_machine_init}
use nsumo_video.App.StateMachine.Invariant.{Inv, state_machine_init-Inv}
use nsumo_video.Main.{Robot, motors_of, boot, ◌>>=◌}
use nsumo_video.Main.Booted.{Reset, Booted, BootsWell}
use nsumo_video.Main.Start.{boot-BootsWell}
use nsumo_video.Main.Round.{Surroundings, round, rounds, program}
use nsumo_video.Main.Round.Running.{Running, round-Running}

module _ {S : Type 0} (i2c : I2cDriver S) (total : IsTotal i2c) (polls : ℕ) (r' : Robot S)
    (m' : Machine) where
  later-Running :
      (e : Surroundings) (es : List Surroundings)
      → ((r : Robot S) (m : Machine)
          → Running r
          → Inv m
          → rounds i2c polls es (r, m) ≡ returns (r', m')
          → Running r' × Inv m')
      → (r : Robot S) (m : Machine) (x : Run (Robot S × Machine)) → Running r
      → Inv m
      → round i2c polls e (r, m) ≡ x
      → (x >>= λ v. rounds i2c polls es v) ≡ returns (r', m')
      → Running r' × Inv m'
  later-Running e es later r m (returns (s, n)) h inv p k =
      let (h', inv') = round-Running i2c total polls e r s m n h inv p in later s n h' inv' k
  later-Running e es later r m asserts h inv p k = cc
  later-Running e es later r m hangs h inv p k = cc

  rounds-Running :
      (es : List Surroundings) (r : Robot S) (m : Machine)
      → Running r
      → Inv m
      → rounds i2c polls es (r, m) ≡ returns (r', m')
      → Running r' × Inv m'
  unfolding rounds
  rounds-Running [] r m h inv k =
      let p : r ≡ r' = cc in let q : m ≡ m' = cc in (subst Running p h, subst Inv q inv)
  rounds-Running (e ∷ es) r m h inv k =
      later-Running e es (rounds-Running es) r m (round i2c polls e (r, m)) h inv refl k

module _ {S : Type 0} (i2c : I2cDriver S) (total : IsTotal i2c) (polls : ℕ) (es : List Surroundings)
    (r r' : Robot S) (m' : Machine) where
  Booted-Running :
      (x : Run (Robot S))
      → BootsWell (Booted r) x
      → (x >>= λ t. rounds i2c polls es (t, state_machine_init (motors_of t))) ≡ returns (r', m')
      → Running r' × Inv m'
  unfolding BootsWell
  Booted-Running (returns t) h k =
      rounds-Running i2c total polls r' m' es t (state_machine_init (motors_of t))
        (record { commands = h.commands; pins = h.channels.1; sampling = h.sampling })
        (state_machine_init-Inv (motors_of t) h.motors) k
  Booted-Running asserts h k = absurd h
  Booted-Running hangs h k = cc

  -- For any I2C driver whose transfers fail no assertion, as that of i2c.c over any peripheral, from the
  -- power on of an Nsumo board, and for any surroundings of the rounds: where the program has run its
  -- start and these rounds, the ring of commands is well formed, the converter still reads the pins of
  -- the line sensors and has its next conversion started, and the invariant of the state machine holds.
  pub program-Running : Reset r → program i2c polls es r ≡ returns (r', m') → Running r' × Inv m'
  unfolding program
  program-Running h k = Booted-Running (boot i2c polls r) (boot-BootsWell i2c total polls r h) k
