-- ===== src/Main/Loop.antt =====
-- `main` of src/main.c as a whole: the start, and the rounds of `state_machine_run` behind it.
use nsumo_video.Prelude.{
  Option-cases, ℕ, ◌≡◌, ◌↔◌, refl, sym, ap, subst, ◌∙◌, inl, inr, Option, none, some, List,
}
use nsumo_video.Drivers.I2c.Transfer.{Peripheral}
use nsumo_video.Drivers.Vl53l0x.{Run, returns, asserts, hangs}
use nsumo_video.Drivers.Vl53l0x.Transfers.{Link, i2c_driver}
use nsumo_video.App.Machine.{Machine}
use nsumo_video.App.StateMachine.{Reading, state_machine_init, run}
use nsumo_video.App.StateMachine.Invariant.{Inv, state_machine_init-Inv}
use nsumo_video.App.StateMachine.Halting.{run-Inv}
use nsumo_video.Main.{Robot, motors_of, ended, boot, main, ◌>>=◌}
use nsumo_video.Main.Booted.{Reset, Booted, BootsWell}
use nsumo_video.Main.Start.{boot-Booted}
use nsumo_video.App.StateMachine.Stopped.{Stopped, run-Stopped, Stopped-run}

ended-asserts : {A : Type 0} → (o : Option A) → (ended o ≡ asserts) ↔ (o ≡ none)
ended-asserts none = (λ e. refl, λ e. refl)
ended-asserts (some a) = (λ e. cc, λ e. cc)

-- The loop behind an end of the start.
loop-asserts :
    (readings : List Reading) (r : Robot Link) (x : Run (Robot Link))
    → BootsWell (Booted r) x
    → ((x >>= λ t. ended (run readings (state_machine_init (motors_of t)))) ≡ asserts)
      ↔ ((t : Robot Link) × (x ≡ returns t) × Stopped readings (state_machine_init (motors_of t)))
unfolding BootsWell
loop-asserts readings r (returns t) h = (
  λ e.
      (t, refl, run-Stopped readings _ (state_machine_init-Inv _ h.motors) ((ended-asserts _).0 e)),
  λ (u, q, s). (ended-asserts _).1 (
      Stopped-run readings (state_machine_init (motors_of t)) (state_machine_init-Inv _ h.motors) (
        let p : u ≡ t = cc in
        subst (λ v. Stopped readings (state_machine_init (motors_of v))) p s)),
)
loop-asserts readings r asserts h = absurd h
loop-asserts readings r hangs h = (λ e. cc, λ (t, q, s). cc)

-- For any I2C peripheral, from the power on of an Nsumo board, with what each round reads of the sensors
-- and of the remote as an input: `main` fails an assertion within the rounds that are looked at exactly
-- where the start returns and one of the rounds is refused, in a state that the rounds before it come
-- to: FINISHED is pending in manual mode, an attack times out, or a diagonal line is seen in a search,
-- an attack or a retreat, each as `step-none_iff` says.
main-asserts_iff :
    (p : Peripheral) (polls : ℕ) (readings : List Reading) (r : Robot Link)
    → Reset r
    → (main (i2c_driver p) polls readings r ≡ asserts) ↔ (
        (t : Robot Link) × (boot (i2c_driver p) polls r ≡ returns t)
        × Stopped readings (state_machine_init (motors_of t)))
unfolding main
main-asserts_iff p polls readings r h =
    loop-asserts readings r (boot (i2c_driver p) polls r) (boot-Booted p polls r h)

loop-Inv :
    (readings : List Reading) (r : Robot Link) (x : Run (Robot Link)) (m : Machine)
    → BootsWell (Booted r) x
    → (x >>= λ t. ended (run readings (state_machine_init (motors_of t)))) ≡ returns m
    → Inv m
unfolding BootsWell
loop-Inv readings r (returns t) m h e =
    elim (Option-cases (run readings (state_machine_init (motors_of t)))) [
      | inl p ↦ (let q = sym (ap ended p) ∙ e in cc)
      | inr (n, p) ↦
          let q = sym (ap ended p) ∙ e in
          let s : n ≡ m = cc in subst Inv s (run-Inv readings (motors_of t) n h.motors p)
    ]
loop-Inv readings r asserts m h e = cc
loop-Inv readings r hangs m h e = cc

-- For any I2C peripheral, from the power on of an Nsumo board: where `main` has run its start and some
-- rounds without a failed assertion, the invariant of the state machine holds.
main-Inv :
    (p : Peripheral) (polls : ℕ) (readings : List Reading) (r : Robot Link) (m : Machine)
    → Reset r
    → main (i2c_driver p) polls readings r ≡ returns m
    → Inv m
unfolding main
main-Inv p polls readings r m h e =
    loop-Inv readings r (boot (i2c_driver p) polls r) m (boot-Booted p polls r h) e
