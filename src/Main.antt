-- ===== src/Main.antt =====
-- src/main.c: the start of every part, and the loop behind it. The interrupts that come meanwhile, and the
-- traces of a failed start, are left out. A failed assertion and a polling loop that does not end are
-- as in Drivers.Vl53l0x.
pub mod Booted
pub mod Start
pub mod Loop
pub mod Round
mod Fixtures
mod Tests
use nsumo_video.Prelude.{ℕ, Bool, true, Option, none, some, List}
use nsumo_video.Common.Trace.{trace_init}
use nsumo_video.Drivers.Adc.{Adc, line_init}
use nsumo_video.Drivers.IrRemote.{Ir}
use nsumo_video.Drivers.IrRemote.Start.{IrTimer, ir_remote_init}
use nsumo_video.Drivers.McuInit.{Mcu, mcu_init}
use nsumo_video.Drivers.Pwm.{Pwm}
use nsumo_video.Drivers.Tb6612fng.{Motors}
use nsumo_video.Drivers.Uart.{Uart}
use nsumo_video.Drivers.Vl53l0x.{I2cDriver, Sensors, Run, returns, asserts, hangs}
use nsumo_video.App.Drive.{drive_init}
use nsumo_video.App.Enemy.Start.{enemy_init}
use nsumo_video.App.Machine.{Machine}
use nsumo_video.App.StateMachine.{Reading, state_machine_init, run}

-- The static variables of all parts, and the registers. The port registers and the interrupt table are
-- in `sensors`. The last parts are the `initialized` of trace.c, tb6612fng.c, drive.c, enemy.c,
-- qre1113.c and line.c.
pub record Robot (S : Type 0) : Type 0 where
  pub mcu : Mcu
  pub uart : Uart
  pub pwm : Pwm
  pub sensors : Sensors S
  pub adc : Adc
  pub ir : Ir
  pub ir_timer : IrTimer
  pub trace_initialized : Bool
  pub tb6612fng_initialized : Bool
  pub drive_initialized : Bool
  pub enemy_initialized : Bool
  pub qre1113_initialized : Bool
  pub line_initialized : Bool

-- The part of the state that src/app/drive.c works on.
abbrev pub motors_of : {S : Type 0} → Robot S → Motors
motors_of r = record { io = r.sensors.io; pwm = r.pwm; initialized = r.tb6612fng_initialized }

infixl 5 ◌>>=◌
abbrev pub ◌>>=◌ : {A B : Type 0} → Run A → (A → Run B) → Run B
returns a >>= f = f a
asserts >>= f = asserts
hangs >>= f = hangs

-- A call that does not wait for the hardware.
abbrev pub ended : {A : Type 0} → Option A → Run A
ended none = asserts
ended (some a) = returns a

module _ {S : Type 0} where
  unfoldable pub start_mcu : Robot S → Run (Robot S)
  unfolding mcu_init
  start_mcu r = do
    (m, io) ← ended (mcu_init r.mcu r.sensors.io)
    returns (record r { mcu = m; sensors = record r.sensors { io = io } })

  unfoldable pub start_trace : Robot S → Run (Robot S)
  unfolding trace_init
  start_trace r = do
    (b, u) ← ended (trace_init (r.trace_initialized, r.uart))
    returns (record r { trace_initialized = b; uart = u })

  unfoldable pub start_drive : Robot S → Run (Robot S)
  unfolding drive_init
  start_drive r = do
    (b, m) ← ended (drive_init r.drive_initialized (motors_of r))
    returns (record r {
      drive_initialized = b;
      pwm = m.pwm;
      tb6612fng_initialized = m.initialized;
      sensors = record r.sensors { io = m.io };
    })

  unfoldable pub start_line : Robot S → Run (Robot S)
  unfolding line_init
  start_line r = do
    a ← ended (line_init r.line_initialized r.qre1113_initialized r.adc)
    returns (record r { adc = a; qre1113_initialized = true; line_initialized = true })

  unfoldable pub start_ir : Robot S → Run (Robot S)
  unfolding ir_remote_init
  start_ir r = do
    (i, s, t) ← ended (ir_remote_init r.sensors.interrupts (r.ir, r.ir_timer))
    returns (record r { sensors = record r.sensors { interrupts = i }; ir = s; ir_timer = t })

module _ {S : Type 0} (i2c : I2cDriver S) (polls : ℕ) where
  unfoldable pub start_enemy : Robot S → Run (Robot S)
  unfolding enemy_init
  start_enemy r = do
    (b, s) ← enemy_init i2c polls r.enemy_initialized r.sensors
    returns (record r { enemy_initialized = b; sensors = s })

  -- The calls in `main` before `state_machine_run`.
  unfoldable pub boot : Robot S → Run (Robot S)
  unfolding start_mcu start_trace start_drive start_enemy start_line start_ir
  boot r = do
    r1 ← start_mcu r
    r2 ← start_trace r1
    r3 ← start_drive r2
    r4 ← start_enemy r3
    r5 ← start_line r4
    start_ir r5

  -- `main` with the first rounds of `state_machine_run`.
  unfoldable pub main : List Reading → Robot S → Run Machine
  unfolding boot run
  main readings r = do t ← boot r; ended (run readings (state_machine_init (motors_of t)))
