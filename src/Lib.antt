-- ===== src/Lib.antt =====
-- The firmware of a mini sumo robot (src/app, src/common, src/drivers), as it is compiled for the
-- robot: with NSUMO defined, and with DISABLE_IR_REMOTE and DISABLE_ENUM_STRINGS not defined.
--
-- The robot runs one loop, `state_machine_run` in src/app/state_machine.c. Each round reads the
-- sensors and the remote, saves the input in a history, chooses one event, and enters a state by the
-- table of transitions. The states start motor movements and a timer. The parts are layered:
--
-- * App.StateMachine is src/app/state_machine.c: the table, `process_input`, `process_event`,
--   `state_enter`, one round (`step`) and the rounds of a run (`run`). App.StateWait, App.StateSearch,
--   App.StateAttack, App.StateRetreat and App.StateManual are src/app/state_*.c, and App.Machine is the
--   structure that all of them work on. The C structure has pointers among its own parts only, and so
--   the model is one record without aliases.
-- * App.InputHistory, App.Timer, App.Enemy, App.Line and App.Drive are the C files of those names.
--   App.Types, App.Index and App.Cmd are the enums of the headers and their values.
-- * Common.RingBuffer, Common.EnumToString and Common.AssertHandler are the files in src/common.
--   Drivers.Io (with Drivers.Io.Interrupts for the port interrupts), Drivers.Pwm, Drivers.Tb6612fng,
--   Drivers.IrRemote, Drivers.I2c, Drivers.Uart, Drivers.Adc (with qre1113.c), Drivers.Led and
--   Drivers.Vl53l0x are the files in src/drivers, and Drivers.Bits and Drivers.Usci hold the register operations
--   that they share.
-- * Drivers.Vl53l0x is src/drivers/vl53l0x.c: its children Spads, Setup, Boot, Ranging and Multiple
--   hold the functions, from the choice of the SPADs to `vl53l0x_read_range_multiple`. They are written
--   over an interface, `I2cDriver`, for the functions of src/drivers/i2c.c; Drivers.Vl53l0x.Transfers
--   fills it with the model of those. App.Enemy.Ranges puts `enemy_get` on top, and App.Enemy.Start
--   `enemy_init`.
-- * Main is src/main.c: `boot` are its calls before the loop, over the static variables of all parts, and
--   `main` is the whole, over what each round reads. Main.Round puts the range sensors, the line sensors and
--   the infrared receiver under each round (`read_inputs`), with the interrupts that come before it as an
--   input; there `program` is the whole. Drivers.McuInit is src/drivers/mcu_init.c, Drivers.IrRemote.Start the start of
--   src/drivers/ir_remote.c, and Common.Trace is src/common/trace.c, which takes the text that the
--   printf library (a submodule) makes as an argument.
-- * Prelude holds the names and lemmas that all parts share. The modules whose names end in Tests, and
--   Fixtures, hold concrete values and runs.
--
-- How the code is read. A failed ASSERT never returns (src/common/assert_handler.c), and so a function
-- that can fail one returns an Option that is `none` there; the functions of vl53l0x.c return a `Run`,
-- which is one of a value, a failed assertion, and no end. Unsigned integers are natural numbers with
-- the wrap of their width written out where the code can reach it. An interrupt is one step. A call
-- of the hardware below a modelled part is a part of its input: a round takes a `Reading`, with the
-- three front ranges, the voltages of src/drivers/qre1113.c, the command, and what `millis` returns at
-- the test of the timer and at its start. Nothing is assumed of these values. The I2C transfers take
-- what the peripheral shows during each wait, and record what is done to it. The serial line has the
-- byte that is on its way out and the bytes that have left; `transmitted` is the peripheral's part.
-- The motors are modelled down to the bits of the port registers and the compare registers.
--
-- Loops. A loop over a list, over the rounds of a run or over the retries that the code counts is a
-- recursion on these. The loops that wait for the hardware are on fuel: `poll` of
-- Drivers.Vl53l0x (the reads of a register), `put_when_room` of Drivers.Uart (the tests of a full
-- buffer) and `poll_flag` of Drivers.Uart.Polling (the tests of the transmit flag). The fuel that is
-- enough is part of the results: for the first, more reads than come before one that ends the loop;
-- for the others, two. `run` takes the readings of the rounds that are looked
-- at, `rounds` of Main.Round the surroundings of these rounds, and `assert_handler` the rounds of its endless loop.
--
-- Control registers that are written once, by named constants of the processor's header (which is no
-- part of the repository), are records of the fields that these constants stand for.
--
-- Not modelled: src/common/sleep.c, which does nothing, and the interrupts that come while `main` starts
-- the parts. The test programs in src/test run on the board.
pub mod Prelude
pub mod Common
pub mod Drivers
pub mod App
pub mod Main
