-- ===== src/Drivers/Io.antt =====
-- src/drivers/io.c and io.h, for the build with NSUMO defined: three ports of eight pins. A pin is
-- its enumerator's value (`io_e`). The memory-mapped registers of one kind are a list of bytes, one
-- for each port.
pub mod Pins
pub mod Bytes
pub mod Configure
pub mod Interrupts
use nsumo_video.Prelude.{
  ◌==◌, if◌then◌else◌, get_or, set, ◌>>=◌, ◌>>◌, assert, ℕ, ◌+◌, ◌/◌, bit_and, Bool, true, false,
  ◌&&◌, Option, some, List, [], ◌∷◌,
}
use nsumo_video.Drivers.Bits.{set_bit, clear_bit, test_bit}
use nsumo_video.Drivers.Io.Pins.{io_10, io_34}

-- `io_port`: (io & IO_PORT_MASK) >> IO_PORT_OFFSET
unfoldable pub io_port : ℕ → ℕ
io_port io = bit_and io 0x18 / 8

-- `io_pin_idx`
unfoldable pub io_pin_idx : ℕ → ℕ
io_pin_idx io = bit_and io 0x7

-- `*regs[port] |= pin`
unfoldable pub reg_set : ℕ → List ℕ → List ℕ
reg_set io regs = set regs (io_port io) (set_bit (get_or regs (io_port io) 0) (io_pin_idx io))

-- `*regs[port] &= ~pin`
unfoldable pub reg_clear : ℕ → List ℕ → List ℕ
reg_clear io regs = set regs (io_port io) (clear_bit (get_or regs (io_port io) 0) (io_pin_idx io))

-- `*regs[port] & pin`
unfoldable pub reg_test : ℕ → List ℕ → Bool
reg_test io regs = test_bit (get_or regs (io_port io) 0) (io_pin_idx io)

-- `io_select_e`
pub data Select : Type 0 where
  gpio alt1 alt2 alt3 : Select

-- `io_resistor_e`
pub data Resistor : Type 0 where
  disabled enabled : Resistor

-- `io_dir_e`
pub data Dir : Type 0 where
  input output : Dir

-- `io_out_e`
pub data Out : Type 0 where
  low high : Out

-- `struct io_config`
pub record Config : Type 0 where
  pub select : Select
  pub resistor : Resistor
  pub dir : Dir
  pub out : Out

-- The registers PxDIR, PxREN, PxOUT, PxIN, PxSEL and PxSEL2.
pub record Registers : Type 0 where
  pub dir : List ℕ
  pub ren : List ℕ
  pub out : List ℕ
  pub inp : List ℕ
  pub sel1 : List ℕ
  pub sel2 : List ℕ

unfoldable pub io_set_select : ℕ → Select → Registers → Registers
io_set_select io Select.gpio r = record r { sel1 = reg_clear io r.sel1; sel2 = reg_clear io r.sel2 }
io_set_select io Select.alt1 r = record r { sel1 = reg_set io r.sel1; sel2 = reg_clear io r.sel2 }
io_set_select io Select.alt2 r = record r { sel1 = reg_clear io r.sel1; sel2 = reg_set io r.sel2 }
io_set_select io Select.alt3 r = record r { sel1 = reg_set io r.sel1; sel2 = reg_set io r.sel2 }

unfoldable pub io_set_direction : ℕ → Dir → Registers → Registers
io_set_direction io Dir.input r = record r { dir = reg_clear io r.dir }
io_set_direction io Dir.output r = record r { dir = reg_set io r.dir }

unfoldable pub io_set_resistor : ℕ → Resistor → Registers → Registers
io_set_resistor io Resistor.disabled r = record r { ren = reg_clear io r.ren }
io_set_resistor io Resistor.enabled r = record r { ren = reg_set io r.ren }

unfoldable pub io_set_out : ℕ → Out → Registers → Registers
io_set_out io Out.low r = record r { out = reg_clear io r.out }
io_set_out io Out.high r = record r { out = reg_set io r.out }

unfoldable pub io_configure : ℕ → Config → Registers → Registers
unfolding io_set_select io_set_direction io_set_out io_set_resistor
io_configure io c r =
    io_set_resistor io c.resistor
      (io_set_out io c.out (io_set_direction io c.dir (io_set_select io c.select r)))

-- `(io_select_e)((sel2 << 1) | sel1)`
select_of : Bool → Bool → Select
select_of false false = Select.gpio
select_of false true = Select.alt1
select_of true false = Select.alt2
select_of true true = Select.alt3

unfoldable pub io_get_current_config : ℕ → Registers → Config
unfolding select_of
io_get_current_config io r = record {
  select = select_of (reg_test io r.sel2) (reg_test io r.sel1);
  resistor = if reg_test io r.ren then Resistor.enabled else Resistor.disabled;
  dir = if reg_test io r.dir then Dir.output else Dir.input;
  out = if reg_test io r.out then Out.high else Out.low;
}

-- The level that a pin is read at, `io_get_input`: true is IO_IN_HIGH.
unfoldable pub io_get_input : ℕ → Registers → Bool
io_get_input io r = reg_test io r.inp

abbrev select_index : Select → ℕ
select_index Select.gpio = 0
select_index Select.alt1 = 1
select_index Select.alt2 = 2
select_index Select.alt3 = 3

abbrev resistor_index : Resistor → ℕ
resistor_index Resistor.disabled = 0
resistor_index Resistor.enabled = 1

abbrev dir_index : Dir → ℕ
dir_index Dir.input = 0
dir_index Dir.output = 1

abbrev out_index : Out → ℕ
out_index Out.low = 0
out_index Out.high = 1

unfoldable pub io_config_compare : Config → Config → Bool
io_config_compare a b =
    dir_index a.dir == dir_index b.dir
    && out_index a.out == out_index b.out
    && resistor_index a.resistor == resistor_index b.resistor
    && select_index a.select == select_index b.select

-- ADC_CONFIG. It is also the configuration of a pin that the array does not name, whose entry C fills
-- with zeros, and of the two input pins.
abbrev pub input_config : Config
input_config = record {
  select = Select.gpio;
  resistor = Resistor.disabled;
  dir = Dir.input;
  out = Out.low;
}

abbrev pub output_config : Select → Config
output_config select = record {
  select = select;
  resistor = Resistor.disabled;
  dir = Dir.output;
  out = Out.low;
}

-- `io_initial_configs`, in the order of the pins IO_10 to IO_37. The array names neither IO_UNUSED_1
-- (IO_23) nor IO_UNUSED_2 (IO_34).
unfoldable pub io_initial_configs : List Config
io_initial_configs =
    input_config
    ∷ output_config Select.alt3
    ∷ output_config Select.alt3
    ∷ input_config
    ∷ input_config
    ∷ input_config
    ∷ output_config Select.alt3
    ∷ output_config Select.alt3
    ∷ input_config
    ∷ input_config
    ∷ output_config Select.gpio
    ∷ input_config
    ∷ output_config Select.gpio
    ∷ output_config Select.gpio
    ∷ output_config Select.gpio
    ∷ output_config Select.gpio
    ∷ output_config Select.gpio
    ∷ output_config Select.gpio
    ∷ output_config Select.gpio
    ∷ output_config Select.gpio
    ∷ input_config
    ∷ output_config Select.alt1
    ∷ output_config Select.alt1
    ∷ output_config Select.gpio
    ∷ []

-- The loop of `io_init`.
unfoldable pub configure_from : ℕ → List Config → Registers → Registers
configure_from io [] r = r
configure_from io (c ∷ cs) r = configure_from (io + 1) cs (io_configure io c r)

-- `io_detect_hw_type`: pin 3.4 is made a floating input, and is high on the Nsumo board. The five
-- register writes are those of `io_configure`, in another order.
unfoldable pub io_detect_hw_type : Registers → Bool × Registers
unfolding io_configure
io_detect_hw_type r = (io_get_input io_34 r, io_configure io_34 input_config r)

unfoldable pub io_init : Registers → Option Registers
unfolding configure_from io_detect_hw_type io_initial_configs
io_init r = do
  let d = io_detect_hw_type r
  assert d.0
  some (configure_from io_10 io_initial_configs d.1)
