-- ===== src/App/Cmd.antt =====
-- `ir_cmd_e` of src/drivers/ir_remote.h. A received command is any byte, so it is a number here,
-- and the enumerators are constants.
use Prim.Native.Nat.{ℕ}

abbrev pub ir_cmd_0 : ℕ
ir_cmd_0 = 0x98

abbrev pub ir_cmd_1 : ℕ
ir_cmd_1 = 0xA2

abbrev pub ir_cmd_2 : ℕ
ir_cmd_2 = 0x62

abbrev pub ir_cmd_3 : ℕ
ir_cmd_3 = 0xE2

abbrev pub ir_cmd_4 : ℕ
ir_cmd_4 = 0x22

abbrev pub ir_cmd_5 : ℕ
ir_cmd_5 = 0x02

abbrev pub ir_cmd_6 : ℕ
ir_cmd_6 = 0xC2

abbrev pub ir_cmd_7 : ℕ
ir_cmd_7 = 0xE0

abbrev pub ir_cmd_8 : ℕ
ir_cmd_8 = 0xA8

abbrev pub ir_cmd_9 : ℕ
ir_cmd_9 = 0x90

abbrev pub ir_cmd_star : ℕ
ir_cmd_star = 0x68

abbrev pub ir_cmd_hash : ℕ
ir_cmd_hash = 0xB0

abbrev pub ir_cmd_up : ℕ
ir_cmd_up = 0x18

abbrev pub ir_cmd_down : ℕ
ir_cmd_down = 0x4A

abbrev pub ir_cmd_left : ℕ
ir_cmd_left = 0x10

abbrev pub ir_cmd_right : ℕ
ir_cmd_right = 0x5A

abbrev pub ir_cmd_ok : ℕ
ir_cmd_ok = 0x38

abbrev pub ir_cmd_none : ℕ
ir_cmd_none = 0xFF
