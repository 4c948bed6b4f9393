-- ===== src/Drivers.antt =====
-- The drivers (src/drivers).
pub mod Bits
pub mod Usci
pub mod Io
pub mod Pwm
pub mod IrRemote
pub mod Tb6612fng
pub mod I2c
pub mod Vl53l0x
pub mod Uart
pub mod Adc
pub mod Led
pub mod McuInit
pub mod Fixtures
mod Tests
mod I2cTests
mod PinTests
mod UartTests
