-- ===== src/Pins/PortC.antt =====
-- The pins of port C in include/oomwoo_pins.h: one constructor for each `PIN_` macro, and what
-- the header says of it.
use oomwoo_firmware.Prelude.{[], ◌∷◌, List}
use oomwoo_firmware.Pins.Pin.{Pin}

pub data PortC : Type 0 where
  vl_i2c_reset : PortC
  cliff_led_en : PortC
  lidar_motor_ctrl : PortC
  bump_l_led_en : PortC
  stm32_tx : PortC
  stm32_rx : PortC
  i2c4_scl : PortC
  i2c4_sda : PortC
  rear_ir_l : PortC
  rear_ir_r : PortC
  spare_pc10_tx : PortC
  spare_pc11_rx : PortC
  lidar_rxd : PortC
  led_home : PortC

unfoldable pub pin : PortC → Pin
pin vl_i2c_reset = record {
  name = "PC0";
  port = "GPIOC";
  num = 0;
  package_pin = 15;
  net = "/VL-I2C-RESET";
}
pin cliff_led_en = record {
  name = "PC1";
  port = "GPIOC";
  num = 1;
  package_pin = 16;
  net = "/CLIFF/CLIFF_LED_EN";
}
pin lidar_motor_ctrl = record {
  name = "PC2";
  port = "GPIOC";
  num = 2;
  package_pin = 17;
  net = "/LIDAR/LIDAR-MOTOR-CTRL";
}
pin bump_l_led_en = record {
  name = "PC3";
  port = "GPIOC";
  num = 3;
  package_pin = 18;
  net = "/Bumper Sensors/BUMP_L_LED_EN";
}
pin stm32_tx = record {
  name = "PC4";
  port = "GPIOC";
  num = 4;
  package_pin = 30;
  net = "/MCU-STM32/STM32-TX";
}
pin stm32_rx = record {
  name = "PC5";
  port = "GPIOC";
  num = 5;
  package_pin = 31;
  net = "/MCU-STM32/STM32-RX";
}
pin i2c4_scl = record { name = "PC6"; port = "GPIOC"; num = 6; package_pin = 65; net = "/I2C4_SCL" }
pin i2c4_sda = record { name = "PC7"; port = "GPIOC"; num = 7; package_pin = 66; net = "/I2C4_SDA" }
pin rear_ir_l = record {
  name = "PC8";
  port = "GPIOC";
  num = 8;
  package_pin = 67;
  net = "/REAR-IR-L";
}
pin rear_ir_r = record {
  name = "PC9";
  port = "GPIOC";
  num = 9;
  package_pin = 68;
  net = "/REAR-IR-R";
}
pin spare_pc10_tx = record {
  name = "PC10";
  port = "GPIOC";
  num = 10;
  package_pin = 79;
  net = "/MCU-STM32/SPARE-PC10-TX";
}
pin spare_pc11_rx = record {
  name = "PC11";
  port = "GPIOC";
  num = 11;
  package_pin = 80;
  net = "/MCU-STM32/SPARE-PC11-RX";
}
pin lidar_rxd = record {
  name = "PC12";
  port = "GPIOC";
  num = 12;
  package_pin = 81;
  net = "/LIDAR/LiDAR-RXD";
}
pin led_home = record {
  name = "PC13";
  port = "GPIOC";
  num = 13;
  package_pin = 7;
  net = "/BUTTON-LED/LED-HOME";
}

abbrev pub pins : List PortC
pins =
    vl_i2c_reset ∷ cliff_led_en ∷ lidar_motor_ctrl ∷ bump_l_led_en ∷ stm32_tx ∷ stm32_rx ∷ i2c4_scl
    ∷ i2c4_sda ∷ rear_ir_l ∷ rear_ir_r ∷ spare_pc10_tx ∷ spare_pc11_rx ∷ lidar_rxd ∷ led_home ∷ []
