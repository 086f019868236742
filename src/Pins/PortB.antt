-- ===== src/Pins/PortB.antt =====
-- The pins of port B in include/oomwoo_pins.h: one constructor for each `PIN_` macro, and what
-- the header says of it.
use oomwoo_firmware.Prelude.{[], ◌∷◌, List}
use oomwoo_firmware.Pins.Pin.{Pin}

pub data PortB : Type 0 where
  wheel_mot_r_drop : PortB
  wheel_mot_l_drop : PortB
  ntc : PortB
  stm32_swo_spare : PortB
  usb_cc2 : PortB
  vsens_5v_usb_en : PortB
  usb_cc1 : PortB
  wheel_mot_r_in1 : PortB
  wheel_mot_r_in2 : PortB
  vsens_3v3_en_n : PortB
  ir_f_rx2 : PortB
  ldr : PortB
  vl_l_lpn_n : PortB
  battery_charger_id : PortB
  dc_in_sense : PortB

unfoldable pub pin : PortB → Pin
pin wheel_mot_r_drop = record {
  name = "PB0";
  port = "GPIOB";
  num = 0;
  package_pin = 32;
  net = "/MCU-STM32/WHEEL-MOT-R-DROP";
}
pin wheel_mot_l_drop = record {
  name = "PB1";
  port = "GPIOB";
  num = 1;
  package_pin = 33;
  net = "/MCU-STM32/WHEEL-MOT-L-DROP";
}
pin ntc = record { name = "PB2"; port = "GPIOB"; num = 2; package_pin = 34; net = "/MCU-STM32/NTC" }
pin stm32_swo_spare = record {
  name = "PB3";
  port = "GPIOB";
  num = 3;
  package_pin = 90;
  net = "/MCU-STM32/STM32-SWO-SPARE";
}
pin usb_cc2 = record { name = "PB4"; port = "GPIOB"; num = 4; package_pin = 91; net = "/USB_CC2" }
pin vsens_5v_usb_en = record {
  name = "PB5";
  port = "GPIOB";
  num = 5;
  package_pin = 92;
  net = "/MCU-STM32/VSENS_5V_USB_EN";
}
pin usb_cc1 = record { name = "PB6"; port = "GPIOB"; num = 6; package_pin = 93; net = "/USB_CC1" }
pin wheel_mot_r_in1 = record {
  name = "PB7";
  port = "GPIOB";
  num = 7;
  package_pin = 94;
  net = "/MCU-STM32/WHEEL-MOT-R-IN1";
}
pin wheel_mot_r_in2 = record {
  name = "PB9";
  port = "GPIOB";
  num = 9;
  package_pin = 96;
  net = "/MCU-STM32/WHEEL-MOT-R-IN2";
}
pin vsens_3v3_en_n = record {
  name = "PB10";
  port = "GPIOB";
  num = 10;
  package_pin = 47;
  net = "/MCU-STM32/~{VSENS_3V3_EN}";
}
pin ir_f_rx2 = record {
  name = "PB11";
  port = "GPIOB";
  num = 11;
  package_pin = 50;
  net = "/FRONT SENSORS/IR-F-RX2";
}
pin ldr = record {
  name = "PB12";
  port = "GPIOB";
  num = 12;
  package_pin = 51;
  net = "/MCU-STM32/LDR";
}
pin vl_l_lpn_n = record {
  name = "PB13";
  port = "GPIOB";
  num = 13;
  package_pin = 52;
  net = "/~{VL-L-LPn}";
}
pin battery_charger_id = record {
  name = "PB14";
  port = "GPIOB";
  num = 14;
  package_pin = 53;
  net = "/BATTERY-CHARGER/ID";
}
pin dc_in_sense = record {
  name = "PB15";
  port = "GPIOB";
  num = 15;
  package_pin = 54;
  net = "/DC_IN_SENSE";
}

abbrev pub pins : List PortB
pins =
    wheel_mot_r_drop ∷ wheel_mot_l_drop ∷ ntc ∷ stm32_swo_spare ∷ usb_cc2 ∷ vsens_5v_usb_en
    ∷ usb_cc1 ∷ wheel_mot_r_in1 ∷ wheel_mot_r_in2 ∷ vsens_3v3_en_n ∷ ir_f_rx2 ∷ ldr ∷ vl_l_lpn_n
    ∷ battery_charger_id ∷ dc_in_sense ∷ []
