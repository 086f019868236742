-- ===== src/Pins/PortA.antt =====
-- The pins of port A in include/oomwoo_pins.h: one constructor for each `PIN_` macro, and what
-- the header says of it.
use oomwoo_firmware.Prelude.{[], ◌∷◌, List}
use oomwoo_firmware.Pins.Pin.{Pin}

pub data PortA : Type 0 where
  cliff_rr : PortA
  cliff_rf : PortA
  cliff_lr : PortA
  cliff_lf : PortA
  bump_l : PortA
  bump_r : PortA
  main_brush_adc : PortA
  usb_vbus_sense : PortA
  bat_sense : PortA
  vmot_14v4_en_n : PortA
  bump_r_led_en : PortA
  battery_charger_d_n : PortA
  battery_charger_d_p : PortA
  stm32_swdio : PortA
  stm32_swclk : PortA
  stm_pwr_ctrl : PortA

unfoldable pub pin : PortA → Pin
pin cliff_rr = record {
  name = "PA0";
  port = "GPIOA";
  num = 0;
  package_pin = 20;
  net = "/CLIFF/CLIFF-RR";
}
pin cliff_rf = record {
  name = "PA1";
  port = "GPIOA";
  num = 1;
  package_pin = 21;
  net = "/CLIFF/CLIFF-RF";
}
pin cliff_lr = record {
  name = "PA2";
  port = "GPIOA";
  num = 2;
  package_pin = 22;
  net = "/CLIFF/CLIFF-LR";
}
pin cliff_lf = record {
  name = "PA3";
  port = "GPIOA";
  num = 3;
  package_pin = 25;
  net = "/CLIFF/CLIFF-LF";
}
pin bump_l = record {
  name = "PA4";
  port = "GPIOA";
  num = 4;
  package_pin = 26;
  net = "/Bumper Sensors/BUMP-L";
}
pin bump_r = record {
  name = "PA5";
  port = "GPIOA";
  num = 5;
  package_pin = 27;
  net = "/Bumper Sensors/BUMP-R";
}
pin main_brush_adc = record {
  name = "PA6";
  port = "GPIOA";
  num = 6;
  package_pin = 28;
  net = "/MAIN-BRUSH MOTOR/MAIN-BRUSH-ADC";
}
pin usb_vbus_sense = record {
  name = "PA7";
  port = "GPIOA";
  num = 7;
  package_pin = 29;
  net = "/USB_VBUS_SENSE";
}
pin bat_sense = record {
  name = "PA8";
  port = "GPIOA";
  num = 8;
  package_pin = 69;
  net = "/BAT_SENSE";
}
pin vmot_14v4_en_n = record {
  name = "PA9";
  port = "GPIOA";
  num = 9;
  package_pin = 70;
  net = "/~{VMOT-14V4-EN}";
}
pin bump_r_led_en = record {
  name = "PA10";
  port = "GPIOA";
  num = 10;
  package_pin = 71;
  net = "/Bumper Sensors/BUMP_R_LED_EN";
}
pin battery_charger_d_n = record {
  name = "PA11";
  port = "GPIOA";
  num = 11;
  package_pin = 72;
  net = "/BATTERY-CHARGER/D-";
}
pin battery_charger_d_p = record {
  name = "PA12";
  port = "GPIOA";
  num = 12;
  package_pin = 73;
  net = "/BATTERY-CHARGER/D+";
}
pin stm32_swdio = record {
  name = "PA13";
  port = "GPIOA";
  num = 13;
  package_pin = 76;
  net = "/MCU-STM32/STM32-SWDIO";
}
pin stm32_swclk = record {
  name = "PA14";
  port = "GPIOA";
  num = 14;
  package_pin = 77;
  net = "/MCU-STM32/STM32-SWCLK";
}
pin stm_pwr_ctrl = record {
  name = "PA15";
  port = "GPIOA";
  num = 15;
  package_pin = 78;
  net = "/MCU-STM32/STM-PWR-CTRL";
}

abbrev pub pins : List PortA
pins =
    cliff_rr ∷ cliff_rf ∷ cliff_lr ∷ cliff_lf ∷ bump_l ∷ bump_r ∷ main_brush_adc ∷ usb_vbus_sense
    ∷ bat_sense ∷ vmot_14v4_en_n ∷ bump_r_led_en ∷ battery_charger_d_n ∷ battery_charger_d_p
    ∷ stm32_swdio ∷ stm32_swclk ∷ stm_pwr_ctrl ∷ []
