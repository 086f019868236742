-- ===== src/Pins/PortF.antt =====
-- The pins of port F in include/oomwoo_pins.h: one constructor for each `PIN_` macro, and what
-- the header says of it.
use oomwoo_firmware.Prelude.{[], ◌∷◌, List}
use oomwoo_firmware.Pins.Pin.{Pin}

pub data PortF : Type 0 where
  spare_pf0 : PortF
  spare_pf1 : PortF
  led_pwr : PortF
  side_brush_in1 : PortF
  side_brush_in2 : PortF

unfoldable pub pin : PortF → Pin
pin spare_pf0 = record {
  name = "PF0";
  port = "GPIOF";
  num = 0;
  package_pin = 12;
  net = "/MCU-STM32/SPARE-PF0";
}
pin spare_pf1 = record {
  name = "PF1";
  port = "GPIOF";
  num = 1;
  package_pin = 13;
  net = "/MCU-STM32/SPARE-PF1";
}
pin led_pwr = record {
  name = "PF2";
  port = "GPIOF";
  num = 2;
  package_pin = 19;
  net = "/BUTTON-LED/LED-PWR";
}
pin side_brush_in1 = record {
  name = "PF9";
  port = "GPIOF";
  num = 9;
  package_pin = 10;
  net = "/MCU-STM32/SIDE-BRUSH-IN1";
}
pin side_brush_in2 = record {
  name = "PF10";
  port = "GPIOF";
  num = 10;
  package_pin = 11;
  net = "/MCU-STM32/SIDE-BRUSH-IN2";
}

abbrev pub pins : List PortF
pins = spare_pf0 ∷ spare_pf1 ∷ led_pwr ∷ side_brush_in1 ∷ side_brush_in2 ∷ []
