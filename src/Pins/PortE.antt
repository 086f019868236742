-- ===== src/Pins/PortE.antt =====
-- The pins of port E in include/oomwoo_pins.h: one constructor for each `PIN_` macro, and what
-- the header says of it.
use oomwoo_firmware.Prelude.{[], ◌∷◌, List}
use oomwoo_firmware.Pins.Pin.{Pin}

pub data PortE : Type 0 where
  wheel_mot_l_in1 : PortE
  wheel_mot_l_in2 : PortE
  spare_pe2 : PortE
  side_proxi_ce_r : PortE
  hall_bin : PortE
  hall_tower : PortE
  spare_pe6 : PortE
  pwr_btn_sense : PortE
  cliff_rm : PortE
  main_fan_fb : PortE
  spare_pe10_adc : PortE
  carpet_sensor_lo : PortE
  echo_adc : PortE
  wheel_mot_l_encode : PortE
  wheel_mot_r_encode : PortE
  ir_f_rx1 : PortE

unfoldable pub pin : PortE → Pin
pin wheel_mot_l_in1 = record {
  name = "PE0";
  port = "GPIOE";
  num = 0;
  package_pin = 97;
  net = "/MCU-STM32/WHEEL-MOT-L-IN1";
}
pin wheel_mot_l_in2 = record {
  name = "PE1";
  port = "GPIOE";
  num = 1;
  package_pin = 98;
  net = "/MCU-STM32/WHEEL-MOT-L-IN2";
}
pin spare_pe2 = record {
  name = "PE2";
  port = "GPIOE";
  num = 2;
  package_pin = 1;
  net = "/MCU-STM32/SPARE-PE2";
}
pin side_proxi_ce_r = record {
  name = "PE3";
  port = "GPIOE";
  num = 3;
  package_pin = 2;
  net = "/SIDE-PROXI-CE-R";
}
pin hall_bin = record { name = "PE4"; port = "GPIOE"; num = 4; package_pin = 3; net = "/HALL-BIN" }
pin hall_tower = record {
  name = "PE5";
  port = "GPIOE";
  num = 5;
  package_pin = 4;
  net = "/HALL-TOWER";
}
pin spare_pe6 = record {
  name = "PE6";
  port = "GPIOE";
  num = 6;
  package_pin = 5;
  net = "/MCU-STM32/SPARE-PE6";
}
pin pwr_btn_sense = record {
  name = "PE7";
  port = "GPIOE";
  num = 7;
  package_pin = 38;
  net = "/MCU-STM32/PWR-BTN-SENSE";
}
pin cliff_rm = record { name = "PE8"; port = "GPIOE"; num = 8; package_pin = 39; net = "/CLIFF-RM" }
pin main_fan_fb = record {
  name = "PE9";
  port = "GPIOE";
  num = 9;
  package_pin = 40;
  net = "/MAIN-FAN/MAIN-FAN-FB";
}
pin spare_pe10_adc = record {
  name = "PE10";
  port = "GPIOE";
  num = 10;
  package_pin = 41;
  net = "/MCU-STM32/SPARE-PE10-ADC";
}
pin carpet_sensor_lo = record {
  name = "PE11";
  port = "GPIOE";
  num = 11;
  package_pin = 42;
  net = "/CARPET-SENSOR/LO";
}
pin echo_adc = record {
  name = "PE12";
  port = "GPIOE";
  num = 12;
  package_pin = 43;
  net = "/CARPET-SENSOR/ECHO_ADC";
}
pin wheel_mot_l_encode = record {
  name = "PE13";
  port = "GPIOE";
  num = 13;
  package_pin = 44;
  net = "/MCU-STM32/WHEEL-MOT-L-ENCODE";
}
pin wheel_mot_r_encode = record {
  name = "PE14";
  port = "GPIOE";
  num = 14;
  package_pin = 45;
  net = "/MCU-STM32/WHEEL-MOT-R-ENCODE";
}
pin ir_f_rx1 = record {
  name = "PE15";
  port = "GPIOE";
  num = 15;
  package_pin = 46;
  net = "/FRONT SENSORS/IR-F-RX1";
}

abbrev pub pins : List PortE
pins =
    wheel_mot_l_in1 ∷ wheel_mot_l_in2 ∷ spare_pe2 ∷ side_proxi_ce_r ∷ hall_bin ∷ hall_tower
    ∷ spare_pe6 ∷ pwr_btn_sense ∷ cliff_rm ∷ main_fan_fb ∷ spare_pe10_adc ∷ carpet_sensor_lo
    ∷ echo_adc ∷ wheel_mot_l_encode ∷ wheel_mot_r_encode ∷ ir_f_rx1 ∷ []
