-- ===== src/Pins/PortD.antt =====
-- The pins of port D in include/oomwoo_pins.h: one constructor for each `PIN_` macro, and what
-- the header says of it.
use oomwoo_firmware.Prelude.{[], ◌∷◌, List}
use oomwoo_firmware.Pins.Pin.{Pin}

pub data PortD : Type 0 where
  clean_btn_n : PortD
  main_fan_pwm : PortD
  lidar_txd : PortD
  imu_int1 : PortD
  spare_pd4 : PortD
  home_btn_n : PortD
  usart2_ir_r_rx : PortD
  pwr_en : PortD
  wdi : PortD
  cliff_lm : PortD
  wheel_mot_r_adc : PortD
  wheel_mot_l_adc : PortD
  int_sensors_n : PortD
  side_brush_adc : PortD
  main_brush_in1 : PortD
  main_brush_in2 : PortD

unfoldable pub pin : PortD → Pin
pin clean_btn_n = record {
  name = "PD0";
  port = "GPIOD";
  num = 0;
  package_pin = 82;
  net = "/BUTTON-LED/~{CLEAN-BTN}";
}
pin main_fan_pwm = record {
  name = "PD1";
  port = "GPIOD";
  num = 1;
  package_pin = 83;
  net = "/MAIN-FAN/MAIN-FAN-PWM";
}
pin lidar_txd = record {
  name = "PD2";
  port = "GPIOD";
  num = 2;
  package_pin = 84;
  net = "/LIDAR/LiDAR-TXD";
}
pin imu_int1 = record { name = "PD3"; port = "GPIOD"; num = 3; package_pin = 85; net = "/IMU-INT1" }
pin spare_pd4 = record {
  name = "PD4";
  port = "GPIOD";
  num = 4;
  package_pin = 86;
  net = "/MCU-STM32/SPARE-PD4";
}
pin home_btn_n = record {
  name = "PD5";
  port = "GPIOD";
  num = 5;
  package_pin = 87;
  net = "/BUTTON-LED/~{HOME-BTN}";
}
pin usart2_ir_r_rx = record {
  name = "PD6";
  port = "GPIOD";
  num = 6;
  package_pin = 88;
  net = "/USART2-IR-R-RX";
}
pin pwr_en = record {
  name = "PD7";
  port = "GPIOD";
  num = 7;
  package_pin = 89;
  net = "/BATTERY-CHARGER/PWR_EN";
}
pin wdi = record { name = "PD8"; port = "GPIOD"; num = 8; package_pin = 55; net = "/MCU-STM32/WDI" }
pin cliff_lm = record { name = "PD9"; port = "GPIOD"; num = 9; package_pin = 56; net = "/CLIFF-LM" }
pin wheel_mot_r_adc = record {
  name = "PD10";
  port = "GPIOD";
  num = 10;
  package_pin = 57;
  net = "/MCU-STM32/WHEEL-MOT-R-ADC";
}
pin wheel_mot_l_adc = record {
  name = "PD11";
  port = "GPIOD";
  num = 11;
  package_pin = 58;
  net = "/MCU-STM32/WHEEL-MOT-L-ADC";
}
pin int_sensors_n = record {
  name = "PD12";
  port = "GPIOD";
  num = 12;
  package_pin = 59;
  net = "/~{INT-SENSORS}";
}
pin side_brush_adc = record {
  name = "PD13";
  port = "GPIOD";
  num = 13;
  package_pin = 60;
  net = "/MCU-STM32/SIDE-BRUSH-ADC";
}
pin main_brush_in1 = record {
  name = "PD14";
  port = "GPIOD";
  num = 14;
  package_pin = 61;
  net = "/MAIN-BRUSH MOTOR/MAIN-BRUSH-IN1";
}
pin main_brush_in2 = record {
  name = "PD15";
  port = "GPIOD";
  num = 15;
  package_pin = 62;
  net = "/MAIN-BRUSH MOTOR/MAIN-BRUSH-IN2";
}

abbrev pub pins : List PortD
pins =
    clean_btn_n ∷ main_fan_pwm ∷ lidar_txd ∷ imu_int1 ∷ spare_pd4 ∷ home_btn_n ∷ usart2_ir_r_rx
    ∷ pwr_en ∷ wdi ∷ cliff_lm ∷ wheel_mot_r_adc ∷ wheel_mot_l_adc ∷ int_sensors_n ∷ side_brush_adc
    ∷ main_brush_in1 ∷ main_brush_in2 ∷ []
