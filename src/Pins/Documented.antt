-- ===== src/Pins/Documented.antt =====
-- The pins that docs/SPEC.md names, signal by signal.
use Prim.Native.String.{String}
use oomwoo_firmware.Prelude.{◌≡◌, Option, none, some}
use oomwoo_firmware.Pins.Signals.{Signal, on_a, on_b, on_c, on_d, on_e, on_f, pin}
use oomwoo_firmware.Pins.PortA.{PortA}
use oomwoo_firmware.Pins.PortB.{PortB}
use oomwoo_firmware.Pins.PortC.{PortC}
use oomwoo_firmware.Pins.PortD.{PortD}
use oomwoo_firmware.Pins.PortE.{PortE}
use oomwoo_firmware.Pins.PortF.{PortF}

abbrev spec_a : PortA → Option String
spec_a PortA.cliff_rr = some "PA0"
spec_a PortA.cliff_rf = some "PA1"
spec_a PortA.cliff_lr = some "PA2"
spec_a PortA.cliff_lf = some "PA3"
spec_a PortA.bump_l = some "PA4"
spec_a PortA.bump_r = some "PA5"
spec_a PortA.main_brush_adc = some "PA6"
spec_a PortA.usb_vbus_sense = some "PA7"
spec_a PortA.bat_sense = some "PA8"
spec_a PortA.vmot_14v4_en_n = some "PA9"
spec_a PortA.bump_r_led_en = some "PA10"
spec_a PortA.battery_charger_d_n = none
spec_a PortA.battery_charger_d_p = none
spec_a PortA.stm32_swdio = some "PA13"
spec_a PortA.stm32_swclk = some "PA14"
spec_a PortA.stm_pwr_ctrl = some "PA15"

abbrev spec_b : PortB → Option String
spec_b PortB.wheel_mot_r_drop = some "PB0"
spec_b PortB.wheel_mot_l_drop = some "PB1"
spec_b PortB.ntc = some "PB2"
spec_b PortB.stm32_swo_spare = some "PB3"
spec_b PortB.usb_cc2 = some "PB4"
spec_b PortB.vsens_5v_usb_en = some "PB5"
spec_b PortB.usb_cc1 = some "PB6"
spec_b PortB.wheel_mot_r_in1 = some "PB7"
spec_b PortB.wheel_mot_r_in2 = some "PB9"
spec_b PortB.vsens_3v3_en_n = some "PB10"
spec_b PortB.ir_f_rx2 = none
spec_b PortB.ldr = some "PB12"
spec_b PortB.vl_l_lpn_n = some "PB13"
spec_b PortB.battery_charger_id = some "PB14"
spec_b PortB.dc_in_sense = some "PB15"

abbrev spec_c : PortC → Option String
spec_c PortC.vl_i2c_reset = some "PC0"
spec_c PortC.cliff_led_en = some "PC1"
spec_c PortC.lidar_motor_ctrl = some "PC2"
spec_c PortC.bump_l_led_en = some "PC3"
spec_c PortC.stm32_tx = some "PC4"
spec_c PortC.stm32_rx = some "PC5"
spec_c PortC.i2c4_scl = some "PC6"
spec_c PortC.i2c4_sda = some "PC7"
spec_c PortC.rear_ir_l = some "PC8"
spec_c PortC.rear_ir_r = some "PC9"
spec_c PortC.spare_pc10_tx = some "PC10"
spec_c PortC.spare_pc11_rx = some "PC11"
spec_c PortC.lidar_rxd = some "PC12"
spec_c PortC.led_home = some "PC13"

abbrev spec_d : PortD → Option String
spec_d PortD.clean_btn_n = some "PD0"
spec_d PortD.main_fan_pwm = some "PD1"
spec_d PortD.lidar_txd = some "PD2"
spec_d PortD.imu_int1 = some "PD3"
spec_d PortD.spare_pd4 = some "PD4"
spec_d PortD.home_btn_n = some "PD5"
spec_d PortD.usart2_ir_r_rx = some "PD6"
spec_d PortD.pwr_en = some "PD7"
spec_d PortD.wdi = some "PD8"
spec_d PortD.cliff_lm = some "PD9"
spec_d PortD.wheel_mot_r_adc = some "PD10"
spec_d PortD.wheel_mot_l_adc = some "PD11"
spec_d PortD.int_sensors_n = some "PD12"
spec_d PortD.side_brush_adc = some "PD13"
spec_d PortD.main_brush_in1 = some "PD14"
spec_d PortD.main_brush_in2 = some "PD15"

abbrev spec_e : PortE → Option String
spec_e PortE.wheel_mot_l_in1 = some "PE0"
spec_e PortE.wheel_mot_l_in2 = some "PE1"
spec_e PortE.spare_pe2 = some "PE2"
spec_e PortE.side_proxi_ce_r = some "PE3"
spec_e PortE.hall_bin = some "PE4"
spec_e PortE.hall_tower = some "PE5"
spec_e PortE.spare_pe6 = some "PE6"
spec_e PortE.pwr_btn_sense = some "PE7"
spec_e PortE.cliff_rm = some "PE8"
spec_e PortE.main_fan_fb = some "PE9"
spec_e PortE.spare_pe10_adc = some "PE10"
spec_e PortE.carpet_sensor_lo = some "PE11"
spec_e PortE.echo_adc = some "PE12"
spec_e PortE.wheel_mot_l_encode = some "PE13"
spec_e PortE.wheel_mot_r_encode = some "PE14"
spec_e PortE.ir_f_rx1 = none

abbrev spec_f : PortF → Option String
spec_f PortF.spare_pf0 = some "PF0"
spec_f PortF.spare_pf1 = some "PF1"
spec_f PortF.led_pwr = some "PF2"
spec_f PortF.side_brush_in1 = some "PF9"
spec_f PortF.side_brush_in2 = some "PF10"

-- The Arduino name that docs/SPEC.md gives, where its text ties a pin to a single signal: for all
-- but the two USB lines, PA11 and PA12, and the two front receivers, PE15 and PB11.
unfoldable pub spec_name : Signal → Option String
spec_name (on_a s) = spec_a s
spec_name (on_b s) = spec_b s
spec_name (on_c s) = spec_c s
spec_name (on_d s) = spec_d s
spec_name (on_e s) = spec_e s
spec_name (on_f s) = spec_f s

-- The header gives every signal the pin that docs/SPEC.md names for it, if it names one.
pub name-spec_name : (s : Signal) (n : String) → spec_name s ≡ some n → (pin s).name ≡ n
unfolding spec_name pin
name-spec_name (on_a PortA.cliff_rr) n h = cc
name-spec_name (on_a _) n h = cc
name-spec_name (on_b PortB.wheel_mot_r_drop) n h = cc
name-spec_name (on_b _) n h = cc
name-spec_name (on_c PortC.vl_i2c_reset) n h = cc
name-spec_name (on_c _) n h = cc
name-spec_name (on_d PortD.clean_btn_n) n h = cc
name-spec_name (on_d _) n h = cc
name-spec_name (on_e PortE.wheel_mot_l_in1) n h = cc
name-spec_name (on_e _) n h = cc
name-spec_name (on_f PortF.spare_pf0) n h = cc
name-spec_name (on_f _) n h = cc
