-- ===== src/Pins/Tokens.antt =====
-- How the three macros of a pin agree.
use oomwoo_firmware.Prelude.{ℕ, ◌<◌, ◌≤◌, ◌≡◌, refl, arith, [], ◌∷◌, ◌++◌}
use oomwoo_firmware.Pins.Pin.{Pin, codes, decimal}
use oomwoo_firmware.Pins.Signals.{Signal, on_a, on_b, on_c, on_d, on_e, on_f, pin, letter}
use oomwoo_firmware.Pins.PortA
use oomwoo_firmware.Pins.PortB
use oomwoo_firmware.Pins.PortC
use oomwoo_firmware.Pins.PortD
use oomwoo_firmware.Pins.PortE
use oomwoo_firmware.Pins.PortF

-- The Arduino name is `P`, the port's letter and the number; the port is `GPIO` and the letter.
pub record Agrees (letter : ℕ) (p : Pin) : Type 0 where
  pub named : codes p.name ≡ b'P' ∷ letter ∷ decimal p.num
  pub on_port : codes p.port ≡ codes "GPIO" ++ (letter ∷ [])
  pub num_small : p.num < 16
  pub on_package : (1 ≤ p.package_pin) × (p.package_pin ≤ 100)

-- The three macros of every signal name one pin: the Arduino name is `P`, the letter of the port and
-- the number in decimal, the port is `GPIO` and that letter; the number is below 16 and the pin of the
-- package from 1 to 100.
pub pin-Agrees : (s : Signal) → Agrees (letter s) (pin s)
unfolding pin
pin-Agrees (on_a PortA.cliff_rr) = record {
  named = refl;
  on_port = refl;
  num_small = omega arith;
  on_package = omega arith;
}
pin-Agrees (on_a _) = record {
  named = refl;
  on_port = refl;
  num_small = omega arith;
  on_package = omega arith;
}
pin-Agrees (on_b PortB.wheel_mot_r_drop) = record {
  named = refl;
  on_port = refl;
  num_small = omega arith;
  on_package = omega arith;
}
pin-Agrees (on_b _) = record {
  named = refl;
  on_port = refl;
  num_small = omega arith;
  on_package = omega arith;
}
pin-Agrees (on_c PortC.vl_i2c_reset) = record {
  named = refl;
  on_port = refl;
  num_small = omega arith;
  on_package = omega arith;
}
pin-Agrees (on_c _) = record {
  named = refl;
  on_port = refl;
  num_small = omega arith;
  on_package = omega arith;
}
pin-Agrees (on_d PortD.clean_btn_n) = record {
  named = refl;
  on_port = refl;
  num_small = omega arith;
  on_package = omega arith;
}
pin-Agrees (on_d _) = record {
  named = refl;
  on_port = refl;
  num_small = omega arith;
  on_package = omega arith;
}
pin-Agrees (on_e PortE.wheel_mot_l_in1) = record {
  named = refl;
  on_port = refl;
  num_small = omega arith;
  on_package = omega arith;
}
pin-Agrees (on_e _) = record {
  named = refl;
  on_port = refl;
  num_small = omega arith;
  on_package = omega arith;
}
pin-Agrees (on_f PortF.spare_pf0) = record {
  named = refl;
  on_port = refl;
  num_small = omega arith;
  on_package = omega arith;
}
pin-Agrees (on_f _) = record {
  named = refl;
  on_port = refl;
  num_small = omega arith;
  on_package = omega arith;
}
