-- ===== src/Pins/Tests.antt =====
-- Runs of the theorems on pins of include/oomwoo_pins.h.
use oomwoo_firmware.Prelude.{◌≡◌, inl, inr, refl}
use oomwoo_firmware.Pins.PortD
use oomwoo_firmware.Pins.Signals.{Signal, on_d, pin}
use oomwoo_firmware.Pins.Tokens.{Agrees, pin-Agrees}
use oomwoo_firmware.Pins.Distinct.{pin-inj}
use oomwoo_firmware.Pins.Documented.{spec_name, name-spec_name}

-- The watchdog pin, PD8.
abbrev watchdog : Signal
watchdog = on_d PortD.wdi

pin-Agrees_example : Agrees b'D' (pin watchdog)
pin-Agrees_example = pin-Agrees watchdog

pin-inj_example : on_d PortD.wdi ≡ watchdog
unfolding pin
pin-inj_example = pin-inj (on_d PortD.wdi) watchdog (inr (inl (refl, refl)))

name-spec_name_example : (pin watchdog).name ≡ "PD8"
unfolding spec_name
name-spec_name_example = name-spec_name watchdog "PD8" refl
