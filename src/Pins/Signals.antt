-- ===== src/Pins/Signals.antt =====
-- All pins of include/oomwoo_pins.h.
use mathlib.Core.List.{map}
use oomwoo_firmware.Prelude.{ℕ, [], ◌∷◌, ◌++◌, List, Bool, Option, none, some, if◌then◌else◌}
use oomwoo_firmware.Pins.Pin.{Pin}
use oomwoo_firmware.Pins.PortA
use oomwoo_firmware.Pins.PortA.{PortA}
use oomwoo_firmware.Pins.PortB
use oomwoo_firmware.Pins.PortB.{PortB}
use oomwoo_firmware.Pins.PortC
use oomwoo_firmware.Pins.PortC.{PortC}
use oomwoo_firmware.Pins.PortD
use oomwoo_firmware.Pins.PortD.{PortD}
use oomwoo_firmware.Pins.PortE
use oomwoo_firmware.Pins.PortE.{PortE}
use oomwoo_firmware.Pins.PortF
use oomwoo_firmware.Pins.PortF.{PortF}

pub data Signal : Type 0 where
  on_a : PortA → Signal
  on_b : PortB → Signal
  on_c : PortC → Signal
  on_d : PortD → Signal
  on_e : PortE → Signal
  on_f : PortF → Signal

unfoldable pub pin : Signal → Pin
unfolding PortA.pin PortB.pin PortC.pin PortD.pin PortE.pin PortF.pin
pin (on_a s) = PortA.pin s
pin (on_b s) = PortB.pin s
pin (on_c s) = PortC.pin s
pin (on_d s) = PortD.pin s
pin (on_e s) = PortE.pin s
pin (on_f s) = PortF.pin s

-- The letter of the port that a macro's block in the header belongs to.
abbrev pub letter : Signal → ℕ
letter (on_a s) = b'A'
letter (on_b s) = b'B'
letter (on_c s) = b'C'
letter (on_d s) = b'D'
letter (on_e s) = b'E'
letter (on_f s) = b'F'

abbrev pub signals : List Signal
signals =
    map on_a PortA.pins
    ++ (map on_b PortB.pins
        ++ (map on_c PortC.pins
            ++ (map on_d PortD.pins ++ (map on_e PortE.pins ++ map on_f PortF.pins))))

-- The first signal that passes a test.
unfoldable pub find : (Signal → Bool) → List Signal → Option Signal
find p [] = none
find p (s ∷ rest) = let later = find p rest in if p s then some s else later
