-- ===== src/Pins/Pin.antt =====
-- What include/oomwoo_pins.h says of one pin of the MCU.
use Prim.Native.String.{String}
use Prim.Native.Char.{code}
use oomwoo_firmware.Prelude.{ℕ, ◌+◌, ◌-◌, [], ◌∷◌, ltb, if◌then◌else◌, Bytes}

-- The texts of the macros `PIN_X`, `PIN_X_PORT` and `PIN_X_NUM`, and of the comment above them: the
-- pin of the package and the net of the schematic.
pub record Pin : Type 0 where
  pub name : String
  pub port : String
  pub num : ℕ
  pub package_pin : ℕ
  pub net : String

abbrev pub codes : String → Bytes
codes String.[] = []
codes (String.◌∷◌ c s) = code c ∷ codes s

-- The decimal digits of a number below 20.
abbrev pub decimal : ℕ → Bytes
decimal n = if ltb n 10 then (b'0' + n) ∷ [] else b'1' ∷ (b'0' + (n - 10)) ∷ []
