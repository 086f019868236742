-- ===== src/Pins/Distinct.antt =====
-- No two pins of the header are one.
use Prim.Native.String.{String}
use text.Mathlib.Text.{◌==◌ as str_eq}
use oomwoo_firmware.Prelude.{ℕ, ◌≡◌, ◌⊎◌, inl, inr, refl, sym, ◌∙◌, ap, ◌==◌, ◌&&◌, Option, some}
use oomwoo_firmware.Pins.Signals.{Signal, on_a, on_b, on_c, on_d, on_e, on_f, pin, signals, find}
use oomwoo_firmware.Pins.PortA
use oomwoo_firmware.Pins.PortB
use oomwoo_firmware.Pins.PortC
use oomwoo_firmware.Pins.PortD
use oomwoo_firmware.Pins.PortE
use oomwoo_firmware.Pins.PortF

find_name : String → Option Signal
unfolding find pin
find_name name = find (λ s. str_eq (pin s).name name) signals

find_name_lem : (s : Signal) → find_name (pin s).name ≡ some s
unfolding find_name
find_name_lem (on_a PortA.cliff_rr) = refl
find_name_lem (on_a _) = refl
find_name_lem (on_b PortB.wheel_mot_r_drop) = refl
find_name_lem (on_b _) = refl
find_name_lem (on_c PortC.vl_i2c_reset) = refl
find_name_lem (on_c _) = refl
find_name_lem (on_d PortD.clean_btn_n) = refl
find_name_lem (on_d _) = refl
find_name_lem (on_e PortE.wheel_mot_l_in1) = refl
find_name_lem (on_e _) = refl
find_name_lem (on_f PortF.spare_pf0) = refl
find_name_lem (on_f _) = refl

find_gpio : String → ℕ → Option Signal
unfolding find pin
find_gpio port num = find (λ s. (pin s).num == num && str_eq (pin s).port port) signals

find_gpio_lem : (s : Signal) → find_gpio (pin s).port (pin s).num ≡ some s
unfolding find_gpio
find_gpio_lem (on_a PortA.cliff_rr) = refl
find_gpio_lem (on_a _) = refl
find_gpio_lem (on_b PortB.wheel_mot_r_drop) = refl
find_gpio_lem (on_b _) = refl
find_gpio_lem (on_c PortC.vl_i2c_reset) = refl
find_gpio_lem (on_c _) = refl
find_gpio_lem (on_d PortD.clean_btn_n) = refl
find_gpio_lem (on_d _) = refl
find_gpio_lem (on_e PortE.wheel_mot_l_in1) = refl
find_gpio_lem (on_e _) = refl
find_gpio_lem (on_f PortF.spare_pf0) = refl
find_gpio_lem (on_f _) = refl

find_package_pin : ℕ → Option Signal
unfolding find pin
find_package_pin n = find (λ s. (pin s).package_pin == n) signals

find_package_pin_lem : (s : Signal) → find_package_pin (pin s).package_pin ≡ some s
unfolding find_package_pin
find_package_pin_lem (on_a PortA.cliff_rr) = refl
find_package_pin_lem (on_a _) = refl
find_package_pin_lem (on_b PortB.wheel_mot_r_drop) = refl
find_package_pin_lem (on_b _) = refl
find_package_pin_lem (on_c PortC.vl_i2c_reset) = refl
find_package_pin_lem (on_c _) = refl
find_package_pin_lem (on_d PortD.clean_btn_n) = refl
find_package_pin_lem (on_d _) = refl
find_package_pin_lem (on_e PortE.wheel_mot_l_in1) = refl
find_package_pin_lem (on_e _) = refl
find_package_pin_lem (on_f PortF.spare_pf0) = refl
find_package_pin_lem (on_f _) = refl

some-inj : {s t : Signal} → some s ≡ some t → s ≡ t
some-inj e = cc

-- Two signals with the same Arduino name, the same port and number, or the same pin of the package
-- are one signal.
pub pin-inj :
    (s t : Signal)
    → ((pin s).name ≡ (pin t).name)
      ⊎ (((pin s).port ≡ (pin t).port) × ((pin s).num ≡ (pin t).num))
      ⊎ ((pin s).package_pin ≡ (pin t).package_pin)
    → s ≡ t
pin-inj s t (inl name) = some-inj (sym (find_name_lem s) ∙ ap find_name name ∙ find_name_lem t)
pin-inj s t (inr (inl (port, num))) =
    some-inj (sym (find_gpio_lem s) ∙ rw (port, num) (find_gpio_lem t))
pin-inj s t (inr (inr package_pin)) =
    some-inj
      (sym (find_package_pin_lem s) ∙ ap find_package_pin package_pin ∙ find_package_pin_lem t)
