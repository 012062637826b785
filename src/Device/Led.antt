-- ===== src/Device/Led.antt =====
-- iw_dev_led.c. What the pins do is the boards': a world `W` with the calls that the code makes.
use io_tware.Common.{
  ℕ, zero, suc, Option, none, some, List, [], ◌∷◌, Exec, ok, undefined, ◌==◌, leb, if◌then◌else◌,
  set,
}
use io_tware.Oal.Fifo.{IwError, success, fail}

-- `led_info_t`
pub record LedInfo : Type 0 where
  pub used : ℕ
  pub pin : ℕ

-- `iw_init_digital` with DIGITAL_OUTPUT_PUSHPULL, `iw_put_digital` with DIGITAL_LOW and with
-- DIGITAL_HIGH, and `iw_toggle_digital`.
pub record Pins (W : Type 0) : Type 0 where
  pub init_output : ℕ → W → W
  pub put_low : ℕ → W → W
  pub put_high : ℕ → W → W
  pub toggle : ℕ → W → W

-- `LED_MAX`
abbrev pub led_max : ℕ
led_max = 3

-- An entry of `gLedInfo`.
unfoldable pub led_at : List LedInfo → ℕ → Option LedInfo
led_at [] i = none
led_at (l ∷ ls) zero = some l
led_at (l ∷ ls) (suc i) = led_at ls i

module _ {W : Type 0} (pins : Pins W) (leds : List LedInfo) (color : ℕ) where
  -- What `iw_led_on`, `iw_led_off` and `iw_led_toggle` share.
  unfoldable pub with_led : (ℕ → W → W) → W → Exec (IwError × W)
  unfolding led_at
  with_led act w = if leb led_max color then ok (fail, w) else elim (led_at leds color) [
    | none ↦ undefined
    | some l ↦ ok (if l.used == 0 then (fail, w) else (success, act l.pin w))
  ]

  unfoldable pub iw_register_led : ℕ → W → IwError × List LedInfo × W
  iw_register_led defined_pin w = if leb led_max color then (fail, leds, w) else (
    success,
    set leds color (record { used = 1; pin = defined_pin }),
    pins.init_output defined_pin w,
  )

  unfoldable pub iw_led_on : W → Exec (IwError × W)
  unfolding with_led
  iw_led_on = with_led pins.put_low

  unfoldable pub iw_led_off : W → Exec (IwError × W)
  unfolding with_led
  iw_led_off = with_led pins.put_high

  unfoldable pub iw_led_toggle : W → Exec (IwError × W)
  unfolding with_led
  iw_led_toggle = with_led pins.toggle
