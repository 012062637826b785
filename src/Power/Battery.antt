-- ===== src/Power/Battery.antt =====
-- The battery's port of iw_dev_batt.c. What the board's converter does is a parameter: the voltage
-- of a port, `none` where it fails, which leaves the caller's variable alone.
use io_tware.Common.{ℕ, Bool, true, Option, none, some, if◌then◌else◌}

-- `gBattAdcPort`, `none` for INVALID_BATT_PORT, and `g_adc_using_info[0]`.
pub record Battery : Type 0 where
  pub adc_port : Option ℕ
  pub in_use : Bool
  pub bank : ℕ
  pub gpio : ℕ

-- `if_type_t`
pub data IfType : Type 0 where
  i2c_type uart_type spi_type gpio_type adc_type : IfType

-- `iw_register_battery`
unfoldable pub iw_register_battery : Battery → IfType → ℕ → ℕ → Battery
iw_register_battery b adc_type port defined_pin =
    if b.in_use
    then b
    else record { adc_port = some port; in_use = true; bank = 0; gpio = defined_pin }
iw_register_battery b _ port defined_pin = b

-- `iw_get_battery_voltage`, `none` for IW_FAIL.
unfoldable pub iw_get_battery_voltage : (ℕ → Option ℕ) → Battery → Option ℕ
iw_get_battery_voltage converter b = elim b.adc_port [ none ↦ none | some port ↦ converter port ]

-- `iw_get_battery_adc`, where `converter` gives the raw value; `none` for IW_FAIL.
unfoldable pub iw_get_battery_adc : (ℕ → Option ℕ) → Battery → Option ℕ
iw_get_battery_adc converter b = elim b.adc_port [ none ↦ none | some port ↦ converter port ]

-- INVALID_BATT_PORT
abbrev pub invalid_batt_port : ℕ
invalid_batt_port = 0xFF

-- `gBattAdcPort` as a number.
abbrev pub port_number : Option ℕ → ℕ
port_number none = invalid_batt_port
port_number (some port) = port

-- `iw_init_battery` and `iw_deinit_battery`, with what `iw_init_adc` and `iw_deinit_adc` do to the
-- board.
unfoldable pub iw_init_battery : {W : Type 0} → (ℕ → ℕ → W → W) → Battery → W → W
iw_init_battery init_adc b w = if b.in_use then init_adc (port_number b.adc_port) b.gpio w else w

unfoldable pub iw_deinit_battery : {W : Type 0} → (ℕ → W → W) → Battery → W → W
iw_deinit_battery deinit_adc b w = if b.in_use then deinit_adc (port_number b.adc_port) w else w
