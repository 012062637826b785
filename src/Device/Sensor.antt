-- ===== src/Device/Sensor.antt =====
-- iw_dev_sensor.c: the sensors and the calls into their drivers, with those of
-- oal/interface/interface_sensor.c that do more than pass on their arguments. A scalar that a
-- driver fills in through a pointer comes with its old value and goes back with the new one; a
-- buffer is an address in the drivers' world.
use io_tware.Common.{ℕ, Option, none, some, Bytes, Exec, ok, undefined, ◌==◌, leb, if◌then◌else◌}
use io_tware.Oal.Fifo.{IwError, success, fail}
use io_tware.Device.Table.{Driver, Devices, Ports, register, register_driver, register_with_driver}
use io_tware.Device.Lookup.{device, get_devid, get_dev_id_by_type, get_dev_id_by_name}
use io_tware.Device.Forward.{Driven, given, forward}

-- `sensor_func_t`
pub record SensorFunc (W : Type 0) : Type 0 where
  pub init : Option (Driven IwError W)
  pub deinit : Option (Driven IwError W)
  pub is_ready : Option (ℕ → Driven (IwError × ℕ) W)
  pub read : Option (ℕ → ℕ → ℕ → Driven IwError W)
  pub get_capa : Option (ℕ → Driven (IwError × ℕ) W)
  pub set_config : Option (ℕ → ℕ → Driven IwError W)
  pub get_config : Option (ℕ → ℕ → Driven (IwError × ℕ) W)
  pub set_power : Option (ℕ → Driven IwError W)
  pub get_power : Option (ℕ → Driven (IwError × ℕ) W)

abbrev pub iw_register_sensor : Devices → Ports → ℕ → ℕ → ℕ → ℕ → Bytes → Exec (Devices × Ports)
iw_register_sensor = register

abbrev pub iw_register_sensor_driver : Devices → Driver → Exec Devices
iw_register_sensor_driver = register_driver

abbrev pub iw_register_sensor_ : Devices → ℕ → Bytes → ℕ → ℕ → Driver → Exec (IwError × Devices)
iw_register_sensor_ = register_with_driver

abbrev pub iw_get_registered_sensor_num : Devices → ℕ
iw_get_registered_sensor_num si = si.dev_num

abbrev pub iw_get_sensor_devid : Devices → ℕ → Option Bytes → Exec (Option ℕ)
iw_get_sensor_devid = get_devid

abbrev pub iw_get_sensor_dev_id_by_type : Devices → ℕ → Exec (Option ℕ)
iw_get_sensor_dev_id_by_type = get_dev_id_by_type

abbrev pub iw_get_sensor_dev_id_by_name : Devices → Bytes → Exec (Option ℕ)
iw_get_sensor_dev_id_by_name = get_dev_id_by_name

-- `iw_get_sensor_dev_info`: the index of the entry, `none` for NULL.
unfoldable pub iw_get_sensor_dev_info : Devices → ℕ → Exec (Option ℕ)
iw_get_sensor_dev_info si dev_id =
    if leb si.dev_num dev_id then ok none else elim (device si.dev dev_id) [
      | none ↦ undefined
      | some d ↦ ok (if d.type == 0 then none else some dev_id)
    ]

-- The sensors' drivers: the functions at an address.
module _ {W : Type 0} (drivers : ℕ → SensorFunc W) (si : Devices) (dev_id : ℕ) where
  unfoldable pub iw_init_sensor : W → Exec (IwError × Devices × W)
  unfolding forward
  iw_init_sensor w =
      if leb si.dev_num dev_id then ok (fail, si, w) else elim (device si.dev dev_id) [
        | none ↦ undefined
        | some d ↦
            if d.type == 0 then ok (fail, si, w) else forward drivers (λ f. f.init) fail si dev_id w
      ]

  unfoldable pub iw_deinit_sensor : W → Exec (IwError × Devices × W)
  unfolding forward
  iw_deinit_sensor = forward drivers (λ f. f.deinit) fail si dev_id

  unfoldable pub iw_is_ready_sensor : ℕ → W → Exec ((IwError × ℕ) × Devices × W)
  unfolding forward
  iw_is_ready_sensor status =
      forward drivers (λ f. given (λ g. g status) f.is_ready) (fail, status) si dev_id

  unfoldable pub iw_read_sensor : ℕ → ℕ → ℕ → W → Exec (IwError × Devices × W)
  unfolding forward
  iw_read_sensor type buff len =
      forward drivers (λ f. given (λ g. g type buff len) f.read) fail si dev_id

  unfoldable pub iw_get_capa_sensor : ℕ → W → Exec ((IwError × ℕ) × Devices × W)
  unfolding forward
  iw_get_capa_sensor wake_src =
      forward drivers (λ f. given (λ g. g wake_src) f.get_capa) (fail, wake_src) si dev_id

  unfoldable pub iw_set_config_sensor : ℕ → ℕ → W → Exec (IwError × Devices × W)
  unfolding forward
  iw_set_config_sensor wake_src config =
      forward drivers (λ f. given (λ g. g wake_src config) f.set_config) fail si dev_id

  unfoldable pub iw_get_config_sensor : ℕ → ℕ → W → Exec ((IwError × ℕ) × Devices × W)
  unfolding forward
  iw_get_config_sensor wake_src config =
      forward drivers (λ f. given (λ g. g wake_src config) f.get_config) (fail, wake_src) si dev_id

  unfoldable pub iw_set_pwrmode_sensor : ℕ → W → Exec (IwError × Devices × W)
  unfolding forward
  iw_set_pwrmode_sensor pwr_mode =
      forward drivers (λ f. given (λ g. g pwr_mode) f.set_power) fail si dev_id

  unfoldable pub iw_get_pwrmode_sensor : ℕ → W → Exec ((IwError × ℕ) × Devices × W)
  unfolding forward
  iw_get_pwrmode_sensor pwr_mode =
      forward drivers (λ f. given (λ g. g pwr_mode) f.get_power) (fail, pwr_mode) si dev_id

  -- `read_sensor` of interface_sensor.c, given what `get_lowbattery_control` returns.
  unfoldable pub read_sensor : ℕ → ℕ → ℕ → ℕ → W → Exec (IwError × Devices × W)
  unfolding iw_read_sensor
  read_sensor lowbattery type buff len w =
      if lowbattery == 1 then ok (success, si, w) else iw_read_sensor type buff len w
