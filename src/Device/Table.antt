-- ===== src/Device/Table.antt =====
-- What iw_dev_sensor.c and iw_dev_net.c share: their tables have the same shape, and are filled and
-- searched alike. A `func` is the address of the driver's table of functions, 0 for NULL; the
-- drivers are the boards'.
pub mod Registered
use io_tware.Common.{
  ℕ, zero, suc, ◌+◌, ◌%◌, Bool, true, false, ◌&&◌, Option, none, some, List, [], ◌∷◌, Bytes, Exec,
  ok, undefined, ◌>>=◌, ◌==◌, ltb, leb, if◌then◌else◌, set, length, get_or, read,
}
use io_tware.Oal.Fifo.{IwError, success, fail}
use io_tware.Device.Strings.{same_string, strncpy, bit_and}

-- `sensor_dev_info_t` and `net_dev_info_t`
pub record DevInfo : Type 0 where
  pub type : ℕ
  pub iface : ℕ
  pub iface_id : ℕ
  pub dev_id : ℕ
  pub name : Bytes
  pub func : ℕ

-- `sensor_driver_t` and `net_driver_t`
pub record Driver : Type 0 where
  pub name : Bytes
  pub func : ℕ

-- `sensor_info_t` and `net_info_t`
pub record Devices : Type 0 where
  pub dev_num : ℕ
  pub dev : List DevInfo
  pub driver_num : ℕ
  pub driver : List Driver

-- `g_uart_using_info` and `g_i2c_using_info`
pub record Ports : Type 0 where
  pub uart : List ℕ
  pub i2c : List ℕ

-- `MAX_SENSOR_DEV` and `MAX_NET_DEV`
abbrev pub max_dev : ℕ
max_dev = 5

-- `MAX_DRIVER_NAME_LEN`
abbrev pub max_driver_name_len : ℕ
max_driver_name_len = 20

-- `IF_TYPE_I2C` and `IF_TYPE_UART`
abbrev pub if_type_i2c : ℕ
if_type_i2c = 1

abbrev pub if_type_uart : ℕ
if_type_uart = 2

-- The port `i` of an array taken with `info`, `none` where it is in use.
unfoldable pub take_port : List ℕ → ℕ → ℕ → Exec (Option (List ℕ))
take_port using i info =
    if ltb i (length using)
    then ok (if get_or using i 0 == 0 then some (set using i info) else none)
    else undefined

-- The tests of `iw_register_sensor` and `iw_register_network` on the ports, `none` where they return.
unfoldable pub use_port : Ports → ℕ → ℕ → ℕ → Exec (Option Ports)
unfolding take_port
use_port ports iface iface_id info =
    if iface == if_type_uart
    then (do
      taken ← take_port ports.uart iface_id info
      ok (elim taken [ none ↦ none | some u ↦ some (record ports { uart = u }) ]))
    else (if iface == if_type_i2c
        then (do
          taken ← take_port ports.i2c iface_id 1
          ok (elim taken [ none ↦ none | some u ↦ some (record ports { i2c = u }) ]))
        else ok (some ports))

-- The entry behind the registered ones, filled; undefined where there is none.
unfoldable pub append_device : Devices → (DevInfo → DevInfo) → Exec Devices
append_device si fill =
    if ltb si.dev_num (length si.dev)
    then ok (record si {
      dev = set si.dev si.dev_num (
          fill (
            get_or si.dev si.dev_num
              (record { type = 0; iface = 0; iface_id = 0; dev_id = 0; name = []; func = 0 })));
      dev_num = (si.dev_num + 1) % 256;
    })
    else undefined

-- `iw_register_sensor` and `iw_register_network`
unfoldable pub register : Devices → Ports → ℕ → ℕ → ℕ → ℕ → Bytes → Exec (Devices × Ports)
unfolding use_port append_device
register si ports type iface iface_id info name = do
  free ← use_port ports iface iface_id info
  elim free [
    | none ↦ ok (si, ports)
    | some ports' ↦ (do
      (text, _) ← read max_driver_name_len name
      si' ← append_device si (λ d. record d {
        type = type;
        iface = iface;
        iface_id = iface_id;
        name = text;
        dev_id = (si.dev_num + 1) % 256;
      })
      ok (si', ports'))
  ]

-- `iw_register_sensor_driver` and `iw_register_network_driver`
unfoldable pub register_driver : Devices → Driver → Exec Devices
register_driver si new = do
  (text, _) ← read max_driver_name_len new.name
  if ltb si.driver_num (length si.driver)
      then ok (record si {
        driver = set si.driver si.driver_num (record { name = text; func = new.func });
        driver_num = (si.driver_num + 1) % 256;
      })
      else undefined

-- `iw_register_sensor_` and `iw_register_network_`
unfoldable pub register_with_driver :
    Devices → ℕ → Bytes → ℕ → ℕ → Driver → Exec (IwError × Devices)
unfolding append_device
register_with_driver si type name if_type if_num driver =
    if leb max_dev si.dev_num then ok (fail, si) else (do
      text ← strncpy max_driver_name_len name
      si' ← append_device si (λ d. record d {
        type = type;
        name = text;
        iface = if_type;
        iface_id = if_num;
        func = driver.func;
      })
      ok (success, si'))
