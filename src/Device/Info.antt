-- ===== src/Device/Info.antt =====
-- The records of devices that iw_dev_sensor.c and iw_dev_net.c hand out. The caller's array `info`
-- is the list of its records, and each function returns what it makes of it.
use io_tware.Common.{
  ℕ, zero, suc, Bool, true, false, Option, none, some, List, [], ◌∷◌, Bytes, Exec, ok, undefined,
  ◌>>=◌, ◌==◌, if◌then◌else◌, set,
}
use io_tware.Oal.Fifo.{IwError, success, fail}
use io_tware.Device.Strings.{same_string, strcpy, copy_text}
use io_tware.Device.Table.{DevInfo, Devices}

-- `registered_sensor_info_t` and `registered_net_info_t`
pub record RegisteredInfo : Type 0 where
  pub dev_id : ℕ
  pub type : ℕ
  pub name : Bytes

-- The record `i` of an array.
unfoldable pub info_at : List RegisteredInfo → ℕ → Exec RegisteredInfo
info_at [] i = undefined
info_at (r ∷ rs) zero = ok r
info_at (r ∷ rs) (suc i) = info_at rs i

-- `_iw_get_sensor_info`
unfoldable pub get_sensor_info_of : ℕ → DevInfo → List RegisteredInfo → Exec (List RegisteredInfo)
unfolding info_at strcpy
get_sensor_info_of id d info = do
  r ← info_at info id
  text ← strcpy d.name r.name
  ok (set info id (record { dev_id = id; type = d.type; name = text }))

all_loop :
    (ℕ → DevInfo → List RegisteredInfo → Exec (List RegisteredInfo))
    → ℕ
    → List DevInfo
    → ℕ
    → List RegisteredInfo
    → Exec (List RegisteredInfo)
all_loop write zero ds i info = ok info
all_loop write (suc n) [] i info = undefined
all_loop write (suc n) (d ∷ ds) i info = do
  info' ← write i d info
  all_loop write n ds (suc i) info'

-- `iw_get_all_sensors_info`
unfoldable pub iw_get_all_sensors_info :
    Devices → List RegisteredInfo → Exec (IwError × List RegisteredInfo)
unfolding all_loop get_sensor_info_of
iw_get_all_sensors_info si info = do
  info' ← all_loop get_sensor_info_of si.dev_num si.dev 0 info
  ok (success, info')

-- The loop of `iw_get_sensor_info`.
sensor_info_loop :
    ℕ → Bytes → ℕ → List DevInfo → ℕ → List RegisteredInfo → Exec (IwError × List RegisteredInfo)
unfolding get_sensor_info_of
sensor_info_loop type name zero ds i info = ok (fail, info)
sensor_info_loop type name (suc n) [] i info = undefined
sensor_info_loop type name (suc n) (d ∷ ds) i info =
    let rest = sensor_info_loop type name n ds (suc i) info in
    if d.type == type
    then (do
      same ← same_string d.name name
      if same then (do info' ← get_sensor_info_of i d info; ok (success, info')) else rest)
    else rest

-- `iw_get_sensor_info`, where `name` and `info` may be NULL.
unfoldable pub iw_get_sensor_info :
    Devices
    → ℕ
    → Option Bytes
    → Option (List RegisteredInfo)
    → Exec (IwError × Option (List RegisteredInfo))
unfolding sensor_info_loop
iw_get_sensor_info si type (some name) (some info) = do
  (result, info') ← sensor_info_loop type name si.dev_num si.dev 0 info
  ok (result, some info')
iw_get_sensor_info si type none info = ok (fail, info)
iw_get_sensor_info si type (some name) none = ok (fail, none)

-- The record that the loops of `iw_get_all_networks_info` and `iw_get_network_info` fill in.
unfoldable pub get_network_info_of : ℕ → DevInfo → List RegisteredInfo → Exec (List RegisteredInfo)
unfolding info_at copy_text
get_network_info_of id d info = do
  r ← info_at info id
  text ← copy_text d.name r.name
  ok (set info id (record { dev_id = id; type = d.type; name = text }))

-- `iw_get_all_networks_info`
unfoldable pub iw_get_all_networks_info :
    Devices → List RegisteredInfo → Exec (IwError × List RegisteredInfo)
unfolding all_loop get_network_info_of
iw_get_all_networks_info neti info = do
  info' ← all_loop get_network_info_of neti.dev_num neti.dev 0 info
  ok (success, info')

-- `name != NULL && !strcmp(dev->name, name)`
abbrev named : Option Bytes → DevInfo → Exec Bool
named none d = ok false
named (some name) d = same_string d.name name

-- The loop of `iw_get_network_info`, with whether `found` is above 0.
network_info_loop :
    ℕ
    → Option Bytes
    → ℕ
    → List DevInfo
    → ℕ
    → Bool
    → List RegisteredInfo
    → Exec (Bool × List RegisteredInfo)
unfolding get_network_info_of
network_info_loop type name zero ds i found info = ok (found, info)
network_info_loop type name (suc n) [] i found info = undefined
network_info_loop type name (suc n) (d ∷ ds) i false info =
    if d.type == type
    then (do
      info' ← get_network_info_of i d info
      network_info_loop type name n ds (suc i) true info')
    else network_info_loop type name n ds (suc i) false info
network_info_loop type name (suc n) (d ∷ ds) i true info =
    let rest = network_info_loop type name n ds (suc i) true info in
    if d.type == type
    then (do
      same ← named name d
      if same then (do info' ← get_network_info_of i d info; ok (true, info')) else rest)
    else rest

-- `iw_get_network_info`, where `name` and `info` may be NULL.
unfoldable pub iw_get_network_info :
    Devices
    → ℕ
    → Option Bytes
    → Option (List RegisteredInfo)
    → Exec (IwError × Option (List RegisteredInfo))
unfolding network_info_loop
iw_get_network_info neti type name none = ok (fail, none)
iw_get_network_info neti type name (some info) = do
  (found, info') ← network_info_loop type name neti.dev_num neti.dev 0 false info
  ok (if found then success else fail, some info')
