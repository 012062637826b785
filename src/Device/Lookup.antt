-- ===== src/Device/Lookup.antt =====
-- The searches of iw_dev_sensor.c and iw_dev_net.c, which are the same in both. A loop over the
-- registered devices has the entries from its index on and how many of them are left.
pub mod Found
pub mod Names
use io_tware.Common.{
  ℕ, zero, suc, ◌+◌, Bool, true, false, not, ◌&&◌, Option, none, some, List, [], ◌∷◌, Bytes, Exec,
  ok, undefined, ◌>>=◌, ◌==◌, ltb, leb, if◌then◌else◌,
}
use io_tware.Device.Strings.{same_string, bit_and}
use io_tware.Device.Table.{DevInfo, Devices}

-- An entry of the table, `none` outside of it.
unfoldable pub device : List DevInfo → ℕ → Option DevInfo
device [] i = none
device (d ∷ ds) zero = some d
device (d ∷ ds) (suc i) = device ds i

-- The test of `iw_get_sensor_devid` on the type.
unfoldable pub shares_type : ℕ → DevInfo → Bool
shares_type type d = ltb 0 type && not (bit_and d.type type == 0)

-- The loop of `iw_get_sensor_devid`: what `*devid` holds, if it was found.
unfoldable pub devid_loop : ℕ → Option Bytes → ℕ → List DevInfo → ℕ → Option ℕ → Exec (Option ℕ)
unfolding shares_type
devid_loop type name zero ds i found = ok found
devid_loop type name (suc n) [] i found = undefined
devid_loop type none (suc n) (d ∷ ds) i found =
    devid_loop type none n ds (suc i) (if shares_type type d then some i else found)
devid_loop type (some s) (suc n) (d ∷ ds) i found =
    let rest = devid_loop type (some s) n ds (suc i) found in
    if shares_type type d
    then (do same ← same_string s d.name; if same then ok (some i) else rest)
    else rest

-- `iw_get_sensor_devid` and `iw_get_network_devid`, with `none` for IW_FAIL; `name` may be NULL.
unfoldable pub get_devid : Devices → ℕ → Option Bytes → Exec (Option ℕ)
unfolding devid_loop
get_devid si type name = devid_loop type name si.dev_num si.dev 0 none

-- The first entry that passes a test.
unfoldable pub find_device : (DevInfo → Exec Bool) → ℕ → List DevInfo → ℕ → Exec (Option ℕ)
find_device test zero ds i = ok none
find_device test (suc n) [] i = undefined
find_device test (suc n) (d ∷ ds) i =
    let rest = find_device test n ds (suc i) in
    do passed ← test d; if passed then ok (some i) else rest

-- `(dev->type & type) == type`
unfoldable pub has_type : ℕ → DevInfo → Bool
has_type type d = bit_and d.type type == type

-- `iw_get_sensor_dev_id_by_type` and `iw_get_network_dev_id_by_type`
unfoldable pub get_dev_id_by_type : Devices → ℕ → Exec (Option ℕ)
unfolding find_device has_type
get_dev_id_by_type si type = find_device (λ d. ok (has_type type d)) si.dev_num si.dev 0

-- `dev->type != 0 && strcmp(name, dev->name) == 0`
unfoldable pub has_name : Bytes → DevInfo → Exec Bool
has_name name d = if d.type == 0 then ok false else same_string name d.name

-- `iw_get_sensor_dev_id_by_name` and `iw_get_network_dev_id_by_name`
unfoldable pub get_dev_id_by_name : Devices → Bytes → Exec (Option ℕ)
unfolding find_device has_name
get_dev_id_by_name si name = find_device (has_name name) si.dev_num si.dev 0
