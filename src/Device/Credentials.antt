-- ===== src/Device/Credentials.antt =====
-- The names and keys that iw_dev_net.c keeps for WiFi, LoRa and BLE, each in an array of bytes. A
-- `char *` argument is `none` for NULL, and an array that is handed in for a result is the list of
-- its bytes.
pub mod Padded
pub mod Wifi
pub mod Lora
use io_tware.Common.{
  ℕ, zero, suc, ◌+◌, Bool, true, false, ◌&&◌, ◌||◌, not, Option, none, some, List, [], ◌∷◌, Bytes,
  Exec, ok, undefined, ◌>>=◌, ◌==◌, if◌then◌else◌, zeros, write, read,
}
use io_tware.Oal.Fifo.{IwError, success, fail}
use io_tware.Device.Strings.{strlen, strncpy, copy_text}

-- `wifi_ap_info_t`
pub record WifiApInfo : Type 0 where
  pub ssid : Bytes
  pub pw : Bytes

-- `s[0] != 0`
unfoldable pub has_text : Bytes → Exec Bool
has_text [] = undefined
has_text (b ∷ _) = ok (not (b == 0))

-- `if(s != NULL && s[0] != 0) memcpy(dst, s, strlen(s));`
unfoldable pub put_text : Option Bytes → Bytes → Exec Bytes
unfolding has_text copy_text
put_text none dst = ok dst
put_text (some s) dst = do some_text ← has_text s; if some_text then copy_text s dst else ok dst

-- `iw_register_wifi_info`
unfoldable pub iw_register_wifi_info : WifiApInfo → Option Bytes → Option Bytes → Exec WifiApInfo
unfolding put_text
iw_register_wifi_info ap ssid pw = do
  ssid' ← put_text ssid ap.ssid
  pw' ← put_text pw ap.pw
  ok (record { ssid = ssid'; pw = pw' })

-- `iw_get_wifi_info`, and what it makes of the caller's struct.
unfoldable pub iw_get_wifi_info : WifiApInfo → WifiApInfo → Exec (IwError × WifiApInfo)
unfolding has_text put_text copy_text
iw_get_wifi_info info ap = do
  named ← has_text info.ssid
  if named
      then (do
        ssid' ← copy_text info.ssid ap.ssid
        pw' ← put_text (some info.pw) ap.pw
        ok (success, record { ssid = ssid'; pw = pw' }))
      else ok (fail, ap)

-- `lora_join_info_t`, with 0 for a `join_mode` that was never set.
pub record LoraJoinInfo : Type 0 where
  pub join_mode : ℕ
  pub dev_addr : Bytes
  pub dev_eui : Bytes
  pub nwks_key : Bytes
  pub app_eui : Bytes
  pub apps_key : Bytes
  pub app_key : Bytes

-- `JOIN_ABP` and `JOIN_OTAA`
abbrev pub join_abp : ℕ
join_abp = 1

abbrev pub join_otaa : ℕ
join_otaa = 2

-- `memset(dst, 0x0, n + 1); memcpy(dst, s, strlen(s));`
unfoldable pub put_key : ℕ → Bytes → Bytes → Exec Bytes
unfolding copy_text
put_key n s dst = do cleared ← write 0 (zeros (n + 1)) dst; copy_text s cleared

-- `iw_register_lora_abp_info`
unfoldable pub iw_register_lora_abp_info :
    LoraJoinInfo → Option Bytes → Option Bytes → Option Bytes → Exec (IwError × LoraJoinInfo)
unfolding put_key
iw_register_lora_abp_info join (some dev_addr) (some nwks_key) (some apps_key) = do
  addr ← put_key 8 dev_addr join.dev_addr
  nwks ← put_key 32 nwks_key join.nwks_key
  apps ← put_key 32 apps_key join.apps_key
  ok (
    success,
    record join { join_mode = join_abp; dev_addr = addr; nwks_key = nwks; apps_key = apps },
  )
iw_register_lora_abp_info join none nwks_key apps_key = ok (fail, join)
iw_register_lora_abp_info join (some _) none apps_key = ok (fail, join)
iw_register_lora_abp_info join (some _) (some _) none = ok (fail, join)

-- `iw_register_lora_otaa_info`
unfoldable pub iw_register_lora_otaa_info :
    LoraJoinInfo → Option Bytes → Option Bytes → Option Bytes → Exec (IwError × LoraJoinInfo)
unfolding put_key
iw_register_lora_otaa_info join (some dev_eui) (some app_eui) (some app_key) = do
  dev ← put_key 16 dev_eui join.dev_eui
  eui ← put_key 16 app_eui join.app_eui
  key ← put_key 32 app_key join.app_key
  ok (success, record join { join_mode = join_otaa; dev_eui = dev; app_eui = eui; app_key = key })
iw_register_lora_otaa_info join none app_eui app_key = ok (fail, join)
iw_register_lora_otaa_info join (some _) none app_key = ok (fail, join)
iw_register_lora_otaa_info join (some _) (some _) none = ok (fail, join)

-- `strlen(a) != i || strlen(b) != j || strlen(c) != k`, which stops at the first that holds.
unfoldable pub wrong_lengths : Bytes → ℕ → Bytes → ℕ → Bytes → ℕ → Exec Bool
unfolding strlen
wrong_lengths a i b j c k = do
  la ← strlen a
  if not (la == i) then ok true else (do
    lb ← strlen b
    if not (lb == j) then ok true else (do lc ← strlen c; ok (not (lc == k))))

-- `iw_get_lora_info`, which the caller's struct may be NULL for; the tests of the arrays against
-- NULL never fail.
unfoldable pub iw_get_lora_info :
    LoraJoinInfo → Option LoraJoinInfo → Exec (IwError × Option LoraJoinInfo)
unfolding wrong_lengths copy_text
iw_get_lora_info info none = ok (fail, none)
iw_get_lora_info info (some join) =
    if info.join_mode == join_abp
    then (do
      let set_mode = record join { join_mode = join_abp }
      wrong ← wrong_lengths info.dev_addr 8 info.nwks_key 32 info.apps_key 32
      if wrong then ok (fail, some set_mode) else (do
        addr ← copy_text info.dev_addr join.dev_addr
        nwks ← copy_text info.nwks_key join.nwks_key
        apps ← copy_text info.apps_key join.apps_key
        ok (success, some (record set_mode { dev_addr = addr; nwks_key = nwks; apps_key = apps }))))
    else (if info.join_mode == join_otaa
        then (do
          let set_mode = record join { join_mode = join_otaa }
          wrong ← wrong_lengths info.dev_eui 16 info.app_eui 16 info.app_key 32
          if wrong then ok (fail, some set_mode) else (do
            dev ← copy_text info.dev_eui join.dev_eui
            eui ← copy_text info.app_eui join.app_eui
            key ← copy_text info.app_key join.app_key
            ok (success, some (record set_mode { dev_eui = dev; app_eui = eui; app_key = key }))))
        else ok (fail, some join))

-- `iw_register_lora_band_info`, and `gLoraBand`.
unfoldable pub iw_register_lora_band_info : Bytes → Option Bytes → Exec (IwError × Bytes)
unfolding strlen strncpy
iw_register_lora_band_info band none = ok (fail, band)
iw_register_lora_band_info band (some name) = do
  n ← strlen name
  if not (n == 5)
      then ok (fail, band)
      else (do text ← strncpy 5 name; band' ← write 0 text band; ok (success, band'))

-- `iw_get_lora_band_info`, and what it makes of the caller's array.
unfoldable pub iw_get_lora_band_info : Bytes → Option Bytes → Exec (IwError × Option Bytes)
unfolding has_text strncpy
iw_get_lora_band_info band none = ok (fail, none)
iw_get_lora_band_info band (some dst) = do
  is_set ← has_text band
  if is_set
      then (do text ← strncpy 5 band; dst' ← write 0 text dst; ok (success, some dst'))
      else ok (fail, some dst)

-- `ble_info_t`
pub record BleInfo : Type 0 where
  pub name : Bytes
  pub pincode : Bytes
  pub mode : ℕ

-- `BLE_MASTER_MODE` and `BLE_SLAVE_MODE`
abbrev pub is_ble_mode : ℕ → Bool
is_ble_mode mode = (mode == 1) || (mode == 2)

-- `if(s != NULL && s[0] != 0) strncpy(dst, s, PINCODE_LEN);`
unfoldable pub put_pincode : Option Bytes → Bytes → Exec Bytes
unfolding has_text strncpy
put_pincode none dst = ok dst
put_pincode (some s) dst = do
  some_text ← has_text s
  if some_text then (do text ← strncpy 4 s; write 0 text dst) else ok dst

-- `iw_register_ble_info`: the name is copied up to its NUL, as by `memcpy`.
unfoldable pub iw_register_ble_info :
    BleInfo → Option Bytes → Option Bytes → ℕ → Exec (IwError × BleInfo)
unfolding put_text put_pincode
iw_register_ble_info info name pincode mode = do
  name' ← put_text name info.name
  pincode' ← put_pincode pincode info.pincode
  ok (
    success,
    record {
      name = name';
      pincode = pincode';
      mode = if is_ble_mode mode then mode else info.mode;
    },
  )

-- `iw_get_ble_info`, which the caller's struct may be NULL for.
unfoldable pub iw_get_ble_info : BleInfo → Option BleInfo → IwError × Option BleInfo
iw_get_ble_info info none = (fail, none)
iw_get_ble_info info (some _) = (success, some info)
