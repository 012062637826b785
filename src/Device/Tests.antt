-- ===== src/Device/Tests.antt =====
-- A table of two sensors, a driver whose device cannot be initialized, and short texts.
use io_tware.Common.{
  ℕ, ◌+◌, ◌≡◌, ◌≤◌, ◌⊎◌, refl, Option, none, some, [], ◌∷◌, ◌++◌, Bytes, ok, zeros, arith,
}
use io_tware.Oal.Fifo.{success, fail}
use io_tware.Sifw.Object.{pos}
use io_tware.Device.Strings.{same_string}
use io_tware.Device.Strings.Laws.{IsText, text_in}
use io_tware.Device.Table.{DevInfo, Driver, Devices, max_dev, register_with_driver}
use io_tware.Device.Table.Registered.{
  Valid, registered, registered_with, next_entry, register-registered,
}
use io_tware.Device.Lookup.{
  device, get_devid, get_dev_id_by_type, get_dev_id_by_name, has_type, shares_type, has_name,
}
use io_tware.Device.Lookup.Found.{IsFirst, IsLast, get_devid-Found}
use io_tware.Device.Lookup.Names.{register-find}
use io_tware.Device.Sensor.{SensorFunc, read_sensor}
use io_tware.Device.Net.{
  NetFunc, Kernel, send_data_network, iw_is_connected_network, iw_is_ready_network,
}
use io_tware.Device.Connection.{TaskState, leave, connection_round, check_ready}
use io_tware.Device.Connection.Run.{none_yet, one_more, Stands, Rounds-Stands}
use io_tware.Device.Credentials.{
  WifiApInfo, LoraJoinInfo, iw_register_wifi_info, iw_get_wifi_info, iw_register_lora_abp_info,
  iw_register_lora_otaa_info, iw_get_lora_info,
}
use io_tware.Device.Credentials.Padded.{over}
use io_tware.Device.Credentials.Wifi.{wifi_texts, no_wifi, register-get_wifi_info}
use io_tware.Device.Credentials.Lora.{HasRoom, Fit, no_join, register-get_lora_info}
use io_tware.Power.Service.{autocontrol_lowbattery}
use io_tware.Device.LowBattery.{send-low_battery}

abbrev entry : ℕ → Bytes → DevInfo
entry type name = record {
  type = type;
  iface = 1;
  iface_id = 0;
  dev_id = 0;
  name = name ++ zeros 17;
  func = 1;
}

abbrev unused : DevInfo
unused = record { type = 0; iface = 0; iface_id = 0; dev_id = 0; name = zeros 20; func = 0 }

abbrev tmp : Bytes
tmp = 116 ∷ 109 ∷ 112 ∷ []

abbrev hum : Bytes
hum = 104 ∷ 117 ∷ 109 ∷ []

abbrev table : Devices
table = record {
  dev_num = 2;
  dev = entry 1 tmp ∷ entry 5 tmp ∷ unused ∷ unused ∷ unused ∷ [];
  driver_num = 0;
  driver = [];
}

abbrev driver : Driver
driver = record { name = tmp ++ zeros 17; func = 2 }

table-Valid : Valid table
table-Valid = record { room = refl; within = omega arith }

hum-IsText : IsText hum
hum-IsText = (λ e. ground arith, (λ e. ground arith, (λ e. ground arith, tt)))

tmp-IsText : IsText tmp
tmp-IsText = (λ e. ground arith, (λ e. ground arith, (λ e. ground arith, tt)))

hum_missing : get_dev_id_by_name table (text_in hum []) ≡ ok none
unfolding get_dev_id_by_name has_name same_string
hum_missing = refl

register-registered_example :
    ((si' : Devices) × (register_with_driver table 4 (text_in hum []) 1 0 driver
        ≡ ok (success, si'))
      × Valid si'
      × (registered si'
          ≡ entry 1 tmp
            ∷ entry 5 tmp
            ∷ registered_with 4 (hum ++ zeros 17) 1 0 2 (next_entry table)
            ∷ []))
    ⊎ ((2 ≡ max_dev)
        × (register_with_driver table 4 (text_in hum []) 1 0 driver ≡ ok (fail, table)))
register-registered_example =
    register-registered table 4 1 0 hum [] driver table-Valid hum-IsText (omega arith)

get_devid-Found_example :
    ((first : Option ℕ) × (get_dev_id_by_type table 1 ≡ ok first)
      × IsFirst (has_type 1) (registered table) first)
    × ((last : Option ℕ) × (get_devid table 1 none ≡ ok last)
        × IsLast (shares_type 1) (registered table) last)
get_devid-Found_example = get_devid-Found table 1 table-Valid

register-find_example :
    (si' : Devices) × (register_with_driver table 4 (text_in hum []) 1 0 driver ≡ ok (success, si'))
    × (get_dev_id_by_name si' (text_in hum []) ≡ ok (some 2))
register-find_example =
    register-find table 4 1 0 hum [] driver table-Valid (omega arith) hum-IsText (omega arith)
      (λ e. ground arith) hum_missing

-- A driver that counts the calls to it, and cannot initialize its device.
abbrev failing : NetFunc ℕ
failing = record {
  init = none;
  deinit = none;
  is_ready = some (λ status d w. ((success, 2), d, w + 1));
  available = none;
  recv_data = none;
  send_data = some (λ buff len d w. (success, d, w + 1));
  connect = none;
  disconnect = none;
  is_connected = some (λ connected d w. ((success, pos 0), d, w + 1));
  scan = none;
  get_capa = none;
  set_config = none;
  get_config = none;
  set_power = none;
  get_power = none;
  get_rssi = none;
  connect_server = none;
  disconnect_server = none;
}

abbrev sensor : SensorFunc ℕ
sensor = record {
  init = none;
  deinit = none;
  is_ready = none;
  read = some (λ type buff len d w. (success, d, w + 1));
  get_capa = none;
  set_config = none;
  get_config = none;
  set_power = none;
  get_power = none;
}

send-low_battery_example :
    (send_data_network (λ _. failing) table 0 (autocontrol_lowbattery (λ _. some 3450)) 7 8 0
      ≡ ok (success, table, 0))
    × (read_sensor (λ _. sensor) table 0 (autocontrol_lowbattery (λ _. some 3450)) 1 7 8 0
        ≡ ok (success, table, 0))
send-low_battery_example =
    send-low_battery (λ _. some 3450) (λ _. failing) (λ _. sensor) table table 0 0 7 8 1 0 0

abbrev kernel : Kernel ℕ
kernel = record { create_task = λ dev_id w. (1, w); delete_task = λ task w. w; sleep = λ ms w. w }

abbrev started : TaskState ℕ
started = record { rssi = pos 0; connected_status = pos 0; dev_status = 0; neti = table; world = 0 }

abbrev left : TaskState ℕ
left = record started { dev_status = 2; world = 2 }

leaving : connection_round (λ _. failing) kernel 1 0 started ≡ ok (leave, left)
unfolding connection_round check_ready iw_is_connected_network iw_is_ready_network device
leaving = refl

Rounds-Stands_example : Stands (λ _. failing) kernel 1 0 started (leave, left)
Rounds-Stands_example =
    Rounds-Stands (λ _. failing) kernel 1 0 started left leave (omega arith)
      (one_more none_yet leaving)

-- "tmp" over "hum".
register-get_wifi_info_example :
    (info : WifiApInfo) × (iw_register_wifi_info
        (wifi_texts hum [])
        (some (text_in tmp []))
        (some (text_in hum []))
      ≡ ok info)
    × (iw_get_wifi_info info no_wifi ≡ ok (success, wifi_texts (over tmp hum) (over hum [])))
register-get_wifi_info_example =
    register-get_wifi_info hum [] 116 (109 ∷ 112 ∷ []) hum [] [] hum-IsText tt tmp-IsText hum-IsText
      (omega arith) (omega arith) (omega arith) (omega arith)

no_join-HasRoom : HasRoom no_join
no_join-HasRoom = record {
  dev_addr_room = refl;
  dev_eui_room = refl;
  nwks_key_room = refl;
  app_eui_room = refl;
  apps_key_room = refl;
  app_key_room = refl;
}

hum-Fit : {i j k : ℕ} → 3 ≤ i → 3 ≤ j → 3 ≤ k → Fit hum i hum j hum k
hum-Fit h h' h'' = record {
  first = (hum-IsText, h);
  second = (hum-IsText, h');
  third = (hum-IsText, h'');
}

-- Texts that are too short are registered, and not read.
register-get_lora_info_example :
    ((info : LoraJoinInfo) × (iw_register_lora_abp_info no_join
          (some (text_in hum []))
          (some (text_in hum []))
          (some (text_in hum []))
        ≡ ok (success, info))
      × (iw_get_lora_info info (some no_join) ≡ ok (fail, some (record no_join { join_mode = 1 }))))
    × ((info : LoraJoinInfo) × (iw_register_lora_otaa_info no_join
            (some (text_in hum []))
            (some (text_in hum []))
            (some (text_in hum []))
          ≡ ok (success, info))
        × (iw_get_lora_info info (some no_join)
            ≡ ok (fail, some (record no_join { join_mode = 2 }))))
register-get_lora_info_example =
    register-get_lora_info no_join hum hum hum hum hum hum [] [] [] no_join-HasRoom
      (hum-Fit (omega arith) (omega arith) (omega arith))
      (hum-Fit (omega arith) (omega arith) (omega arith))
