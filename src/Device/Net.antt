-- ===== src/Device/Net.antt =====
-- iw_dev_net.c: the network devices and the calls into their drivers, with those of
-- oal/interface/interface_net.c that do more than pass on their arguments. Arguments are as those
-- of the sensors; an `int` result is an integer.
use io_tware.Common.{
  ℕ, ◌||◌, Option, none, some, Bytes, Exec, ok, undefined, ◌>>=◌, ◌==◌, leb, if◌then◌else◌, set,
}
use io_tware.Oal.Fifo.{IwError, success, fail}
use io_tware.Sifw.Object.{ℤ, pos, negsuc}
use io_tware.Device.Table.{
  DevInfo, Driver, Devices, Ports, register, register_driver, register_with_driver,
}
use io_tware.Device.Lookup.{device, get_devid, get_dev_id_by_type, get_dev_id_by_name}
use io_tware.Device.Forward.{Driven, given, forward}

-- `NET_DEV_TYPE_WIFI` and `NET_DEV_TYPE_LORA`
abbrev pub net_dev_type_wifi : ℕ
net_dev_type_wifi = 1

abbrev pub net_dev_type_lora : ℕ
net_dev_type_lora = 4

-- `NET_SUCCESS` and `NET_FAIL`
abbrev pub net_success : ℤ
net_success = pos 0

abbrev pub net_fail : ℤ
net_fail = negsuc 0

-- `net_func_t`
pub record NetFunc (W : Type 0) : Type 0 where
  pub init : Option (Driven IwError W)
  pub deinit : Option (Driven IwError W)
  pub is_ready : Option (ℕ → Driven (IwError × ℕ) W)
  pub available : Option (ℕ → Driven (IwError × ℕ) W)
  pub recv_data : Option (ℕ → ℕ → Driven (IwError × ℕ) W)
  pub send_data : Option (ℕ → ℕ → Driven IwError W)
  pub connect : Option (ℕ → Driven ℤ W)
  pub disconnect : Option (Driven IwError W)
  pub is_connected : Option (ℤ → Driven (IwError × ℤ) W)
  pub scan : Option (ℤ → Driven (ℤ × ℤ) W)
  pub get_capa : Option (ℕ → Driven (IwError × ℕ) W)
  pub set_config : Option (ℕ → ℕ → Driven IwError W)
  pub get_config : Option (ℕ → ℕ → Driven (IwError × ℕ) W)
  pub set_power : Option (ℕ → Driven IwError W)
  pub get_power : Option (ℕ → Driven (IwError × ℕ) W)
  pub get_rssi : Option (ℤ → Driven (IwError × ℤ) W)
  pub connect_server : Option (ℕ → ℤ → ℕ → ℤ → Driven ℤ W)
  pub disconnect_server : Option (Driven ℤ W)

abbrev pub iw_register_network : Devices → Ports → ℕ → ℕ → ℕ → ℕ → Bytes → Exec (Devices × Ports)
iw_register_network = register

abbrev pub iw_register_network_driver : Devices → Driver → Exec Devices
iw_register_network_driver = register_driver

abbrev pub iw_register_network_ : Devices → ℕ → Bytes → ℕ → ℕ → Driver → Exec (IwError × Devices)
iw_register_network_ = register_with_driver

abbrev pub iw_get_registered_net_num : Devices → ℕ
iw_get_registered_net_num neti = neti.dev_num

abbrev pub iw_get_network_devid : Devices → ℕ → Option Bytes → Exec (Option ℕ)
iw_get_network_devid = get_devid

abbrev pub iw_get_network_dev_id_by_type : Devices → ℕ → Exec (Option ℕ)
iw_get_network_dev_id_by_type = get_dev_id_by_type

abbrev pub iw_get_network_dev_id_by_name : Devices → Bytes → Exec (Option ℕ)
iw_get_network_dev_id_by_name = get_dev_id_by_name

-- The kernel's tasks: `iw_create_task` for `netConnectionTask` of a device, 0 for NULL,
-- `iw_delete_task`, and `iw_sleep`.
pub record Kernel (W : Type 0) : Type 0 where
  pub create_task : ℕ → W → ℕ × W
  pub delete_task : ℕ → W → W
  pub sleep : ℕ → W → W

-- The networks' drivers: the functions at an address.
module _ {W : Type 0} (drivers : ℕ → NetFunc W) (neti : Devices) (dev_id : ℕ) where
  -- The end of `iw_init_network`, which has `connection_task_handle` and returns it as it leaves
  -- it. The task is not created for the other types.
  unfoldable pub start_connection : Kernel W → ℕ → DevInfo → Devices → W → IwError × ℕ × Devices × W
  start_connection kernel task d neti' w =
      if (d.type == net_dev_type_wifi) || (d.type == net_dev_type_lora)
      then (let (task', w') = kernel.create_task dev_id w in
          (if task' == 0 then fail else success, task', neti', w'))
      else (success, task, neti', w)

  -- `iw_init_network`. The driver's `init` is called without a test for NULL.
  unfoldable pub iw_init_network : Kernel W → ℕ → W → Exec (IwError × ℕ × Devices × W)
  unfolding start_connection
  iw_init_network kernel task w =
      let w1 = kernel.sleep 100 w in
      if leb neti.dev_num dev_id then ok (fail, task, neti, w1) else elim (device neti.dev dev_id) [
        | none ↦ undefined
        | some d ↦
            if (d.type == 0) || (d.func == 0)
            then ok (fail, task, neti, w1)
            else elim (drivers d.func).init [
              | none ↦ undefined
              | some init ↦
                  let (result, d', w2) = init d w1 in
                  let neti' = record neti { dev = set neti.dev dev_id d' } in
                  elim result [
                    | fail ↦ ok (fail, task, neti', w2)
                    | success ↦ ok (start_connection kernel task d' neti' w2)
                  ]
            ]
      ]

  -- `iw_deinit_network`
  unfoldable pub iw_deinit_network : Kernel W → ℕ → W → Exec (IwError × ℕ × Devices × W)
  unfolding forward
  iw_deinit_network kernel task w =
      let (task', w1) = if task == 0 then (task, w) else (0, kernel.delete_task task w) in
      do
        (_, neti', w2) ← forward drivers (λ f. f.deinit) fail neti dev_id w1
        ok (success, task', neti', w2)

  unfoldable pub iw_is_ready_network : ℕ → W → Exec ((IwError × ℕ) × Devices × W)
  unfolding forward
  iw_is_ready_network status =
      forward drivers (λ f. given (λ g. g status) f.is_ready) (fail, status) neti dev_id

  unfoldable pub iw_available_network : ℕ → W → Exec ((IwError × ℕ) × Devices × W)
  unfolding forward
  iw_available_network len =
      forward drivers (λ f. given (λ g. g len) f.available) (fail, len) neti dev_id

  unfoldable pub iw_recv_data_network : ℕ → ℕ → W → Exec ((IwError × ℕ) × Devices × W)
  unfolding forward
  iw_recv_data_network buff len =
      forward drivers (λ f. given (λ g. g buff len) f.recv_data) (fail, len) neti dev_id

  unfoldable pub iw_send_data_network : ℕ → ℕ → W → Exec (IwError × Devices × W)
  unfolding forward
  iw_send_data_network buff len =
      forward drivers (λ f. given (λ g. g buff len) f.send_data) fail neti dev_id

  unfoldable pub iw_connect_network : ℕ → W → Exec (ℤ × Devices × W)
  unfolding forward
  iw_connect_network timeout =
      forward drivers (λ f. given (λ g. g timeout) f.connect) net_fail neti dev_id

  unfoldable pub iw_disconnect_network : W → Exec (IwError × Devices × W)
  unfolding forward
  iw_disconnect_network = forward drivers (λ f. f.disconnect) fail neti dev_id

  unfoldable pub iw_is_connected_network : ℤ → W → Exec ((IwError × ℤ) × Devices × W)
  unfolding forward
  iw_is_connected_network connected =
      forward drivers (λ f. given (λ g. g connected) f.is_connected) (fail, connected) neti dev_id

  unfoldable pub iw_scan_network : ℤ → W → Exec ((ℤ × ℤ) × Devices × W)
  unfolding forward
  iw_scan_network rssi =
      forward drivers (λ f. given (λ g. g rssi) f.scan) (net_fail, rssi) neti dev_id

  unfoldable pub iw_get_capa_network : ℕ → W → Exec ((IwError × ℕ) × Devices × W)
  unfolding forward
  iw_get_capa_network wake_src =
      forward drivers (λ f. given (λ g. g wake_src) f.get_capa) (fail, wake_src) neti dev_id

  unfoldable pub iw_set_config_network : ℕ → ℕ → W → Exec (IwError × Devices × W)
  unfolding forward
  iw_set_config_network wake_src config =
      forward drivers (λ f. given (λ g. g wake_src config) f.set_config) fail neti dev_id

  unfoldable pub iw_get_config_network : ℕ → ℕ → W → Exec ((IwError × ℕ) × Devices × W)
  unfolding forward
  iw_get_config_network wake_src config =
      forward drivers (λ f. given (λ g. g wake_src config) f.get_config) (fail, wake_src) neti
        dev_id

  unfoldable pub iw_set_pwrmode_network : ℕ → W → Exec (IwError × Devices × W)
  unfolding forward
  iw_set_pwrmode_network pwr_mode =
      forward drivers (λ f. given (λ g. g pwr_mode) f.set_power) fail neti dev_id

  unfoldable pub iw_get_pwrmode_network : ℕ → W → Exec ((IwError × ℕ) × Devices × W)
  unfolding forward
  iw_get_pwrmode_network pwr_mode =
      forward drivers (λ f. given (λ g. g pwr_mode) f.get_power) (fail, pwr_mode) neti dev_id

  unfoldable pub iw_get_rssi_network : ℤ → W → Exec ((IwError × ℤ) × Devices × W)
  unfolding forward
  iw_get_rssi_network rssi =
      forward drivers (λ f. given (λ g. g rssi) f.get_rssi) (fail, rssi) neti dev_id

  unfoldable pub iw_connect_server : ℕ → ℤ → ℕ → ℤ → W → Exec (ℤ × Devices × W)
  unfolding forward
  iw_connect_server address port timeout proto =
      forward drivers (λ f. given (λ g. g address port timeout proto) f.connect_server) net_fail
        neti dev_id

  unfoldable pub iw_disconnect_server : W → Exec (ℤ × Devices × W)
  unfolding forward
  iw_disconnect_server = forward drivers (λ f. f.disconnect_server) net_fail neti dev_id

  -- `send_data_network` of interface_net.c, given what `get_lowbattery_control` returns.
  unfoldable pub send_data_network : ℕ → ℕ → ℕ → W → Exec (IwError × Devices × W)
  unfolding iw_send_data_network
  send_data_network lowbattery buf len w =
      if lowbattery == 1 then ok (success, neti, w) else iw_send_data_network buf len w
