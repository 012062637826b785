-- ===== src/Device/Connection.antt =====
-- `netConnectionTask` of iw_dev_net.c, which keeps a device connected. A round of its loop is a
-- function; the task is the sequence of the rounds, which may never end.
pub mod Run
use io_tware.Common.{
  ℕ, Bool, true, false, ◌&&◌, ◌||◌, Option, none, some, Exec, ok, undefined, ◌>>=◌, ◌==◌,
  if◌then◌else◌,
}
use io_tware.Oal.Fifo.{IwError, success, fail}
use io_tware.Sifw.Object.{ℤ, pos, negsuc}
use io_tware.Device.Table.{Devices}
use io_tware.Device.Net.{
  NetFunc, Kernel, net_dev_type_wifi, net_dev_type_lora, iw_is_connected_network,
  iw_is_ready_network, iw_scan_network, iw_connect_network, iw_get_network_devid,
}

-- The variables of the task that the drivers fill in, and the state around it.
pub record TaskState (W : Type 0) : Type 0 where
  pub rssi : ℤ
  pub connected_status : ℤ
  pub dev_status : ℕ
  pub neti : Devices
  pub world : W

-- `DEV_INITIALIZED` and `DEV_INIT_ERROR`
abbrev pub dev_initialized : ℕ
dev_initialized = 1

abbrev pub dev_init_error : ℕ
dev_init_error = 2

-- How a round ends: with the next one, or by `break`.
pub data RoundEnd : Type 0 where
  again leave : RoundEnd

-- `connected_status == n`, for a constant that is not negative.
abbrev pub is_status : ℕ → ℤ → Bool
is_status n (pos m) = m == n
is_status n (negsuc _) = false

-- Whether there is nothing to do: NET_GOT_IP for WiFi, NET_CONNECTED for LoRa.
unfoldable pub is_up : ℕ → ℤ → Bool
is_up type status =
    ((type == net_dev_type_wifi) && is_status 2 status)
    || ((type == net_dev_type_lora) && is_status 1 status)

-- `net_retval == NET_AP_NOT_FOUND`, -3
abbrev pub ap_not_found : ℤ → Bool
ap_not_found (pos _) = false
ap_not_found (negsuc n) = n == 2

module _ {W : Type 0} (drivers : ℕ → NetFunc W) (kernel : Kernel W) (type dev_id : ℕ) where
  -- `iw_sleep(1000)` at the end of a round.
  unfoldable pub rest_of : TaskState W → RoundEnd × TaskState W
  rest_of s = (again, record s { world = kernel.sleep 1000 s.world })

  -- The round where the device is initialized: a scan, and an attempt to connect.
  unfoldable pub try_connecting : TaskState W → Exec (RoundEnd × TaskState W)
  unfolding rest_of iw_scan_network iw_connect_network
  try_connecting s = do
    ((net_retval, rssi), neti1, w1) ← iw_scan_network drivers s.neti dev_id s.rssi s.world
    let s1 = record s { rssi = rssi; neti = neti1; world = w1 } in
        if is_status 0 net_retval
        then (do
          (_, neti2, w2) ← iw_connect_network drivers neti1 dev_id 20000 w1
          ok (rest_of (record s1 { neti = neti2; world = w2 })))
        else (if ap_not_found net_retval
            then ok (rest_of (record s1 { world = kernel.sleep 1000 w1 }))
            else ok (rest_of s1))

  -- The round where the device is not connected.
  unfoldable pub check_ready : TaskState W → Exec (RoundEnd × TaskState W)
  unfolding rest_of try_connecting iw_is_ready_network
  check_ready s = do
    ((retval, status), neti', w') ← iw_is_ready_network drivers s.neti dev_id s.dev_status s.world
    let s' = record s { dev_status = status; neti = neti'; world = w' } in
        elim retval [
          | fail ↦ ok (rest_of s')
          | success ↦
              if status == dev_initialized
              then try_connecting s'
              else (if status == dev_init_error then ok (leave, s') else ok (rest_of s'))
        ]

  -- A round of the loop.
  unfoldable pub connection_round : TaskState W → Exec (RoundEnd × TaskState W)
  unfolding rest_of check_ready is_up iw_is_connected_network
  connection_round s = do
    ((retval, connected), neti', w') ←
        iw_is_connected_network drivers s.neti dev_id s.connected_status s.world
    let s' = record s { connected_status = connected; neti = neti'; world = w' } in
        elim retval [
          | fail ↦ ok (rest_of s')
          | success ↦ if is_up type connected then ok (rest_of s') else check_ready s'
        ]
