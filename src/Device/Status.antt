-- ===== src/Device/Status.antt =====
-- iw_get_network_status and iw_get_sensor_status of iw_sys.c, which ask the drivers one thing after
-- the other and stop at the first that fails. What the pointers lead to comes in and goes out as a
-- record.
use io_tware.Common.{ℕ, Exec, ok, ◌>>=◌}
use io_tware.Oal.Fifo.{IwError, success, fail}
use io_tware.Sifw.Object.{ℤ}
use io_tware.Device.Table.{Devices}
use io_tware.Device.Sensor.{SensorFunc, iw_get_config_sensor, iw_get_pwrmode_sensor}
use io_tware.Device.Net.{
  NetFunc, iw_is_connected_network, iw_get_rssi_network, iw_get_config_network,
  iw_get_pwrmode_network,
}

-- The arguments of `iw_get_network_status` that are filled in.
pub record NetworkStatus : Type 0 where
  pub connected : ℤ
  pub strength : ℤ
  pub wake_src : ℕ
  pub mode : ℕ

-- Those of `iw_get_sensor_status`.
pub record SensorStatus : Type 0 where
  pub wake_src : ℕ
  pub mode : ℕ

unfoldable pub iw_get_network_status :
    {W : Type 0}
    → (ℕ → NetFunc W)
    → Devices
    → ℕ
    → NetworkStatus
    → W
    → Exec (IwError × NetworkStatus × Devices × W)
unfolding iw_is_connected_network iw_get_rssi_network iw_get_config_network iw_get_pwrmode_network
iw_get_network_status drivers neti dev_id s w = do
  ((r1, connected), neti1, w1) ← iw_is_connected_network drivers neti dev_id s.connected w
  let s1 = record s { connected = connected }
  elim r1 [
    | fail ↦ ok (fail, s1, neti1, w1)
    | success ↦ (do
      ((r2, strength), neti2, w2) ← iw_get_rssi_network drivers neti1 dev_id s1.strength w1
      let s2 = record s1 { strength = strength }
      elim r2 [
        | fail ↦ ok (fail, s2, neti2, w2)
        | success ↦ (do
          ((r3, wake_src), neti3, w3) ← iw_get_config_network drivers neti2 dev_id s2.wake_src 0 w2
          let s3 = record s2 { wake_src = wake_src }
          elim r3 [
            | fail ↦ ok (fail, s3, neti3, w3)
            | success ↦ (do
              ((r4, mode), neti4, w4) ← iw_get_pwrmode_network drivers neti3 dev_id s3.mode w3
              ok (r4, record s3 { mode = mode }, neti4, w4))
          ])
      ])
  ]

unfoldable pub iw_get_sensor_status :
    {W : Type 0}
    → (ℕ → SensorFunc W)
    → Devices
    → ℕ
    → SensorStatus
    → W
    → Exec (IwError × SensorStatus × Devices × W)
unfolding iw_get_config_sensor iw_get_pwrmode_sensor
iw_get_sensor_status drivers si dev_id s w = do
  ((r1, wake_src), si1, w1) ← iw_get_config_sensor drivers si dev_id s.wake_src 0 w
  let s1 = record s { wake_src = wake_src }
  elim r1 [
    | fail ↦ ok (fail, s1, si1, w1)
    | success ↦ (do
      ((r2, mode), si2, w2) ← iw_get_pwrmode_sensor drivers si1 dev_id s1.mode w1
      ok (r2, record s1 { mode = mode }, si2, w2))
  ]
