-- ===== src/Device/LowBattery.antt =====
-- The level of IotwareFW/Microservice/ROFW/service.c as the network and sensor calls of
-- oal/interface use it.
use io_tware.Common.{ℕ, ◌+◌, ◌≡◌, ap, ◌∙◌, ◌&&◌, Option, ok, ltb, leb, ◌==◌, if◌then◌else◌, arith}
use io_tware.Oal.Fifo.{success}
use io_tware.Power.Service.{held, autocontrol_lowbattery, autocontrol_lowbattery-level}
use io_tware.Device.Table.{Devices}
use io_tware.Device.Sensor.{SensorFunc, iw_read_sensor, read_sensor}
use io_tware.Device.Net.{NetFunc, iw_send_data_network, send_data_network}

-- The sum of the five voltages, in millivolts, where a read that fails counts as the one before it.
abbrev pub total_voltage : (ℕ → Option ℕ) → ℕ
total_voltage reads =
    let a = held 0 (reads 5) in
    let b = held a (reads 4) in
    let c = held b (reads 3) in
    let d = held c (reads 2) in let e = held d (reads 1) in a + b + c + d + e

abbrev level_of : ℕ → ℕ
level_of total = if ltb total 17000 then 2 else if ltb total 17500 then 1 else 0

level-blocks : (total : ℕ) → (level_of total == 1) ≡ (leb 17000 total && ltb total 17500)
level-blocks total = ground arith

-- After the battery has been looked at, sending and reading do nothing but report success where its
-- mean voltage is from 3.4 V to less than 3.5 V. Otherwise they call the driver, also where the
-- voltage is lower. A read of the voltage that fails counts as the one before it, and a first one
-- that fails as 0.
pub send-low_battery :
    {W V : Type 0} (reads : ℕ → Option ℕ) (networks : ℕ → NetFunc W) (sensors : ℕ → SensorFunc V)
    (neti si : Devices) (net_id sensor_id buf len type : ℕ) (w : W) (v : V)
    → (let total = total_voltage reads in
        (send_data_network networks neti net_id (autocontrol_lowbattery reads) buf len w ≡ (
          if leb 17000 total && ltb total 17500
          then ok (success, neti, w)
          else iw_send_data_network networks neti net_id buf len w))
        × (read_sensor sensors si sensor_id (autocontrol_lowbattery reads) type buf len v ≡ (
            if leb 17000 total && ltb total 17500
            then ok (success, si, v)
            else iw_read_sensor sensors si sensor_id type buf len v)))
unfolding send_data_network read_sensor
send-low_battery reads networks sensors neti si net_id sensor_id buf len type w v =
    let blocks =
      ap (λ l. l == 1) (autocontrol_lowbattery-level reads) ∙ level-blocks (total_voltage reads) in
    (
      ap
          (λ b.
            if b
            then ok (success, neti, w)
            else iw_send_data_network networks neti net_id buf len w)
          blocks,
      ap
          (λ b.
            if b then ok (success, si, v) else iw_read_sensor sensors si sensor_id type buf len v)
          blocks,
    )
