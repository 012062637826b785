-- ===== src/Power/Service.antt =====
-- autocontrol_lowbattery of IotwareFW/Microservice/ROFW/service.c.
use io_tware.Common.{ℕ, zero, suc, ◌+◌, ◌/◌, ◌≡◌, Option, none, some, ltb, if◌then◌else◌, arith}

-- What a read of the voltage leaves in the variable.
abbrev pub held : ℕ → Option ℕ → ℕ
held voltage none = voltage
held voltage (some v) = v

-- The loop of `autocontrol_lowbattery`, with `cnt` rounds to go, by the results of the reads.
unfoldable pub sum_voltages : (ℕ → Option ℕ) → ℕ → ℕ → ℕ → ℕ
sum_voltages reads zero voltage sum = sum
sum_voltages reads (suc cnt) voltage sum =
    let next = held voltage (reads (suc cnt)) in sum_voltages reads cnt next (sum + next)

-- `lowbattery_control` by the mean voltage.
unfoldable pub control_level : ℕ → ℕ
control_level sum = if ltb sum 3500 then (if ltb sum 3400 then 2 else 1) else 0

-- `autocontrol_lowbattery`
unfoldable pub autocontrol_lowbattery : (ℕ → Option ℕ) → ℕ
unfolding sum_voltages control_level
autocontrol_lowbattery reads = control_level (sum_voltages reads 5 0 0 / 5)

mean_level :
    (a b c d e : ℕ)
    → control_level ((0 + a + b + c + d + e) / 5) ≡ (
        if ltb (a + b + c + d + e) 17000 then 2 else if ltb (a + b + c + d + e) 17500 then 1 else 0)
unfolding control_level
mean_level a b c d e = ground arith

pub autocontrol_lowbattery-level :
    (reads : ℕ → Option ℕ)
    → autocontrol_lowbattery reads ≡ (
        let a = held 0 (reads 5) in
        let b = held a (reads 4) in
        let c = held b (reads 3) in
        let d = held c (reads 2) in
        let e = held d (reads 1) in
        let total = a + b + c + d + e in
        if ltb total 17000 then 2 else if ltb total 17500 then 1 else 0)
unfolding autocontrol_lowbattery sum_voltages control_level
autocontrol_lowbattery-level reads =
    let a = held 0 (reads 5) in
    let b = held a (reads 4) in
    let c = held b (reads 3) in let d = held c (reads 2) in mean_level a b c d (held d (reads 1))
