-- ===== src/Device/Forward.antt =====
-- A call of iw_dev_sensor.c or iw_dev_net.c into a device's driver. The drivers are the boards': a
-- function of theirs gets its device's entry and the world `W` that the drivers keep, the callers'
-- buffers included, and may change both.
pub mod Frame
use io_tware.Common.{
  ℕ, zero, suc, Option, none, some, List, [], ◌∷◌, Exec, ok, undefined, ◌==◌, if◌then◌else◌, set,
}
use io_tware.Device.Table.{DevInfo, Devices}
use io_tware.Device.Lookup.{device}

abbrev pub Driven : Type 0 → Type 0 → Type 0
Driven R W = DevInfo → W → R × DevInfo × W

-- A function pointer of a driver, called with the arguments that `call` gives it.
abbrev pub given : {F G : Type 0} → (F → G) → Option F → Option G
given call none = none
given call (some f) = some (call f)

-- `if(si.dev[dev_id].func && si.dev[dev_id].func->f) return si.dev[dev_id].func->f(...);`, and
-- `otherwise` where that does not return. `tables` has the functions at an address, and `f` is
-- taken from there.
unfoldable pub forward :
    {F R W : Type 0}
    → (ℕ → F)
    → (F → Option (Driven R W))
    → R
    → Devices
    → ℕ
    → W
    → Exec (R × Devices × W)
forward tables f otherwise si dev_id w = elim (device si.dev dev_id) [
  | none ↦ undefined
  | some d ↦ if d.func == 0 then ok (otherwise, si, w) else elim (f (tables d.func)) [
    | none ↦ ok (otherwise, si, w)
    | some call ↦ let (r, d', w') = call d w in ok (r, record si { dev = set si.dev dev_id d' }, w')
  ]
]
