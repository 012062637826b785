-- ===== src/Sifw/Dispatch/Sound/Loops.antt =====
-- The loops of the handlers of task_lwmsg_dist.c over an array, and _lwmsg_offloarding, by the
-- services that they leave.
use io_tware.Common.{ℕ, Bool, true, false, Option, none, some, ◌==◌, if◌then◌else◌}
use io_tware.Sifw.Key
use io_tware.Sifw.Object.{LwmObject, Items, no_items, item, LwMessage}
use io_tware.Sifw.Build.{string_value}
use io_tware.Sifw.Dispatch.Store.{
  Device, Round, returns, goes_on, result_of, body_array, single, each, over_single, int_value,
  task_by_int,
}
use io_tware.Sifw.Dispatch.Services.{switch_all, offload, lwmsg_offloading}
use io_tware.Sifw.Dispatch.Unblocked.{Holds-if, Holds-option, Unblocked-bind, int_value-Unblocked}
use io_tware.Smfw.State.{Run, ok, ◌>>=◌, TaskInfo, Service, Env}
use io_tware.Smfw.Connect.{task_onoff}
use io_tware.Smfw.Connect.Output.{Holds, Holds-bind}
use io_tware.Smfw.Lifecycle.Sound.{Sound, SoundResult}
use io_tware.Smfw.Lifecycle.Running.{onoff-Sound}
use io_tware.Smfw.Registry.{get_micro_service_info_by_id, put_service}
use io_tware.Sifw.Dispatch.Sound.{
  AllSound, SoundDevice, CodeSound, FoundSound, put-Sound, get-Sound,
}

switch_all-Sound :
    (env : Env) (onoff : Bool) (indices : Items) (rsc : ℕ) (s : Service)
    → Sound s
    → Holds CodeSound (switch_all env onoff indices rsc s)
unfolding switch_all
switch_all-Sound env onoff no_items rsc s h = h
switch_all-Sound env onoff (item index indices) rsc s h =
    let next =
      λ (r : Bool × Service). if r.0 then switch_all env onoff indices 200 r.1 else ok (400, r.1) in
    let one = λ (ti : TaskInfo). task_onoff env s ti onoff >>= next in
    Unblocked-bind CodeSound (int_value index)
      (λ i. elim (task_by_int s i) [ none ↦ ok (404, s) | some ti ↦ one ti ])
      (int_value-Unblocked index)
      (λ i. Holds-option CodeSound (task_by_int s i) (ok (404, s)) one h (λ ti.
        Holds-bind SoundResult CodeSound (task_onoff env s ti onoff) next
          (onoff-Sound env s ti onoff h)
          (λ r k.
            Holds-if CodeSound r.0 (switch_all env onoff indices 200 r.1) (ok (400, r.1))
              (switch_all-Sound env onoff indices 200 r.1 k) k)))

abbrev pub put_in : Device → Service → ℕ × Service → Run Round
put_in device s r =
    ok (goes_on r.0 (record device { services = put_service device.services s.ms_id r.1 }))

-- Putting a sound service back.
pub put_in-Sound :
    (device : Device) (s : Service) (r : Run (ℕ × Service))
    → AllSound device.services
    → Holds CodeSound r
    → Holds (λ q. SoundDevice (result_of q)) (r >>= put_in device s)
put_in-Sound device s r h k =
    Holds-bind CodeSound (λ q. SoundDevice (result_of q)) r (put_in device s) k
      (λ q g. put-Sound device.services s.ms_id q.1 h g)

-- The rounds of a loop over the objects of an array.
abbrev pub SoundRound : Round → Type 0
SoundRound r = SoundDevice (result_of r)

round-Sound :
    (rest : ℕ → Device → Run Round)
    → ((c : ℕ) (d : Device) → AllSound d.services → Holds SoundRound (rest c d))
    → (r : Round) → SoundRound r
    → Holds SoundRound
        (elim r as (λ x. Run Round) [ returns c d ↦ ok (returns c d) | goes_on c d ↦ rest c d ])
round-Sound rest k (returns c d) g = g
round-Sound rest k (goes_on c d) g = k c d g

pub each-Sound :
    (body : LwmObject → ℕ → Device → Run Round) (xs : Items) (rsc : ℕ) (device : Device)
    → ((v : LwmObject) (c : ℕ) (d : Device) → AllSound d.services → Holds SoundRound (body v c d))
    → AllSound device.services
    → Holds SoundRound (each body xs rsc device)
unfolding each
each-Sound body no_items rsc device k h = h
each-Sound body (item v xs) rsc device k h =
    Holds-bind SoundRound SoundRound (body v rsc device)
      (λ r. elim r as (λ x. Run Round) [
        | returns c d ↦ ok (returns c d)
        | goes_on c d ↦ each body xs c d
      ])
      (k v rsc device h) (round-Sound (each body xs) (λ c d g. each-Sound body xs c d k g))

-- A handler that is such a loop.
pub over_single-Sound :
    (w : Option Items) (body : LwmObject → ℕ → Device → Run Round) (device : Device)
    → ((v : LwmObject) (c : ℕ) (d : Device) → AllSound d.services → Holds SoundRound (body v c d))
    → AllSound device.services
    → Holds SoundDevice (over_single w body device)
unfolding over_single
over_single-Sound w body device k h =
    Holds-option SoundDevice (single w) (ok (400, device))
      (λ xs. each body xs 400 device >>= (λ r. ok (result_of r))) h
      (λ xs.
        Holds-bind SoundRound SoundDevice (each body xs 400 device) (λ r. ok (result_of r))
          (each-Sound body xs 400 device k h) (λ r g. g))

offload-Sound :
    (env : Env) (onoff : Bool) (w : Option Service) (indices : Option Items) (rsc : ℕ)
    (device : Device)
    → AllSound device.services
    → FoundSound w
    → Holds SoundRound (offload env onoff w indices rsc device)
unfolding offload
offload-Sound env onoff none none rsc device h g = h
offload-Sound env onoff none (some indices) rsc device h g = h
offload-Sound env onoff (some s) none rsc device h g = h
offload-Sound env onoff (some s) (some indices) rsc device h g =
    put_in-Sound device s (switch_all env onoff indices rsc s) h
      (switch_all-Sound env onoff indices rsc s g)

pub lwmsg_offloading-Sound :
    (env : Env) (id : ℕ) (msg : LwMessage) (device : Device)
    → AllSound device.services
    → Holds SoundDevice (lwmsg_offloading env id msg device)
unfolding lwmsg_offloading
lwmsg_offloading-Sound env id msg device h =
    let onoff = if id == 24 then false else true in
    let tis = body_array msg Key.tis in
    over_single-Sound (body_array msg Key.mis)
      (λ ms_id rsc d.
        offload env onoff (get_micro_service_info_by_id d.services (string_value (some ms_id))) tis
          rsc d)
      device
      (λ ms_id rsc d g.
        offload-Sound env onoff
          (get_micro_service_info_by_id d.services (string_value (some ms_id))) tis rsc d g
          (get-Sound d.services (string_value (some ms_id)) g))
      h
