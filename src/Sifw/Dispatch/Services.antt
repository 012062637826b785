-- ===== src/Sifw/Dispatch/Services.antt =====
-- _lwmsg_operation and _lwmsg_offloarding of task_lwmsg_dist.c: requests that change services.
use io_tware.Common.{ℕ, Bool, true, false, Option, none, some, List, ◌==◌, if◌then◌else◌}
use io_tware.Sifw.Key
use io_tware.Sifw.Object.{Items, no_items, item, LwMessage}
use io_tware.Sifw.Build.{string_value}
use io_tware.Sifw.Dispatch.Store.{
  Device, Round, goes_on, body_array, over_single, int_value, task_by_int,
}
use io_tware.Smfw.State.{Run, ok, undefined, ◌>>=◌, Service, Env}
use io_tware.Smfw.Connect.{task_onoff}
use io_tware.Smfw.Lifecycle.{Operation, create_op, run_op, stop_op, delete_op, perform}
use io_tware.Smfw.Registry.{get_micro_service_info_by_id, put_service}

-- The function that `_lwmsg_operation` chooses by the interface, `none` for NULL.
unfoldable pub operation_of : ℕ → Option Operation
operation_of id =
    if id == 10
    then some create_op
    else if id == 11
    then some run_op
    else if id == 15
    then some stop_op
    else if id == 16
    then some delete_op
    else none

-- Its call on a service.
unfoldable pub operate : Env → Option Operation → Service → Run (Bool × Service)
unfolding perform
operate env none pmsi = undefined
operate env (some operation) pmsi = perform env operation pmsi

abbrev pub code_of : Bool → ℕ → ℕ
code_of true rsc = 200
code_of false rsc = rsc

-- Its loop over the ids.
unfoldable pub operate_all :
    Env → Option Operation → Items → ℕ → List Service → Run (ℕ × List Service)
unfolding operate get_micro_service_info_by_id put_service string_value
operate_all env operation no_items rsc services = ok (rsc, services)
operate_all env operation (item id ids) rsc services =
    elim (get_micro_service_info_by_id services (string_value (some id))) [
      | none ↦ operate_all env operation ids 404 services
      | some pmsi ↦ do
        (done, pmsi') ← operate env operation pmsi
        operate_all env operation ids (code_of done rsc) (put_service services pmsi.ms_id pmsi')
    ]

-- `_lwmsg_operation`
unfoldable pub lwmsg_operation : Env → ℕ → LwMessage → Device → Run (ℕ × Device)
unfolding operation_of operate_all body_array
lwmsg_operation env id msg device = elim (body_array msg Key.mis) [
  | none ↦ ok (400, device)
  | some ids ↦ do
    (rsc, services) ← operate_all env (operation_of id) ids 400 device.services
    ok (rsc, record device { services = services })
]

-- The loop of `_lwmsg_offloarding` over the indices: it ends where a task is not there or not
-- switched.
unfoldable pub switch_all : Env → Bool → Items → ℕ → Service → Run (ℕ × Service)
unfolding int_value task_by_int task_onoff
switch_all env onoff no_items rsc pmsi = ok (rsc, pmsi)
switch_all env onoff (item index indices) rsc pmsi = do
  i ← int_value index
  elim (task_by_int pmsi i) [
    | none ↦ ok (404, pmsi)
    | some ti ↦ do
      (done, pmsi') ← task_onoff env pmsi ti onoff
      let rest = switch_all env onoff indices 200 pmsi'
      if done then rest else ok (400, pmsi')
  ]

-- Its part for a service that may not be there, and indices that may not be there.
unfoldable pub offload : Env → Bool → Option Service → Option Items → ℕ → Device → Run Round
unfolding switch_all put_service
offload env onoff (some pmsi) (some indices) rsc device = do
  (rsc', pmsi') ← switch_all env onoff indices rsc pmsi
  ok (goes_on rsc' (record device { services = put_service device.services pmsi.ms_id pmsi' }))
offload env onoff _ _ rsc device = ok (goes_on 404 device)

-- `_lwmsg_offloarding`, on for every interface but 24.
unfoldable pub lwmsg_offloading : Env → ℕ → LwMessage → Device → Run (ℕ × Device)
unfolding over_single offload body_array get_micro_service_info_by_id string_value
lwmsg_offloading env id msg device =
    over_single (body_array msg Key.mis)
      (λ ms_id rsc device'.
        offload env (if id == 24 then false else true)
          (get_micro_service_info_by_id device'.services (string_value (some ms_id)))
          (body_array msg Key.tis) rsc device')
      device
