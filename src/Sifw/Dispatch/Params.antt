-- ===== src/Sifw/Dispatch/Params.antt =====
-- _lwmsg_param_set and _lwmsg_param_read of task_lwmsg_dist.c. Reading a list of one kind of node as
-- a list of the other is not defined.
use io_tware.Common.{ℕ, Bool, true, false, Option, none, some, List, [], ◌∷◌, ◌==◌, if◌then◌else◌}
use io_tware.Sifw.Text.{Text, text_eq}
use io_tware.Sifw.Key
use io_tware.Sifw.Object.{
  LwmObject, array, dict, Items, no_items, item, Fields, no_fields, field, get_object, set_object,
  LwMessage,
}
use io_tware.Sifw.Build.{string_value, new_lwm_resp_message}
use io_tware.Sifw.Dispatch.Store.{
  Device, Round, returns, goes_on, body_array, single, each, over_single, int_value, task_by_int,
}
use io_tware.Smfw.State.{Run, ok, undefined, ◌>>=◌, Parameter, TaskInfo, Service, Env, update_task}
use io_tware.Smfw.Parameters.{get_parameter}
use io_tware.Smfw.Values.{parameter_set_by_string, new_lwm_object_from_type_value}
use io_tware.Smfw.Tasks.{is_running}
use io_tware.Smfw.Registry.{get_micro_service_info_by_id, put_service, set_value, param_fields}

-- A write through the pointer that a search by the alias gave.
unfoldable pub put_parameter : List Parameter → Text → Parameter → List Parameter
put_parameter [] alias new = []
put_parameter (p ∷ params) alias new =
    if text_eq alias p.alias then new ∷ params else p ∷ put_parameter params alias new

-- The innermost loop of `_lwmsg_param_set`: whether a parameter was found, and the task.
unfoldable pub set_fields : Env → TaskInfo → Fields → Bool → Run (Bool × TaskInfo)
unfolding get_parameter parameter_set_by_string put_parameter string_value
set_fields env ti no_fields found = ok (found, ti)
set_fields env ti (field key v fs) found = do
  param ← get_parameter ti.flexible_params none (some key)
  elim param [
    | none ↦ set_fields env ti fs found
    | some p ↦ elim (string_value (some v)) [
      | none ↦ undefined
      | some s ↦ do
        p' ← parameter_set_by_string env p s
        set_fields env (record ti { flexible_params = put_parameter ti.flexible_params key p' }) fs
            true
    ]
  ]

-- The list that `_fp->value` is read as.
abbrev pub fields_of : LwmObject → Option Fields
fields_of (dict fs) = some fs
fields_of (array no_items) = some no_fields
fields_of _ = none

-- That loop on a task that may not be there.
unfoldable pub set_task :
    Env → Option TaskInfo → Option Fields → Bool → Service → Run (Bool × Service)
unfolding set_fields update_task
set_task env ti none found pmsi = undefined
set_task env none (some no_fields) found pmsi = ok (found, pmsi)
set_task env none (some (field key v fs)) found pmsi = undefined
set_task env (some ti) (some fs) found pmsi = do
  (found', ti') ← set_fields env ti fs found
  ok (found', record pmsi { tasks = update_task pmsi.tasks ti.address (λ _. ti') })

-- The loop of `_lwmsg_param_set` over the indices.
unfoldable pub set_tasks : Env → Option LwmObject → Items → Bool → ℕ → Service → Run (ℕ × Service)
unfolding int_value task_by_int set_task
set_tasks env fp no_items found rsc pmsi = ok (rsc, pmsi)
set_tasks env none (item index indices) found rsc pmsi = ok (400, pmsi)
set_tasks env (some fp) (item index indices) found rsc pmsi = do
  i ← int_value index
  (found', pmsi') ← set_task env (task_by_int pmsi i) (fields_of fp) found pmsi
  set_tasks env (some fp) indices found' (if found' then 200 else 404) pmsi'

-- Its part for a service that may not be there. Where `fp` is missing it returns 400 at the first
-- index, and it would come to 400 with every other service too.
unfoldable pub set_params : Env → Option Service → LwMessage → ℕ → Device → Run Round
unfolding set_tasks body_array put_service
set_params env none msg rsc device = ok (goes_on rsc device)
set_params env (some pmsi) msg rsc device = elim (body_array msg Key.tis) [
  | none ↦ ok (goes_on 400 device)
  | some indices ↦ do
    (rsc', pmsi') ← set_tasks env (get_object msg.body Key.fp) indices false rsc pmsi
    ok (goes_on rsc' (record device { services = put_service device.services pmsi.ms_id pmsi' }))
]

-- `_lwmsg_param_set`
unfoldable pub lwmsg_param_set : Env → LwMessage → Device → Run (ℕ × Device)
unfolding over_single set_params get_micro_service_info_by_id body_array string_value
lwmsg_param_set env msg device =
    over_single (body_array msg Key.mis)
      (λ ms_id rsc device'.
        set_params env (get_micro_service_info_by_id device'.services (string_value (some ms_id)))
          msg rsc device')
      device

-- `RESPONSE_LWMSG` of a response with a body.
abbrev pub respond : Option Text → Fields → Device → Device
respond dri body device =
    let msg = new_lwm_resp_message dri 200 in
    record device { sent = record msg { body = body } ∷ device.sent }

-- The part of `_lwmsg_param_read` for all parameters of a task.
unfoldable pub read_all : Env → Option Text → Option TaskInfo → Device → Run (ℕ × Device)
unfolding param_fields new_lwm_resp_message
read_all env dri none device = undefined
read_all env dri (some ti) device = do
  fp ← param_fields env ti.flexible_params no_fields
  sp ← param_fields env ti.static_params no_fields
  let body = set_object (set_object no_fields Key.fp (dict fp)) Key.sp (dict sp)
  ok (300, respond dri body device)

-- Its loop over names: whether the last one was found, and the values.
unfoldable pub read_names : Env → List Parameter → Items → Bool → Fields → Run (Bool × Fields)
unfolding get_parameter new_lwm_object_from_type_value string_value
read_names env params no_items found fs = ok (found, fs)
read_names env params (item name names) found fs = do
  param ← get_parameter params none (string_value (some name))
  elim param [
    | none ↦ read_names env params names false fs
    | some p ↦ do
      v ← new_lwm_object_from_type_value env p.type p.value
      read_names env params names true (set_value fs p.alias v)
  ]

-- The list that `cfp->value` or `csp->value` is read as.
abbrev pub names_of : LwmObject → Option Items
names_of (array xs) = some xs
names_of (dict no_fields) = some no_items
names_of _ = none

unfoldable pub read_list :
    Env → Option Text → Text → Option (List Parameter) → Option Items → Device → Run (ℕ × Device)
unfolding read_names new_lwm_resp_message
read_list env dri key params none device = undefined
read_list env dri key none (some no_items) device = ok (404, device)
read_list env dri key none (some (item name names)) device = undefined
read_list env dri key (some params) (some names) device = do
  (found, fs) ← read_names env params names false no_fields
  let answered = respond dri (set_object no_fields key (dict fs)) device
  if found then ok (300, answered) else ok (404, device)

abbrev pub flexible_of : Option TaskInfo → Option (List Parameter)
flexible_of none = none
flexible_of (some ti) = some ti.flexible_params

abbrev pub static_of : Option TaskInfo → Option (List Parameter)
static_of none = none
static_of (some ti) = some ti.static_params

-- The part for parameters by name, flexible where `fps` is there.
unfoldable pub read_some :
    Env
    → Option Text
    → Option TaskInfo
    → Option LwmObject
    → Option LwmObject
    → Device
    → Run (ℕ × Device)
unfolding read_list
read_some env dri ti (some cfp) csp device =
    read_list env dri Key.fp (flexible_of ti) (names_of cfp) device
read_some env dri ti none (some csp) device =
    read_list env dri Key.sp (static_of ti) (names_of csp) device
read_some env dri ti none none device = undefined

abbrev pub both : Option LwmObject → Option LwmObject → Bool
both (some a) (some b) = true
both _ _ = false

-- The round of the loop over the indices.
unfoldable pub read_task :
    Env → Bool → Option Text → Service → LwMessage → LwmObject → ℕ → Device → Run Round
unfolding int_value task_by_int read_all read_some
read_task env is_all dri pmsi msg index rsc device = do
  i ← int_value index
  let ti = task_by_int pmsi i
  let all = read_all env dri ti device
  let some_of =
      read_some env dri ti (get_object msg.body Key.fps) (get_object msg.body Key.sps) device
  (rsc', device') ← if is_all then all else some_of
  ok (goes_on rsc' device')

-- The part for a service that is RUNNING; without one index, or with `fps` and `sps`, the handler
-- returns the code so far.
unfoldable pub read_running :
    Env → Bool → Option Text → Service → LwMessage → ℕ → Device → Run Round
unfolding body_array each read_task
read_running env is_all dri pmsi msg rsc device = elim (single (body_array msg Key.tis)) [
  | none ↦ ok (returns rsc device)
  | some indices ↦
      let values = each (read_task env is_all dri pmsi msg) indices rsc device in
      if both (get_object msg.body Key.fps) (get_object msg.body Key.sps)
      then ok (returns rsc device)
      else values
]

unfoldable pub read_params :
    Env → Bool → Option Text → Option Service → LwMessage → ℕ → Device → Run Round
unfolding read_running
read_params env is_all dri none msg rsc device = ok (goes_on 404 device)
read_params env is_all dri (some pmsi) msg rsc device =
    let values = read_running env is_all dri pmsi msg rsc device in
    if is_running pmsi.state then values else ok (goes_on 403 device)

-- `_lwmsg_param_read`, of all parameters for the interface 23.
unfoldable pub lwmsg_param_read : Env → ℕ → Option Text → LwMessage → Device → Run (ℕ × Device)
unfolding over_single read_params get_micro_service_info_by_id body_array string_value
lwmsg_param_read env id dri msg device =
    over_single (body_array msg Key.mis)
      (λ ms_id rsc device'.
        read_params env (id == 23) dri
          (get_micro_service_info_by_id device'.services (string_value (some ms_id))) msg rsc
          device')
      device
