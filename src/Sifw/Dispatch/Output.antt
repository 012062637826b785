-- ===== src/Sifw/Dispatch/Output.antt =====
-- _lwmsg_output_param_read of task_lwmsg_dist.c.
use io_tware.Common.{ℕ, Option, none, some, List, [], ◌∷◌, ltb, if◌then◌else◌, length}
use io_tware.Sifw.Text.{Text, text_eq}
use io_tware.Sifw.Key
use io_tware.Sifw.Object.{dict, Items, no_items, item, no_fields, set_object, LwMessage}
use io_tware.Sifw.Build.{string_value, new_lwm_req_message, new_lwm_resp_message}
use io_tware.Sifw.Dispatch.Store.{Device, body_array}
use io_tware.Sifw.Dispatch.Params.{respond}
use io_tware.Smfw.State.{Run, ok, undefined, ◌>>=◌, Parameter, TaskInfo, Service, Env}
use io_tware.Smfw.Parameters.{max_name_length}
use io_tware.Smfw.Values.{new_lwm_object_from_type_value}
use io_tware.Smfw.Tasks.{is_running, is_tasks_running, get_input_queue}
use io_tware.Smfw.Registry.{get_micro_service_info_by_id, put_service, set_value}

-- The requests for the tasks that have a queue for messages.
unfoldable pub ask_tasks :
    LwMessage → List TaskInfo → List (Option ℕ × LwMessage) → List (Option ℕ × LwMessage)
unfolding get_input_queue
ask_tasks msg [] inputs = inputs
ask_tasks msg (ti ∷ tasks) inputs = elim ti.lwmsg_input_port [
  | none ↦ ask_tasks msg tasks inputs
  | some port ↦ ask_tasks msg tasks ((get_input_queue ti port, msg) ∷ inputs)
]

-- `strcpy(pmsi->latest_dri, _dri)`
unfoldable pub copy_dri : Service → Option Text → Run Service
copy_dri pmsi none = undefined
copy_dri pmsi (some dri) =
    if ltb max_name_length (length dri) then undefined else ok (record pmsi { latest_dri = dri })

-- The answer with the value of the output parameter, if it has one.
unfoldable pub answer_output : Env → Option Text → Parameter → Device → Run Device
unfolding new_lwm_object_from_type_value new_lwm_resp_message
answer_output env dri param device = elim param.value [
  | none ↦ ok device
  | some value ↦ do
    v ← new_lwm_object_from_type_value env param.type (some value)
    ok (respond dri (set_object no_fields Key.op (dict (set_value no_fields param.name v))) device)
]

-- For a service with a running task: the request that started it may come again.
unfoldable pub read_busy : Env → Option Text → Service → Device → Run (ℕ × Device)
unfolding answer_output
read_busy env none pmsi device = undefined
read_busy env (some dri) pmsi device =
    let answered = do
      device' ← answer_output env (some dri) pmsi.output_param device
      ok (300, device')
    in if text_eq pmsi.latest_dri dri then answered else ok (400, device)

-- For one without.
unfoldable pub read_idle : Env → ℕ → Option Text → Service → Device → Run (ℕ × Device)
unfolding ask_tasks copy_dri answer_output new_lwm_req_message put_service
read_idle env id dri pmsi device = do
  let inputs = ask_tasks (new_lwm_req_message id dri none) pmsi.tasks device.inputs
  pmsi' ← copy_dri pmsi dri
  let asked = record device {
    inputs = inputs;
    services = put_service device.services pmsi.ms_id pmsi';
  }
  device' ← answer_output env dri pmsi.output_param asked
  ok (300, device')

unfoldable pub read_output : Env → ℕ → Option Text → Option Service → Device → Run (ℕ × Device)
unfolding read_busy read_idle is_tasks_running
read_output env id dri none device = ok (404, device)
read_output env id dri (some pmsi) device =
    let busy = read_busy env dri pmsi device in
    let idle = read_idle env id dri pmsi device in
    if is_running pmsi.state
    then (if is_tasks_running pmsi then busy else idle)
    else ok (400, device)

-- The loop of `_lwmsg_output_param_read`.
unfoldable pub read_outputs : Env → ℕ → Option Text → Items → ℕ → Device → Run (ℕ × Device)
unfolding read_output get_micro_service_info_by_id string_value
read_outputs env id dri no_items rsc device = ok (rsc, device)
read_outputs env id dri (item ms_id ids) rsc device = do
  (rsc', device') ←
      read_output env id dri
        (get_micro_service_info_by_id device.services (string_value (some ms_id))) device
  read_outputs env id dri ids rsc' device'

-- `_lwmsg_output_param_read`
unfoldable pub lwmsg_output_param_read :
    Env → ℕ → Option Text → LwMessage → Device → Run (ℕ × Device)
unfolding read_outputs body_array
lwmsg_output_param_read env id dri msg device = elim (body_array msg Key.mis) [
  | none ↦ ok (400, device)
  | some ids ↦ read_outputs env id dri ids 400 device
]
