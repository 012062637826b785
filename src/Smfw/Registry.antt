-- ===== src/Smfw/Registry.antt =====
-- The services of a device and the reports about them, of iw_fw_microservices.c.
use io_tware.Common.{ℕ, Bool, true, false, Option, none, some, List, [], ◌∷◌, if◌then◌else◌}
use io_tware.Sifw.Text.{Text, text_eq}
use io_tware.Sifw.Object.{
  pos, LwmObject, array, dict, Items, no_items, Fields, no_fields, set_object, add_item, LwMessage,
}
use io_tware.Sifw.Serialize.{is_empty}
use io_tware.Sifw.Key
use io_tware.Sifw.Build.{
  number_type, new_lwm_empty_object, new_lwm_string_object, set_lwm_int, new_lwm_req_message,
  new_lwm_resp_message,
}
use io_tware.Smfw.State.{Run, ok, ◌>>=◌, State, created, Parameter, TaskInfo, Service, Env, task_at}
use io_tware.Smfw.Links.{find_last_task_link, link_at, link_name}
use io_tware.Smfw.Values.{new_lwm_object_from_type_value}
use io_tware.Smfw.Tasks.{is_running}
use io_tware.Smfw.Lifecycle.{del_micro_service}

-- `init_mservices`
unfoldable pub init_mservices : List Service
init_mservices = []

-- `add_micro_service`
unfoldable pub add_micro_service : List Service → Service → List Service
add_micro_service services pmsi = pmsi ∷ services

-- The loop of `get_micro_service_info_by_id`.
unfoldable pub find_service : List Service → Text → Option Service
find_service [] id = none
find_service (s ∷ services) id = if text_eq id s.ms_id then some s else find_service services id

-- `get_micro_service_info_by_id`, with `none` for NULL.
unfoldable pub get_micro_service_info_by_id : List Service → Option Text → Option Service
unfolding find_service
get_micro_service_info_by_id services none = none
get_micro_service_info_by_id services (some []) = none
get_micro_service_info_by_id services (some (c ∷ id)) = find_service services (c ∷ id)

-- A write through the pointer that it found.
unfoldable pub put_service : List Service → Text → Service → List Service
put_service [] id new = []
put_service (s ∷ services) id new =
    if text_eq id s.ms_id then new ∷ services else s ∷ put_service services id new

-- The loop of `make_device_registration_lwmsg`.
unfoldable pub service_ids : List Service → Items → Items
unfolding new_lwm_string_object
service_ids [] mis = mis
service_ids (s ∷ services) mis =
    service_ids services (add_item mis (some (new_lwm_string_object (some s.ms_id))))

-- `make_device_registration_lwmsg`
unfoldable pub make_device_registration_lwmsg : List Service → ℕ → Option Text → LwMessage
unfolding service_ids new_lwm_req_message
make_device_registration_lwmsg services id dri =
    let msg = new_lwm_req_message id dri none in
    record msg { body = set_object msg.body Key.mis (array (service_ids services no_items)) }

abbrev is_ready : State → Bool
is_ready created = true
is_ready _ = false

abbrev ready_in : Option TaskInfo → Bool
ready_in none = false
ready_in (some ti) = is_ready ti.initial_state

-- `_init_task_state`
unfoldable pub init_task_state : List TaskInfo → Option ℕ → Bool
unfolding task_at
init_task_state tasks none = false
init_task_state tasks (some ti) = ready_in (task_at tasks ti)

-- What the two reports do with a service that is not RUNNING, before and after they read it.
unfoldable pub prepare : Env → Service → Service
prepare env pmsi = if is_running pmsi.state then pmsi else env.create pmsi.ms_id pmsi

abbrev pub delete : Service → Run Service
delete pmsi = do (_, deleted) ← del_micro_service pmsi; ok deleted

unfoldable pub put_back : Service → Service → Run Service
put_back pmsi prepared =
    let deleted = delete prepared in if is_running pmsi.state then ok prepared else deleted

-- The output parameters of a service, as its tasks are at first.
unfoldable pub output_names : Service → Items
unfolding find_last_task_link link_at init_task_state
output_names pmsi = elim (find_last_task_link pmsi.task_link_head (init_task_state pmsi.tasks)) [
  | none ↦ no_items
  | some way ↦
      add_item no_items
        (some (new_lwm_string_object (some (link_name (link_at pmsi.task_link_head way)))))
]

abbrev no_item : Items → Bool
no_item no_items = true
no_item _ = false

-- What `make_device_information_lwmsg` says of a service.
unfoldable pub service_information : Service → Fields
unfolding output_names new_lwm_string_object
service_information pmsi =
    let dmi = set_object no_fields Key.mi (new_lwm_string_object (some pmsi.ms_id)) in
    let dop = output_names pmsi in if no_item dop then dmi else set_object dmi Key.ops (array dop)

-- Its loop: the array, and the services that it leaves.
unfoldable pub services_information : Env → List Service → Items → Run (Items × List Service)
unfolding prepare put_back service_information
services_information env [] mif = ok (mif, [])
services_information env (pmsi ∷ services) mif =
    let prepared = prepare env pmsi in
    let mif' = add_item mif (some (dict (service_information prepared))) in
    do
      left ← put_back pmsi prepared
      (all, rest) ← services_information env services mif'
      ok (all, left ∷ rest)

-- `make_device_information_lwmsg`
unfoldable pub make_device_information_lwmsg :
    Env → List Service → ℕ → Option Text → Option Text → Run (LwMessage × List Service)
unfolding services_information
make_device_information_lwmsg env services id dri di = do
  let msg = new_lwm_req_message id dri di
  (mif, services') ← services_information env services no_items
  ok (record msg { body = set_object msg.body Key.mif (array mif) }, services')

abbrev pub set_value : Fields → Text → Option LwmObject → Fields
set_value fs key none = fs
set_value fs key (some v) = set_object fs key v

-- The loops over a list of parameters.
unfoldable pub param_fields : Env → List Parameter → Fields → Run Fields
unfolding new_lwm_object_from_type_value
param_fields env [] fs = ok fs
param_fields env (p ∷ params) fs = do
  v ← new_lwm_object_from_type_value env p.type p.value
  param_fields env params (set_value fs p.alias v)

abbrev set_full : Fields → Text → Fields → Fields
set_full fs key inner = if is_empty inner then fs else set_object fs key (dict inner)

abbrev truth : Bool → Text
truth true = b'T' ∷ b'R' ∷ b'U' ∷ b'E' ∷ []
truth false = b'F' ∷ b'A' ∷ b'L' ∷ b'S' ∷ b'E' ∷ []

-- What `make_device_information_lwmsg2` says of a task, with the values of its parameters.
unfoldable pub task_fields : TaskInfo → Fields → Fields → Fields
unfolding set_lwm_int new_lwm_empty_object new_lwm_string_object
task_fields ti dsp dfp =
    let index = set_lwm_int (new_lwm_empty_object number_type) (pos ti.task_idx) in
    let dti = set_object no_fields Key.ti index in
    let dti' = set_object dti Key.to (new_lwm_string_object (some (truth ti.offloading))) in
    set_full (set_full dti' Key.sp dsp) Key.fp dfp

unfoldable pub task_information : Env → TaskInfo → Run Fields
unfolding param_fields task_fields
task_information env ti = do
  dsp ← param_fields env ti.static_params no_fields
  dfp ← param_fields env ti.flexible_params no_fields
  ok (task_fields ti dsp dfp)

-- Its loop over the tasks of a service.
unfoldable pub tasks_information : Env → List TaskInfo → Items → Run Items
unfolding task_information
tasks_information env [] tif = ok tif
tasks_information env (ti ∷ tasks) tif =
    let told = do
      dti ← task_information env ti
      tasks_information env tasks (add_item tif (some (dict dti)))
    in let rest = tasks_information env tasks tif in if ti.add_task_list then told else rest

-- Its loop over the services.
unfoldable pub services_tasks : Env → List Service → Items → Run (Items × List Service)
unfolding prepare put_back tasks_information
services_tasks env [] tif = ok (tif, [])
services_tasks env (pmsi ∷ services) tif = do
  let prepared = prepare env pmsi
  tif' ← tasks_information env prepared.tasks tif
  left ← put_back pmsi prepared
  (all, rest) ← services_tasks env services tif'
  ok (all, left ∷ rest)

-- `make_device_information_lwmsg2`
unfoldable pub make_device_information_lwmsg2 :
    Env → List Service → Option Text → ℕ → Run (LwMessage × List Service)
unfolding services_tasks
make_device_information_lwmsg2 env services dri rsc = do
  let msg = new_lwm_resp_message dri rsc
  (tif, services') ← services_tasks env services no_items
  ok (record msg { body = set_object msg.body Key.tif (array tif) }, services')
