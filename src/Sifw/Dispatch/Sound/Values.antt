-- ===== src/Sifw/Dispatch/Sound/Values.antt =====
-- The requests about parameters, by the services that they leave.
use io_tware.Common.{ℕ, Bool, false, Option, none, some, List, ◌==◌, if◌then◌else◌}
use io_tware.Sifw.Text.{Text}
use io_tware.Sifw.Key
use io_tware.Sifw.Object.{
  ℤ, LwmObject, Items, no_items, item, Fields, no_fields, field, get_object, set_object, dict,
  LwMessage,
}
use io_tware.Sifw.Build.{string_value}
use io_tware.Sifw.Dispatch.Store.{
  Device, returns, goes_on, body_array, single, each, int_value, task_by_int,
}
use io_tware.Sifw.Dispatch.Params.{
  set_fields, set_task, set_tasks, set_params, lwmsg_param_set, read_all, read_names, read_list,
  read_some, read_task, read_running, read_params, lwmsg_param_read, fields_of, respond, names_of,
  flexible_of, static_of, both,
}
use io_tware.Sifw.Dispatch.Unblocked.{
  Holds-if, Holds-option, Unblocked-bind, int_value-Unblocked, set_fields-Unblocked,
  read_names-Unblocked, param_fields-Unblocked,
}
use io_tware.Smfw.State.{ok, ◌>>=◌, Parameter, TaskInfo, Service, Env, update_task}
use io_tware.Smfw.Connect.Output.{Holds, Holds-bind}
use io_tware.Smfw.Tasks.{is_running}
use io_tware.Smfw.Lifecycle.Sound.{Sound, SoundResult}
use io_tware.Smfw.Lifecycle.Running.{update-Sound}
use io_tware.Smfw.Registry.{get_micro_service_info_by_id, param_fields}
use io_tware.Sifw.Dispatch.Sound.{AllSound, SoundDevice, CodeSound, FoundSound, get-Sound}
use io_tware.Sifw.Dispatch.Sound.Loops.{
  SoundRound, put_in, put_in-Sound, each-Sound, over_single-Sound,
}

set_task-Sound :
    (env : Env) (ti : Option TaskInfo) (fs : Option Fields) (found : Bool) (s : Service)
    → Sound s
    → Holds SoundResult (set_task env ti fs found s)
unfolding set_task
set_task-Sound env none none found s h = tt
set_task-Sound env (some ti) none found s h = tt
set_task-Sound env none (some no_fields) found s h = h
set_task-Sound env none (some (field key v fs)) found s h = tt
set_task-Sound env (some ti) (some fs) found s h =
    Unblocked-bind SoundResult (set_fields env ti fs found)
      (λ r. ok (r.0, record s { tasks = update_task s.tasks ti.address (λ _. r.1) }))
      (set_fields-Unblocked env ti fs found) (λ r. update-Sound s ti.address (λ _. r.1) h)

set_tasks-Sound :
    (env : Env) (fp : Option LwmObject) (indices : Items) (found : Bool) (rsc : ℕ) (s : Service)
    → Sound s
    → Holds CodeSound (set_tasks env fp indices found rsc s)
unfolding set_tasks
set_tasks-Sound env none no_items found rsc s h = h
set_tasks-Sound env (some fp) no_items found rsc s h = h
set_tasks-Sound env none (item index indices) found rsc s h = h
set_tasks-Sound env (some fp) (item index indices) found rsc s h =
    let next =
      λ (r : Bool × Service). set_tasks env (some fp) indices r.0 (if r.0 then 200 else 404) r.1 in
    Unblocked-bind CodeSound (int_value index)
      (λ i. set_task env (task_by_int s i) (fields_of fp) found s >>= next)
      (int_value-Unblocked index)
      (λ i.
        Holds-bind SoundResult CodeSound (set_task env (task_by_int s i) (fields_of fp) found s)
          next (set_task-Sound env (task_by_int s i) (fields_of fp) found s h)
          (λ r k. set_tasks-Sound env (some fp) indices r.0 (if r.0 then 200 else 404) r.1 k))

set_params-Sound :
    (env : Env) (w : Option Service) (msg : LwMessage) (rsc : ℕ) (device : Device)
    → AllSound device.services
    → FoundSound w
    → Holds SoundRound (set_params env w msg rsc device)
unfolding set_params
set_params-Sound env none msg rsc device h g = h
set_params-Sound env (some s) msg rsc device h g =
    let fp = get_object msg.body Key.fp in
    Holds-option SoundRound (body_array msg Key.tis) (ok (goes_on 400 device))
      (λ indices. set_tasks env fp indices false rsc s >>= put_in device s) h
      (λ indices.
        put_in-Sound device s (set_tasks env fp indices false rsc s) h
          (set_tasks-Sound env fp indices false rsc s g))

pub lwmsg_param_set-Sound :
    (env : Env) (msg : LwMessage) (device : Device)
    → AllSound device.services
    → Holds SoundDevice (lwmsg_param_set env msg device)
unfolding lwmsg_param_set
lwmsg_param_set-Sound env msg device h =
    over_single-Sound (body_array msg Key.mis)
      (λ ms_id rsc d.
        set_params env (get_micro_service_info_by_id d.services (string_value (some ms_id))) msg rsc
          d)
      device
      (λ ms_id rsc d g.
        set_params-Sound env (get_micro_service_info_by_id d.services (string_value (some ms_id)))
          msg rsc d g (get-Sound d.services (string_value (some ms_id)) g))
      h

read_all-Sound :
    (env : Env) (dri : Option Text) (ti : Option TaskInfo) (device : Device)
    → AllSound device.services
    → Holds SoundDevice (read_all env dri ti device)
unfolding read_all
read_all-Sound env dri none device h = tt
read_all-Sound env dri (some ti) device h =
    let told = λ (fp sp : Fields).
      respond dri (set_object (set_object no_fields Key.fp (dict fp)) Key.sp (dict sp)) device in
    let second = λ (fp : Fields).
      param_fields env ti.static_params no_fields >>= (λ sp. ok (300, told fp sp)) in
    Unblocked-bind SoundDevice (param_fields env ti.flexible_params no_fields) second
      (param_fields-Unblocked env ti.flexible_params no_fields)
      (λ fp.
        Unblocked-bind SoundDevice (param_fields env ti.static_params no_fields)
          (λ sp. ok (300, told fp sp)) (param_fields-Unblocked env ti.static_params no_fields)
          (λ sp. h))

read_list-Sound :
    (env : Env) (dri : Option Text) (key : Text) (params : Option (List Parameter))
    (names : Option Items) (device : Device)
    → AllSound device.services
    → Holds SoundDevice (read_list env dri key params names device)
unfolding read_list
read_list-Sound env dri key none none device h = tt
read_list-Sound env dri key (some params) none device h = tt
read_list-Sound env dri key none (some no_items) device h = h
read_list-Sound env dri key none (some (item name names)) device h = tt
read_list-Sound env dri key (some params) (some names) device h =
    let told = λ (fs : Fields). respond dri (set_object no_fields key (dict fs)) device in
    Unblocked-bind SoundDevice (read_names env params names false no_fields)
      (λ r. if r.0 then ok (300, told r.1) else ok (404, device))
      (read_names-Unblocked env params names false no_fields)
      (λ r. Holds-if SoundDevice r.0 (ok (300, told r.1)) (ok (404, device)) h h)

read_some-Sound :
    (env : Env) (dri : Option Text) (ti : Option TaskInfo) (cfp csp : Option LwmObject)
    (device : Device)
    → AllSound device.services
    → Holds SoundDevice (read_some env dri ti cfp csp device)
unfolding read_some
read_some-Sound env dri ti (some cfp) none device h =
    read_list-Sound env dri Key.fp (flexible_of ti) (names_of cfp) device h
read_some-Sound env dri ti (some cfp) (some csp) device h =
    read_list-Sound env dri Key.fp (flexible_of ti) (names_of cfp) device h
read_some-Sound env dri ti none (some csp) device h =
    read_list-Sound env dri Key.sp (static_of ti) (names_of csp) device h
read_some-Sound env dri ti none none device h = tt

read_task-Sound :
    (env : Env) (is_all : Bool) (dri : Option Text) (s : Service) (msg : LwMessage)
    (index : LwmObject) (rsc : ℕ) (device : Device)
    → AllSound device.services
    → Holds SoundRound (read_task env is_all dri s msg index rsc device)
unfolding read_task
read_task-Sound env is_all dri s msg index rsc device h =
    let fps = get_object msg.body Key.fps in
    let sps = get_object msg.body Key.sps in
    let values = λ (i : ℤ).
      let ti = task_by_int s i in
      if is_all then read_all env dri ti device else read_some env dri ti fps sps device in
    let next = λ (r : ℕ × Device). ok (goes_on r.0 r.1) in
    Unblocked-bind SoundRound (int_value index) (λ i. values i >>= next) (int_value-Unblocked index)
      (λ i.
        let ti = task_by_int s i in
        Holds-bind SoundDevice SoundRound (values i) next
          (Holds-if SoundDevice is_all (read_all env dri ti device)
            (read_some env dri ti fps sps device) (read_all-Sound env dri ti device h)
            (read_some-Sound env dri ti fps sps device h))
          (λ r g. g))

read_running-Sound :
    (env : Env) (is_all : Bool) (dri : Option Text) (s : Service) (msg : LwMessage) (rsc : ℕ)
    (device : Device)
    → AllSound device.services
    → Holds SoundRound (read_running env is_all dri s msg rsc device)
unfolding read_running
read_running-Sound env is_all dri s msg rsc device h =
    let refuse = both (get_object msg.body Key.fps) (get_object msg.body Key.sps) in
    let values = λ (xs : Items). each (read_task env is_all dri s msg) xs rsc device in
    Holds-option SoundRound (single (body_array msg Key.tis)) (ok (returns rsc device))
      (λ xs. if refuse then ok (returns rsc device) else values xs) h
      (λ xs. Holds-if SoundRound refuse (ok (returns rsc device)) (values xs) h (
        each-Sound (read_task env is_all dri s msg) xs rsc device
          (λ v c d. read_task-Sound env is_all dri s msg v c d) h))

read_params-Sound :
    (env : Env) (is_all : Bool) (dri : Option Text) (w : Option Service) (msg : LwMessage) (rsc : ℕ)
    (device : Device)
    → AllSound device.services
    → Holds SoundRound (read_params env is_all dri w msg rsc device)
unfolding read_params
read_params-Sound env is_all dri none msg rsc device h = h
read_params-Sound env is_all dri (some s) msg rsc device h =
    Holds-if SoundRound (is_running s.state) (read_running env is_all dri s msg rsc device)
      (ok (goes_on 403 device)) (read_running-Sound env is_all dri s msg rsc device h) h

pub lwmsg_param_read-Sound :
    (env : Env) (id : ℕ) (dri : Option Text) (msg : LwMessage) (device : Device)
    → AllSound device.services
    → Holds SoundDevice (lwmsg_param_read env id dri msg device)
unfolding lwmsg_param_read
lwmsg_param_read-Sound env id dri msg device h =
    over_single-Sound (body_array msg Key.mis)
      (λ ms_id rsc d.
        read_params env (id == 23) dri
          (get_micro_service_info_by_id d.services (string_value (some ms_id))) msg rsc d)
      device
      (λ ms_id rsc d g.
        read_params-Sound env (id == 23) dri
          (get_micro_service_info_by_id d.services (string_value (some ms_id))) msg rsc d g)
      h
