-- ===== src/Sifw/Dispatch/Unset.antt =====
-- Setting parameters by a message.
use io_tware.Common.{
  ℕ, ◌≡◌, ◌≢◌, refl, Bool, false, Option, none, some, List, ◌∙◌, ap, node_num, ne→==_false,
}
use io_tware.Sifw.Text.{Text}
use io_tware.Sifw.Key
use io_tware.Sifw.Object.{ℤ, LwmObject, dict, Items, item, Fields, field, get_object, LwMessage}
use io_tware.Sifw.Build.{string_value}
use io_tware.Sifw.Dispatch.Store.{
  Device, Round, goes_on, result_of, body_array, single, each, over_single, int_value, task_by_int,
}
use io_tware.Sifw.Dispatch.Params.{set_fields, set_task, set_tasks, set_params, lwmsg_param_set}
use io_tware.Smfw.State.{Run, ok, undefined, ◌>>=◌, Parameter, TaskInfo, Service, Env}
use io_tware.Smfw.Parameters.{get_parameter}
use io_tware.Smfw.Registry.{get_micro_service_info_by_id, put_service}

by_alias :
    (params : List Parameter) (alias : Text)
    → node_num params ≢ 0
    → get_parameter params none (some alias) ≡ undefined
unfolding get_parameter
by_alias params alias e = rw (ne→==_false (node_num params) 0 e) refl

set_fields-undefined :
    (env : Env) (ti : TaskInfo) (key : Text) (v : LwmObject) (fs : Fields) (found : Bool)
    → node_num ti.flexible_params ≢ 0
    → set_fields env ti (field key v fs) found ≡ undefined
unfolding set_fields
set_fields-undefined env ti key v fs found e = rw (by_alias ti.flexible_params key e) refl

set_task-undefined :
    (env : Env) (ti : TaskInfo) (key : Text) (v : LwmObject) (fs : Fields) (found : Bool)
    (s : Service)
    → node_num ti.flexible_params ≢ 0
    → set_task env (some ti) (some (field key v fs)) found s ≡ undefined
unfolding set_task
set_task-undefined env ti key v fs found s e =
    rw (set_fields-undefined env ti key v fs found e) refl

set_tasks-undefined :
    (env : Env) (index : LwmObject) (indices : Items) (found : Bool) (rsc : ℕ) (s : Service) (i : ℤ)
    (ti : TaskInfo) (key : Text) (v : LwmObject) (fs : Fields)
    → int_value index ≡ ok i
    → task_by_int s i ≡ some ti
    → node_num ti.flexible_params ≢ 0
    → set_tasks env (some (dict (field key v fs))) (item index indices) found rsc s ≡ undefined
unfolding set_tasks
set_tasks-undefined env index indices found rsc s i ti key v fs e t h =
    rw (e, t, set_task-undefined env ti key v fs found s h) refl

at_some :
    {A B : Type 0} (w : Option A) (a : A) (x : B) (f : A → B)
    → w ≡ some a
    → elim w [ none ↦ x | some b ↦ f b ] ≡ f a
at_some w a x f e = rw e refl

set_params-undefined :
    (env : Env) (msg : LwMessage) (rsc : ℕ) (device : Device) (index : LwmObject) (s : Service)
    (indices : Items) (i : ℤ) (ti : TaskInfo) (key : Text) (v : LwmObject) (fs : Fields)
    → body_array msg Key.tis ≡ some (item index indices)
    → get_object msg.body Key.fp ≡ some (dict (field key v fs))
    → int_value index ≡ ok i
    → task_by_int s i ≡ some ti
    → node_num ti.flexible_params ≢ 0
    → set_params env (some s) msg rsc device ≡ undefined
unfolding set_params
set_params-undefined env msg rsc device index s indices i ti key v fs t f e k h =
    let put = λ (r : ℕ × Service).
      ok (goes_on r.0 (record device { services = put_service device.services s.ms_id r.1 })) in
    at_some (body_array msg Key.tis) (item index indices) (ok (goes_on 400 device))
      (λ xs. set_tasks env (get_object msg.body Key.fp) xs false rsc s >>= put) t
    ∙ ap (λ w. set_tasks env w (item index indices) false rsc s >>= put) f
    ∙ ap (λ r. r >>= put) (set_tasks-undefined env index indices false rsc s i ti key v fs e k h)

each-undefined :
    (body : LwmObject → ℕ → Device → Run Round) (v : LwmObject) (xs : Items) (rsc : ℕ)
    (device : Device)
    → body v rsc device ≡ undefined
    → each body (item v xs) rsc device ≡ undefined
unfolding each
each-undefined body v xs rsc device e = rw e refl

over_single-undefined :
    (ids : Option Items) (v : LwmObject) (xs : Items) (body : LwmObject → ℕ → Device → Run Round)
    (device : Device)
    → single ids ≡ some (item v xs)
    → body v 400 device ≡ undefined
    → over_single ids body device ≡ undefined
unfolding over_single
over_single-undefined ids v xs body device e u =
    at_some (single ids) (item v xs) (ok (400, device))
      (λ ys. each body ys 400 device >>= (λ r. ok (result_of r))) e
    ∙ ap (λ r. r >>= (λ q. ok (result_of q))) (each-undefined body v xs 400 device u)

-- A request to set parameters reads through NULL where its array of services has the 8-bit count 1
-- and its first one is there, its first index is that of a task whose flexible parameters have an
-- 8-bit count other than 0, and it names any parameter: the search by the alias reads the name,
-- which is NULL.
pub lwmsg_param_set-undefined :
    (env : Env) (msg : LwMessage) (device : Device) (ms_id index : LwmObject) (s : Service)
    (ids indices : Items) (i : ℤ) (ti : TaskInfo) (key : Text) (v : LwmObject) (fs : Fields)
    → single (body_array msg Key.mis) ≡ some (item ms_id ids)
    → get_micro_service_info_by_id device.services (string_value (some ms_id)) ≡ some s
    → body_array msg Key.tis ≡ some (item index indices)
    → get_object msg.body Key.fp ≡ some (dict (field key v fs))
    → int_value index ≡ ok i
    → task_by_int s i ≡ some ti
    → node_num ti.flexible_params ≢ 0
    → lwmsg_param_set env msg device ≡ undefined
unfolding lwmsg_param_set
lwmsg_param_set-undefined env msg device ms_id index s ids indices i ti key v fs m g t f e k h =
    over_single-undefined (body_array msg Key.mis) ms_id ids
      (λ id rsc d.
        set_params env (get_micro_service_info_by_id d.services (string_value (some id))) msg rsc d)
      device m
      (ap (λ w. set_params env w msg 400 device) g
        ∙ set_params-undefined env msg 400 device index s indices i ti key v fs t f e k h)
