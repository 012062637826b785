-- ===== src/Sifw/Dispatch/Sound/Reports.antt =====
-- The request for information, by the services that it leaves.
use io_tware.Common.{◌≡◌, ◌∙◌, Bool, true, false, Option, some, List, [], ◌∷◌, if◌then◌else◌}
use io_tware.Sifw.Text.{Text}
use io_tware.Sifw.Key
use io_tware.Sifw.Object.{
  Items, no_items, Fields, no_fields, set_object, add_item, dict, array, LwMessage,
}
use io_tware.Sifw.Build.{new_lwm_resp_message}
use io_tware.Sifw.Dispatch.{inform}
use io_tware.Sifw.Dispatch.Store.{Device}
use io_tware.Sifw.Dispatch.Unblocked.{Unblocked, Holds-if, Unblocked-bind, param_fields-Unblocked}
use io_tware.Smfw.State.{Run, ok, undefined, deadlock, ◌>>=◌, TaskInfo, Service, Env}
use io_tware.Smfw.Connect.Output.{Holds, Holds-bind}
use io_tware.Smfw.Connect.Ends.{Returns}
use io_tware.Smfw.Tasks.{is_running}
use io_tware.Smfw.Lifecycle.{del_micro_service}
use io_tware.Smfw.Lifecycle.Sound.{Creates, Sound, SoundResult}
use io_tware.Smfw.Lifecycle.Start.{Deleted, del-Returns}
use io_tware.Smfw.Registry.{
  prepare, put_back, task_information, tasks_information, services_tasks,
  make_device_information_lwmsg2, param_fields, delete, task_fields,
}
use io_tware.Sifw.Dispatch.Sound.{AllSound, SoundDevice}

pub Returns-Holds :
    {A : Type 0} (P Q : A → Type 0) (r : Run A) → Returns P r → ((a : A) → P a → Q a) → Holds Q r
Returns-Holds P Q (ok a) h k = k a h
Returns-Holds P Q undefined h k = elim h [ ]
Returns-Holds P Q deadlock h k = elim h [ ]

Deleted-Sound : (p : Service) (r : Bool × Service) → Deleted p r → Sound r.1
Deleted-Sound p r (e, l, em, _, _) = record {
  unlocked = l;
  linked = rw em.current tt;
  empty = λ _. em;
}

pub delete-Sound : (p : Service) → p.locked ≡ false → Holds Sound (delete p)
delete-Sound p l =
    Holds-bind SoundResult Sound (del_micro_service p) (λ r. ok r.1)
      (Returns-Holds (Deleted p) SoundResult (del_micro_service p) (del-Returns p l)
        (Deleted-Sound p))
      (λ r k. k)

put_back-if :
    (b : Bool) (s made : Service)
    → Sound s
    → made.locked ≡ false
    → Holds Sound (
        let prepared = if b then s else made in
        let deleted = delete prepared in if b then ok prepared else deleted)
put_back-if true s made h l = h
put_back-if false s made h l = delete-Sound made l

put_back-Sound :
    (env : Env) (s : Service) → Creates env → Sound s → Holds Sound (put_back s (prepare env s))
unfolding prepare put_back
put_back-Sound env s c h =
    put_back-if (is_running s.state) s (env.create s.ms_id s) h
      (c.keeps_lock s.ms_id s ∙ h.unlocked)

task_information-Unblocked : (env : Env) (ti : TaskInfo) → Unblocked (task_information env ti)
unfolding task_information
task_information-Unblocked env ti =
    Unblocked-bind (λ a. Unit) (param_fields env ti.static_params no_fields)
      (λ dsp.
        param_fields env ti.flexible_params no_fields >>= (λ dfp. ok (task_fields ti dsp dfp)))
      (param_fields-Unblocked env ti.static_params no_fields)
      (λ dsp.
        Unblocked-bind (λ a. Unit) (param_fields env ti.flexible_params no_fields)
          (λ dfp. ok (task_fields ti dsp dfp))
          (param_fields-Unblocked env ti.flexible_params no_fields) (λ dfp. tt))

pub tasks_information-Unblocked :
    (env : Env) (tasks : List TaskInfo) (tif : Items) → Unblocked (tasks_information env tasks tif)
unfolding tasks_information
tasks_information-Unblocked env [] tif = tt
tasks_information-Unblocked env (ti ∷ tasks) tif =
    let next = λ (dti : Fields). tasks_information env tasks (add_item tif (some (dict dti))) in
    Holds-if (λ a. Unit) ti.add_task_list (task_information env ti >>= next)
      (tasks_information env tasks tif)
      (Unblocked-bind (λ a. Unit) (task_information env ti) next (task_information-Unblocked env ti)
        (λ dti. tasks_information-Unblocked env tasks (add_item tif (some (dict dti)))))
      (tasks_information-Unblocked env tasks tif)

abbrev ReportSound : LwMessage × List Service → Type 0
ReportSound r = AllSound r.1

abbrev ItemsSound : Items × List Service → Type 0
ItemsSound r = AllSound r.1

services_tasks-Sound :
    (env : Env) (services : List Service) (tif : Items)
    → Creates env
    → AllSound services
    → Holds ItemsSound (services_tasks env services tif)
unfolding services_tasks
services_tasks-Sound env [] tif c h = tt
services_tasks-Sound env (s ∷ services) tif c h =
    let prepared = prepare env s in
    let last = λ (left : Service) (r : Items × List Service). ok (r.0, left ∷ r.1) in
    Unblocked-bind ItemsSound (tasks_information env prepared.tasks tif)
      (λ tif'. put_back s prepared >>= (λ left. services_tasks env services tif' >>= last left))
      (tasks_information-Unblocked env prepared.tasks tif)
      (λ tif'.
        Holds-bind Sound ItemsSound (put_back s prepared)
          (λ left. services_tasks env services tif' >>= last left) (put_back-Sound env s c h.0)
          (λ left k.
            Holds-bind ItemsSound ItemsSound (services_tasks env services tif') (last left)
              (services_tasks-Sound env services tif' c h.1) (λ r g. (k, g))))

pub inform-Sound :
    (env : Env) (dri : Option Text) (device : Device)
    → Creates env
    → AllSound device.services
    → Holds SoundDevice (inform env dri device)
unfolding inform make_device_information_lwmsg2
inform-Sound env dri device c h =
    let empty = new_lwm_resp_message dri 200 in
    let tell = λ (r : Items × List Service).
      ok (record empty { body = set_object empty.body Key.tif (array r.0) }, r.1) in
    let send = λ (r : LwMessage × List Service).
      ok (300, record device { sent = r.0 ∷ device.sent; services = r.1 }) in
    Holds-bind ReportSound SoundDevice (services_tasks env device.services no_items >>= tell) send
      (Holds-bind ItemsSound ReportSound (services_tasks env device.services no_items) tell
        (services_tasks-Sound env device.services no_items c h) (λ r k. k))
      (λ r k. k)
