-- ===== src/Sifw/Dispatch/Sound/Output.antt =====
-- The requests for an output parameter, by the services that they leave.
use io_tware.Common.{ℕ, ◌≡◌, refl, sym, subst, Option, none, some, List, ltb, if◌then◌else◌, length}
use io_tware.Sifw.Text.{Text, text_eq}
use io_tware.Sifw.Key
use io_tware.Sifw.Object.{LwmObject, Items, no_items, item, no_fields, set_object, dict, LwMessage}
use io_tware.Sifw.Build.{string_value, new_lwm_req_message}
use io_tware.Sifw.Dispatch.Store.{Device, body_array}
use io_tware.Sifw.Dispatch.Params.{respond}
use io_tware.Sifw.Dispatch.Output.{
  copy_dri, answer_output, read_busy, read_idle, read_output, read_outputs, lwmsg_output_param_read,
  ask_tasks,
}
use io_tware.Sifw.Dispatch.Unblocked.{Holds-if, Holds-option, Unblocked-bind, value-Unblocked}
use io_tware.Smfw.State.{ok, undefined, ◌>>=◌, Parameter, Service, Env}
use io_tware.Smfw.Connect.Output.{Holds, Holds-bind}
use io_tware.Smfw.Tasks.{is_running, is_tasks_running}
use io_tware.Smfw.Parameters.{max_name_length}
use io_tware.Smfw.Values.{new_lwm_object_from_type_value}
use io_tware.Smfw.Lifecycle.Sound.{Sound}
use io_tware.Smfw.Registry.{get_micro_service_info_by_id, put_service, set_value}
use io_tware.Sifw.Dispatch.Sound.{AllSound, SoundDevice, FoundSound, put-Sound, get-Sound}

copy_dri-Sound : (s : Service) (dri : Option Text) → Sound s → Holds Sound (copy_dri s dri)
unfolding copy_dri
copy_dri-Sound s none h = tt
copy_dri-Sound s (some dri) h =
    Holds-if Sound (ltb max_name_length (length dri)) undefined (ok (record s { latest_dri = dri }))
      tt
      (record {
        unlocked = h.unlocked;
        linked = h.linked;
        empty = λ e.
            let em = h.empty e in
            record { tasks = em.tasks; head = em.head; lines = em.lines; current = em.current };
      })

abbrev Services : List Service → Device → Type 0
Services services d = d.services ≡ services

answer_output-keeps :
    (env : Env) (dri : Option Text) (param : Parameter) (device : Device)
    → Holds (Services device.services) (answer_output env dri param device)
unfolding answer_output
answer_output-keeps env dri param device =
    let told = λ (v : Option LwmObject).
      respond dri (set_object no_fields Key.op (dict (set_value no_fields param.name v))) device in
    let P = Services device.services in
    Holds-option P param.value (ok device)
      (λ value. new_lwm_object_from_type_value env param.type (some value) >>= (λ v. ok (told v)))
      refl
      (λ value.
        Unblocked-bind P (new_lwm_object_from_type_value env param.type (some value))
          (λ v. ok (told v)) (value-Unblocked env param.type (some value)) (λ v. refl))

-- Answering leaves the services as they are.
answered-Sound :
    (env : Env) (dri : Option Text) (param : Parameter) (device : Device)
    → AllSound device.services
    → Holds SoundDevice (answer_output env dri param device >>= (λ d. ok (300, d)))
answered-Sound env dri param device h =
    Holds-bind (Services device.services) SoundDevice (answer_output env dri param device)
      (λ d. ok (300, d)) (answer_output-keeps env dri param device)
      (λ d e. subst AllSound (sym e) h)

read_busy-Sound :
    (env : Env) (dri : Option Text) (s : Service) (device : Device)
    → AllSound device.services
    → Holds SoundDevice (read_busy env dri s device)
unfolding read_busy
read_busy-Sound env none s device h = tt
read_busy-Sound env (some dri) s device h =
    Holds-if SoundDevice (text_eq s.latest_dri dri)
      (answer_output env (some dri) s.output_param device >>= (λ d. ok (300, d))) (ok (400, device))
      (answered-Sound env (some dri) s.output_param device h) h

read_idle-Sound :
    (env : Env) (id : ℕ) (dri : Option Text) (s : Service) (device : Device)
    → AllSound device.services
    → Sound s
    → Holds SoundDevice (read_idle env id dri s device)
unfolding read_idle
read_idle-Sound env id dri s device h g =
    let asked = λ (s' : Service). record device {
      inputs = ask_tasks (new_lwm_req_message id dri none) s.tasks device.inputs;
      services = put_service device.services s.ms_id s';
    } in
    Holds-bind Sound SoundDevice (copy_dri s dri)
      (λ s'. answer_output env dri s.output_param (asked s') >>= (λ d. ok (300, d)))
      (copy_dri-Sound s dri g)
      (λ s' k.
        answered-Sound env dri s.output_param (asked s') (put-Sound device.services s.ms_id s' h k))

read_output-Sound :
    (env : Env) (id : ℕ) (dri : Option Text) (w : Option Service) (device : Device)
    → AllSound device.services
    → FoundSound w
    → Holds SoundDevice (read_output env id dri w device)
unfolding read_output
read_output-Sound env id dri none device h g = h
read_output-Sound env id dri (some s) device h g =
    let busy = read_busy env dri s device in
    let idle = read_idle env id dri s device in
    Holds-if SoundDevice (is_running s.state) (if is_tasks_running s then busy else idle)
      (ok (400, device))
      (Holds-if SoundDevice (is_tasks_running s) busy idle (read_busy-Sound env dri s device h)
        (read_idle-Sound env id dri s device h g))
      h

read_outputs-Sound :
    (env : Env) (id : ℕ) (dri : Option Text) (ids : Items) (rsc : ℕ) (device : Device)
    → AllSound device.services
    → Holds SoundDevice (read_outputs env id dri ids rsc device)
unfolding read_outputs
read_outputs-Sound env id dri no_items rsc device h = h
read_outputs-Sound env id dri (item ms_id ids) rsc device h =
    let w = get_micro_service_info_by_id device.services (string_value (some ms_id)) in
    Holds-bind SoundDevice SoundDevice (read_output env id dri w device)
      (λ r. read_outputs env id dri ids r.0 r.1)
      (read_output-Sound env id dri w device h
        (get-Sound device.services (string_value (some ms_id)) h))
      (λ r k. read_outputs-Sound env id dri ids r.0 r.1 k)

pub lwmsg_output_param_read-Sound :
    (env : Env) (id : ℕ) (dri : Option Text) (msg : LwMessage) (device : Device)
    → AllSound device.services
    → Holds SoundDevice (lwmsg_output_param_read env id dri msg device)
unfolding lwmsg_output_param_read
lwmsg_output_param_read-Sound env id dri msg device h =
    Holds-option SoundDevice (body_array msg Key.mis) (ok (400, device))
      (λ ids. read_outputs env id dri ids 400 device) h
      (λ ids. read_outputs-Sound env id dri ids 400 device h)
