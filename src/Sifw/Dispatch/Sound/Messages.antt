-- ===== src/Sifw/Dispatch/Sound/Messages.antt =====
-- The services behind a run of messages, and the mutexes that their handlers take.
use io_tware.Common.{
  ℕ, Bool, true, false, ◌||◌, Option, none, some, List, [], ◌∷◌, ◌==◌, if◌then◌else◌,
}
use io_tware.Sifw.Text.{Text}
use io_tware.Sifw.Key
use io_tware.Sifw.Object.{ℤ, pos, negsuc, LwmObject, get_object, LwMessage}
use io_tware.Sifw.Build.{string_value, new_lwm_resp_message}
use io_tware.Sifw.Serialize.{is_empty}
use io_tware.Sifw.Dispatch.{
  inform, handle_request, answer, request_by_int, handle_objects, handle_message, dispatch,
}
use io_tware.Sifw.Dispatch.Store.{Device, int_value}
use io_tware.Sifw.Dispatch.Services.{lwmsg_operation, lwmsg_offloading}
use io_tware.Sifw.Dispatch.Params.{lwmsg_param_set, lwmsg_param_read}
use io_tware.Sifw.Dispatch.Output.{lwmsg_output_param_read}
use io_tware.Sifw.Dispatch.Unblocked.{Holds-if, Unblocked-bind, int_value-Unblocked}
use io_tware.Smfw.State.{ok, ◌>>=◌, Env}
use io_tware.Smfw.Connect.Output.{Holds, Holds-bind}
use io_tware.Smfw.Lifecycle.Sound.{Creates}
use io_tware.Sifw.Dispatch.Sound.{AllSound, SoundDevice, lwmsg_operation-Sound}
use io_tware.Sifw.Dispatch.Sound.Loops.{lwmsg_offloading-Sound}
use io_tware.Sifw.Dispatch.Sound.Values.{lwmsg_param_set-Sound, lwmsg_param_read-Sound}
use io_tware.Sifw.Dispatch.Sound.Output.{lwmsg_output_param_read-Sound}
use io_tware.Sifw.Dispatch.Sound.Reports.{inform-Sound}

handle_request-Sound :
    (env : Env) (id : ℕ) (dri : Option Text) (msg : LwMessage) (device : Device)
    → Creates env
    → AllSound device.services
    → Holds SoundDevice (handle_request env id dri msg device)
unfolding handle_request
handle_request-Sound env id dri msg device c h =
    let output =
      if id == 20 || id == 24 then lwmsg_offloading env id msg device else ok (400, device) in
    let switch_sound =
      Holds-if SoundDevice (id == 20 || id == 24) (lwmsg_offloading env id msg device)
        (ok (400, device)) (lwmsg_offloading-Sound env id msg device h) h in
    let read_output = if id == 13 then lwmsg_output_param_read env id dri msg device else output in
    let output_sound =
      Holds-if SoundDevice (id == 13) (lwmsg_output_param_read env id dri msg device) output
        (lwmsg_output_param_read-Sound env id dri msg device h) switch_sound in
    let read =
      if id == 22 || id == 23 then lwmsg_param_read env id dri msg device else read_output in
    let read_sound =
      Holds-if SoundDevice (id == 22 || id == 23) (lwmsg_param_read env id dri msg device)
        read_output (lwmsg_param_read-Sound env id dri msg device h) output_sound in
    let set = if id == 21 then lwmsg_param_set env msg device else read in
    let set_sound =
      Holds-if SoundDevice (id == 21) (lwmsg_param_set env msg device) read
        (lwmsg_param_set-Sound env msg device h) read_sound in
    let change = id == 10 || (id == 11 || (id == 15 || id == 16)) in
    let operation = if change then lwmsg_operation env id msg device else set in
    Holds-if SoundDevice (id == 3) (inform env dri device) operation
      (inform-Sound env dri device c h)
      (Holds-if SoundDevice change (lwmsg_operation env id msg device) set
        (lwmsg_operation-Sound env id msg device c h) set_sound)

answered :
    (b : Bool) (d d' : Device)
    → AllSound d.services
    → AllSound d'.services
    → AllSound (if b then d else d').services
answered true d d' h k = h
answered false d d' h k = k

answer-Sound :
    (dri : Option Text) (r : ℕ × Device) → AllSound r.1.services → AllSound (answer dri r).services
unfolding answer
answer-Sound none r h = h
answer-Sound (some dri) r h =
    answered (r.0 == 300) r.1 (record r.1 { sent = new_lwm_resp_message (some dri) r.0 ∷ r.1.sent })
      h h

request_by_int-Sound :
    (env : Env) (id : ℤ) (dri : Option Text) (msg : LwMessage) (device : Device)
    → Creates env
    → AllSound device.services
    → Holds SoundDevice (request_by_int env id dri msg device)
request_by_int-Sound env (pos id) dri msg device c h =
    handle_request-Sound env id dri msg device c h
request_by_int-Sound env (negsuc n) dri msg device c h = h

abbrev pub ServicesSound : Device → Type 0
ServicesSound d = AllSound d.services

handle_objects-Sound :
    (env : Env) (cif cdri : Option LwmObject) (msg : LwMessage) (device : Device)
    → Creates env
    → AllSound device.services
    → Holds ServicesSound (handle_objects env cif cdri msg device)
unfolding handle_objects
handle_objects-Sound env none none msg device c h = h
handle_objects-Sound env none (some cdri) msg device c h = h
handle_objects-Sound env (some cif) none msg device c h = h
handle_objects-Sound env (some cif) (some cdri) msg device c h =
    let dri = string_value (some cdri) in
    Unblocked-bind ServicesSound (int_value cif)
      (λ id. request_by_int env id dri msg device >>= (λ r. ok (answer dri r)))
      (int_value-Unblocked cif)
      (λ id.
        Holds-bind SoundDevice ServicesSound (request_by_int env id dri msg device)
          (λ r. ok (answer dri r)) (request_by_int-Sound env id dri msg device c h)
          (λ r k. answer-Sound dri r k))

handle_message-Sound :
    (env : Env) (msg : LwMessage) (device : Device)
    → Creates env
    → AllSound device.services
    → Holds ServicesSound (handle_message env msg device)
unfolding handle_message
handle_message-Sound env msg device c h =
    let cif = get_object msg.header Key.if_id in
    let cdri = get_object msg.header Key.dri in
    Holds-if ServicesSound (is_empty msg.header) (ok device)
      (handle_objects env cif cdri msg device) h (handle_objects-Sound env cif cdri msg device c h)

-- Whatever messages the server sends, one after the other, to a device whose services are sound (the
-- mutex is free, the current link is one of the links, and a service that is not ready has no link
-- and the 8-bit counts 0 of its tasks and lines): no handler waits for a mutex that its own task
-- holds, and if the last one ends, all services are sound again.
pub dispatch-Sound :
    (env : Env) (msgs : List LwMessage) (device : Device)
    → Creates env
    → AllSound device.services
    → Holds ServicesSound (dispatch env msgs device)
unfolding dispatch
dispatch-Sound env [] device c h = h
dispatch-Sound env (msg ∷ msgs) device c h =
    Holds-bind ServicesSound ServicesSound (handle_message env msg device) (dispatch env msgs)
      (handle_message-Sound env msg device c h) (λ d k. dispatch-Sound env msgs d c k)
