-- ===== src/Sifw/Dispatch.antt =====
-- lwmsg_dist_task of IotwareFW/Microservice/SIFW/task_lwmsg_dist.c, which answers the requests of
-- the server, and the step of iw_fw_lwMsgRx of iw_fw_lwMsgCore.c that hands them over.
pub mod Store
pub mod Services
pub mod Params
pub mod Output
pub mod Unblocked
pub mod Sound
pub mod Information
pub mod Unset
pub mod Tests
use io_tware.Common.{
  ℕ, Bool, true, false, ◌||◌, Option, none, some, List, [], ◌∷◌, ◌==◌, if◌then◌else◌,
}
use io_tware.Sifw.Text.{Text}
use io_tware.Sifw.Key
use io_tware.Sifw.Object.{ℤ, pos, negsuc, LwmObject, get_object, LwMessage}
use io_tware.Sifw.Serialize.{is_empty}
use io_tware.Sifw.Build.{string_value, new_lwm_resp_message}
use io_tware.Sifw.Dispatch.Store.{Device, int_value}
use io_tware.Sifw.Dispatch.Services.{lwmsg_operation, lwmsg_offloading}
use io_tware.Sifw.Dispatch.Params.{lwmsg_param_set, lwmsg_param_read}
use io_tware.Sifw.Dispatch.Output.{lwmsg_output_param_read}
use io_tware.Smfw.State.{Run, ok, undefined, ◌>>=◌, Env}
use io_tware.Smfw.Registry.{make_device_information_lwmsg2}

-- The answer to a request for information.
unfoldable pub inform : Env → Option Text → Device → Run (ℕ × Device)
unfolding make_device_information_lwmsg2
inform env dri device = do
  (msg, services) ← make_device_information_lwmsg2 env device.services dri 200
  ok (300, record device { sent = msg ∷ device.sent; services = services })

-- What is done for an interface: the code, and the device.
unfoldable pub handle_request : Env → ℕ → Option Text → LwMessage → Device → Run (ℕ × Device)
unfolding inform lwmsg_operation lwmsg_param_set lwmsg_param_read lwmsg_output_param_read
    lwmsg_offloading
handle_request env id dri msg device =
    if id == 3
    then inform env dri device
    else if id == 10 || (id == 11 || (id == 15 || id == 16))
    then lwmsg_operation env id msg device
    else if id == 21
    then lwmsg_param_set env msg device
    else if id == 22 || id == 23
    then lwmsg_param_read env id dri msg device
    else if id == 13
    then lwmsg_output_param_read env id dri msg device
    else if id == 20 || id == 24
    then lwmsg_offloading env id msg device
    else ok (400, device)

-- The end of a round: a code that is not 300 is answered where the request has a dri.
unfoldable pub answer : Option Text → ℕ × Device → Device
unfolding new_lwm_resp_message
answer none (rsc, device) = device
answer (some dri) (rsc, device) =
    if rsc == 300
    then device
    else record device { sent = new_lwm_resp_message (some dri) rsc ∷ device.sent }

abbrev pub request_by_int : Env → ℤ → Option Text → LwMessage → Device → Run (ℕ × Device)
request_by_int env (pos id) dri msg device = handle_request env id dri msg device
request_by_int env (negsuc n) dri msg device = ok (400, device)

-- A round of `lwmsg_dist_task` for a message with both objects in its header.
unfoldable pub handle_objects :
    Env → Option LwmObject → Option LwmObject → LwMessage → Device → Run Device
unfolding int_value handle_request answer string_value
handle_objects env (some cif) (some cdri) msg device = do
  id ← int_value cif
  result ← request_by_int env id (string_value (some cdri)) msg device
  ok (answer (string_value (some cdri)) result)
handle_objects env _ _ msg device = ok device

-- A round of `lwmsg_dist_task`. Where it has no dri, a message is not answered.
unfoldable pub handle_message : Env → LwMessage → Device → Run Device
unfolding handle_objects
handle_message env msg device =
    let handled =
      handle_objects env (get_object msg.header Key.if_id) (get_object msg.header Key.dri) msg
        device in
    if is_empty msg.header then ok device else handled

-- The loop of `lwmsg_dist_task`, over the messages that the queue gives.
unfoldable pub dispatch : Env → List LwMessage → Device → Run Device
unfolding handle_message
dispatch env [] device = ok device
dispatch env (msg ∷ msgs) device = do
  device' ← handle_message env msg device
  dispatch env msgs device'
