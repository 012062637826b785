-- ===== src/Sifw/Dispatch/Tests.antt =====
-- Concrete requests to a device.
use io_tware.Common.{◌≡◌, refl, true, false, none, some, [], ◌∷◌, zeros, arith}
use io_tware.Sifw.Text.{text_eq, is_space}
use io_tware.Sifw.Key
use io_tware.Sifw.Object.{
  pos, string, array, dict, no_items, item, no_fields, field, get_object, LwMessage,
}
use io_tware.Sifw.Build.{string_value}
use io_tware.Sifw.Dispatch.{dispatch}
use io_tware.Sifw.Dispatch.Store.{Device, body_array, int_value, task_by_int}
use io_tware.Sifw.Dispatch.Params.{lwmsg_param_set}
use io_tware.Sifw.Dispatch.Sound.Messages.{ServicesSound, dispatch-Sound}
use io_tware.Sifw.Dispatch.Information.{AllLeft, services_tasks-AllLeft}
use io_tware.Sifw.Dispatch.Unset.{lwmsg_param_set-undefined}
use io_tware.Smfw.State.{
  undefined, p_int16, read_write, Parameter, created, not_ready, base_task_type1, null, TaskInfo,
  Service, Env,
}
use io_tware.Smfw.Values.{atol, signed_digits, strip, digits_from}
use io_tware.Smfw.Tasks.{get_task_info_by_idx, find_by_idx}
use io_tware.Smfw.Connect.Output.{Holds}
use io_tware.Smfw.Lifecycle.Sound.{Creates, Sound}
use io_tware.Smfw.Registry.{get_micro_service_info_by_id, find_service, services_tasks}

abbrev level : Parameter
level = record {
  value = some (zeros 2);
  value_size = 2;
  type = p_int16;
  name = b'l' ∷ [];
  alias = b'L' ∷ [];
  attr = read_write;
  last_updated = 0;
}

abbrev task : TaskInfo
task = record {
  name = b'a' ∷ [];
  task_t = none;
  task_fn = base_task_type1;
  task_idx = 0;
  address = 0;
  init_fn = none;
  before_fn = none;
  after_fn = none;
  input_queues = [];
  output_ports = [];
  output_ptr = none;
  input_item_size = 4;
  output_item_size = 4;
  user_params = [];
  static_params = [];
  flexible_params = level ∷ [];
  input_count = 0;
  output_count = 0;
  lwmsg_input_port = none;
  initial_state = created;
  offloading = false;
  add_task_list = true;
  state = not_ready;
}

abbrev device_env : Env
device_env = record {
  create_queue = λ n size. some 7;
  create_task = λ name. some 1;
  init = λ f. false;
  create = λ id s. record s { tasks = task ∷ [] };
  tick_count = 0;
  float_bytes = λ s. zeros 4;
  float_parts = λ bs. (pos 0, pos 0);
  double_parts = λ bs. (pos 0, pos 0);
  address = λ s. zeros 4;
}

device-Creates : Creates device_env
device-Creates = record { keeps_link = λ id s. refl; keeps_lock = λ id s. refl }

abbrev service : Service
service = record {
  ms_id = b'1' ∷ [];
  name = b'm' ∷ [];
  tasks = task ∷ [];
  locked = false;
  task_link_head = null;
  current_task_link = none;
  connect_lines = [];
  state = created;
  latest_dri = [];
  input_params = [];
  output_param = level;
}

service-Sound : Sound service
service-Sound = record { unlocked = refl; linked = tt; empty = λ e. absurd (ground arith) }

abbrev device : Device
device = record { services = service ∷ []; sent = []; inputs = [] }

-- `{if=21;dri=1}{mis=[1];tis=[0];fp={L=5}}`
abbrev set_level : LwMessage
set_level = record {
  header =
      field Key.if_id (string (some (b'2' ∷ b'1' ∷ [])))
        (field Key.dri (string (some (b'1' ∷ []))) no_fields);
  body = field Key.mis (array (item (string (some (b'1' ∷ []))) no_items)) (
      field Key.tis (array (item (string (some (b'0' ∷ []))) no_items))
        (field Key.fp (dict (field (b'L' ∷ []) (string (some (b'5' ∷ []))) no_fields)) no_fields));
}

-- `{if=11;dri=1}{mis=[1]}`
abbrev run_one : LwMessage
run_one = record {
  header =
      field Key.if_id (string (some (b'1' ∷ b'1' ∷ [])))
        (field Key.dri (string (some (b'1' ∷ []))) no_fields);
  body = field Key.mis (array (item (string (some (b'1' ∷ []))) no_items)) no_fields;
}

dispatch-Sound_example : Holds ServicesSound (dispatch device_env (run_one ∷ set_level ∷ []) device)
dispatch-Sound_example =
    dispatch-Sound device_env (run_one ∷ set_level ∷ []) device device-Creates (service-Sound, tt)

services_tasks-AllLeft_example :
    Holds
      (λ r. AllLeft device_env (service ∷ []) r.1)
      (services_tasks device_env (service ∷ []) no_items)
services_tasks-AllLeft_example =
    services_tasks-AllLeft device_env (service ∷ []) no_items device-Creates (service-Sound, tt)

lwmsg_param_set-undefined_example : lwmsg_param_set device_env set_level device ≡ undefined
unfolding body_array get_object text_eq string_value get_micro_service_info_by_id find_service
    int_value atol signed_digits strip digits_from is_space task_by_int get_task_info_by_idx
    find_by_idx
lwmsg_param_set-undefined_example =
    lwmsg_param_set-undefined device_env set_level device (string (some (b'1' ∷ [])))
      (string (some (b'0' ∷ []))) service no_items no_items (pos 0) task (b'L' ∷ [])
      (string (some (b'5' ∷ []))) no_fields refl refl refl refl refl refl (λ e. ground arith)
