-- ===== src/Smfw/State.antt =====
-- The structs of include/iw_fw_microservices.h and iw_fw_types_internal.h. A list stands from its
-- head on, and iw_add_list_node puts in front. A pointer to a task is the task's `address`, a
-- number that no other task of its service has (`task_idx` is an 8-bit count, which tasks can share),
-- and a pointer to a task link the way to it from the head of the links. A pointer to a
-- connect line is the line, which never changes.
use io_tware.Common.{
  ℕ, Bool, true, false, Option, none, some, List, [], ◌∷◌, Bytes, ◌==◌, if◌then◌else◌,
}
use io_tware.Sifw.Text.{Text}
use io_tware.Sifw.Object.{ℤ}

-- How a function ends: with a result, with an access that C does not define, or waiting for a mutex
-- that its own task holds.
pub data Run {ℓ} (A : Type ℓ) : Type ℓ where
  ok : A → Run A
  undefined : Run A
  deadlock : Run A

infixl 5 ◌>>=◌
abbrev pub ◌>>=◌ {ℓ κ} : {A : Type ℓ} {B : Type κ} → Run A → (A → Run B) → Run B
ok a >>= f = f a
undefined >>= f = undefined
deadlock >>= f = deadlock

-- `eSTATE_TYPE`, where WAITING is CREATED; I_S_ACTIVE is NOT_READY, I_S_READY is CREATED and
-- I_S_STOP is STOPPED.
pub data State : Type 0 where
  not_ready created stopped running : State

-- `IS_ACTIVE_STATE`
abbrev pub is_active : State → Bool
is_active not_ready = false
is_active created = true
is_active stopped = false
is_active running = true

-- `GET_INITIAL_ONOFF`
abbrev pub initial_onoff : State → Bool
initial_onoff stopped = false
initial_onoff _ = true

-- `ePARAM_TYPE`
pub data ParamType : Type 0 where
  p_int8 p_uint8 p_int16 p_uint16 p_int32 p_uint32 p_float p_double p_string p_unknown : ParamType

-- `ePARAM_ATTR`
pub data ParamAttr : Type 0 where
  no_attr read_only read_write : ParamAttr

-- `stParameter`; a `value` of `none` is NULL.
pub record Parameter : Type 0 where
  pub value : Option Bytes
  pub value_size : ℕ
  pub type : ParamType
  pub name : Text
  pub alias : Text
  pub attr : ParamAttr
  pub last_updated : ℕ

-- `stConnectLine`
pub record ConnectLine : Type 0 where
  pub start_task : ℕ
  pub output_port_no : ℕ
  pub dest_task : ℕ
  pub input_port_no : ℕ

-- `stTaskLink` behind its pointer, with `null` for NULL; a link's `task` may be NULL too.
pub data TaskLink : Type 0 where
  null : TaskLink
  link :
      (task : Option ℕ) (next_on next_off : TaskLink)
      (connect_link_head : Option (List (Option ConnectLine))) (output_param_name : Text)
      → TaskLink

-- `task_fn`: the four task bodies of the framework, or one of the application.
pub data TaskFn : Type 0 where
  base_task_type1 base_task_type2 base_task_type3 base_task_type4 : TaskFn
  other_task : ℕ → TaskFn

-- `stTaskInfo`. Handles and the functions of the application are numbers; `lwmsg_input_port` is
-- `none` where it is negative, and `address` is no member of the struct: it stands for the pointer to
-- the task.
pub record TaskInfo : Type 0 where
  pub name : Text
  pub task_t : Option ℕ
  pub task_fn : TaskFn
  pub task_idx : ℕ
  pub address : ℕ
  pub init_fn : Option ℕ
  pub before_fn : Option ℕ
  pub after_fn : Option ℕ
  pub input_queues : List (Option ℕ)
  pub output_ports : List (Option ConnectLine)
  pub output_ptr : Option Bytes
  pub input_item_size : ℕ
  pub output_item_size : ℕ
  pub user_params : List Parameter
  pub static_params : List Parameter
  pub flexible_params : List Parameter
  pub input_count : ℕ
  pub output_count : ℕ
  pub lwmsg_input_port : Option ℕ
  pub initial_state : State
  pub offloading : Bool
  pub add_task_list : Bool
  pub state : State

-- `stMicroServiceInfo`; `locked` says whether `operation_lock` is held. `current_task_link` is a
-- way from `task_link_head`: `true` for `next_on`, `false` for `next_off`.
pub record Service : Type 0 where
  pub ms_id : Text
  pub name : Text
  pub tasks : List TaskInfo
  pub locked : Bool
  pub task_link_head : TaskLink
  pub current_task_link : Option (List Bool)
  pub connect_lines : List ConnectLine
  pub state : State
  pub latest_dri : Text
  pub input_params : List Parameter
  pub output_param : Parameter

-- What the framework calls: the kernel (the length and item size of a queue, the name of a task;
-- `none` is NULL), the functions of the application by number (`init` says `is_abort`, `create`
-- goes by the service's id), and what the processor makes of floating-point texts, of their bytes
-- and of addresses.
pub record Env : Type 0 where
  pub create_queue : ℕ → ℕ → Option ℕ
  pub create_task : Text → Option ℕ
  pub init : ℕ → Bool
  pub create : Text → Service → Service
  pub tick_count : ℕ
  pub float_bytes : Text → Bytes
  pub float_parts : Bytes → ℤ × ℤ
  pub double_parts : Bytes → ℤ × ℤ
  pub address : Text → Bytes

-- A write through the pointer to a task.
unfoldable pub update_task : List TaskInfo → ℕ → (TaskInfo → TaskInfo) → List TaskInfo
update_task [] idx f = []
update_task (t ∷ tasks) idx f =
    if t.address == idx then f t ∷ tasks else t ∷ update_task tasks idx f

-- A read through it.
unfoldable pub task_at : List TaskInfo → ℕ → Option TaskInfo
task_at [] idx = none
task_at (t ∷ tasks) idx = if t.address == idx then some t else task_at tasks idx

-- `iw_lock_mutex` and `iw_unlock_mutex`
abbrev pub lock : Service → Run Service
lock s = if s.locked then deadlock else ok (record s { locked = true })

abbrev pub unlock : Service → Service
unlock s = record s { locked = false }
