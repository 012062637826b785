-- ===== src/Smfw/Tasks.antt =====
-- The tasks of iw_fw_microservices.c: adding, finding, running and switching. Every malloc
-- succeeds. Printing is left out.
use io_tware.Common.{
  ℕ, zero, suc, ◌+◌, ◌%◌, ◌^◌, Bool, true, false, ◌&&◌, ◌||◌, not, Option, none, some, List, [],
  ◌∷◌, ltb, ◌==◌, if◌then◌else◌, length, node_num, take, set, replicate,
}
use io_tware.Sifw.Text.{Text, text_eq}
use io_tware.Smfw.State.{
  State, not_ready, created, stopped, running, is_active, TaskFn, base_task_type3, base_task_type4,
  TaskInfo, Service, Env,
}
use io_tware.Smfw.Parameters.{max_name_length, safe_alloc}

abbrev pub queue_length : ℕ
queue_length = 20

-- `sizeof(PLWMessage)`
abbrev pub pointer_size : ℕ
pointer_size = 4

abbrev pub port_missing : Option ℕ → ℕ → Bool
port_missing none input_count = false
port_missing (some port) input_count = ltb input_count (port + 1)

abbrev pub first_queues : Env → Option ℕ → ℕ → List (Option ℕ)
first_queues env none input_count = replicate input_count none
first_queues env (some port) input_count =
    set (replicate input_count none) port (env.create_queue queue_length pointer_size)

-- `add_new_task`: the address of the new task, `none` for NULL, and the service it is put into. The
-- address is the number of the tasks, which none of them has: a deletion takes the latest ones.
unfoldable pub add_new_task :
    Env
    → Service
    → TaskFn
    → Option ℕ
    → Option ℕ
    → Option ℕ
    → Text
    → ℕ
    → ℕ
    → Option ℕ
    → Option ℕ × Service
add_new_task env parent fp init_fp before_fp after_fp name input_count output_count lwmsg_input =
    let self : TaskInfo = record {
      name = take max_name_length name;
      task_t = none;
      task_fn = fp;
      task_idx = node_num parent.tasks;
      address = length parent.tasks;
      init_fn = init_fp;
      before_fn = before_fp;
      after_fn = after_fp;
      input_queues = first_queues env lwmsg_input input_count;
      output_ports = replicate output_count none;
      output_ptr = none;
      input_item_size = 0;
      output_item_size = 0;
      user_params = [];
      static_params = [];
      flexible_params = [];
      input_count = input_count;
      output_count = output_count;
      lwmsg_input_port = lwmsg_input;
      initial_state = created;
      offloading = false;
      add_task_list = false;
      state = not_ready;
    } in
    if port_missing lwmsg_input input_count
    then (none, parent)
    else (some (length parent.tasks), record parent { tasks = self ∷ parent.tasks })

abbrev pub is_port : Option ℕ → ℕ → Bool
is_port none i = false
is_port (some port) i = port == i

-- The loop of `set_inout_item_size`, from the queue `i` on.
unfoldable pub new_queues : Env → Option ℕ → ℕ → ℕ → List (Option ℕ) → List (Option ℕ)
new_queues env port size i [] = []
new_queues env port size i (q ∷ queues) =
    let rest = new_queues env port size (i + 1) queues in
    if is_port port i then q ∷ rest else env.create_queue queue_length size ∷ rest

-- `set_inout_item_size`
unfoldable pub set_inout_item_size : Env → TaskInfo → ℕ → ℕ → TaskInfo
unfolding new_queues safe_alloc
set_inout_item_size env ti input_item_size output_item_size = record ti {
  input_item_size = input_item_size;
  output_item_size = output_item_size;
  input_queues = new_queues env ti.lwmsg_input_port input_item_size 0 ti.input_queues;
  output_ptr = safe_alloc output_item_size;
}

-- The loop of `get_task_info_by_name`.
unfoldable pub find_by_name : List TaskInfo → Text → Option TaskInfo
find_by_name [] name = none
find_by_name (ti ∷ tasks) name = if text_eq name ti.name then some ti else find_by_name tasks name

-- `get_task_info_by_name`
unfoldable pub get_task_info_by_name : Service → Text → Option TaskInfo
unfolding find_by_name
get_task_info_by_name msi [] = none
get_task_info_by_name msi (c ∷ name) = find_by_name msi.tasks (c ∷ name)

-- The loop of `get_task_info_by_idx`.
unfoldable pub find_by_idx : List TaskInfo → ℕ → Option TaskInfo
find_by_idx [] index = none
find_by_idx (ti ∷ tasks) index = if ti.task_idx == index then some ti else find_by_idx tasks index

-- `get_task_info_by_idx`
unfoldable pub get_task_info_by_idx : Service → ℕ → Option TaskInfo
unfolding find_by_idx
get_task_info_by_idx msi index =
    if ltb (node_num msi.tasks) ((index + 1) % 2 ^ 32) then none else find_by_idx msi.tasks index

-- `get_input_queue_from_taskinfo` of an index below 2 ^ 32 - 1.
unfoldable pub get_input_queue : TaskInfo → ℕ → Option ℕ
get_input_queue ti index =
    if ltb ti.input_count (index + 1) then none else queue_at ti.input_queues index
  where
    queue_at : List (Option ℕ) → ℕ → Option ℕ
    queue_at [] i = none
    queue_at (q ∷ queues) zero = q
    queue_at (q ∷ queues) (suc i) = queue_at queues i

-- Whether `init_fn` is there and aborts.
abbrev pub init_aborts : Env → Option ℕ → Bool
init_aborts env none = false
init_aborts env (some f) = env.init f

abbrev pub has_port : Option ℕ → Bool
has_port none = false
has_port (some port) = true

-- `run_task`
unfoldable pub run_task : Env → TaskInfo → Bool → Bool × TaskInfo
run_task env ti force =
    let stopped_task = record ti { task_t = none; state = stopped } in
    if not force && is_active ti.state
    then (false, ti)
    else if init_aborts env ti.init_fn
    then (false, stopped_task)
    else if ltb 0 ti.input_item_size || has_port ti.lwmsg_input_port
    then (true, record ti { task_t = env.create_task ti.name; state = created })
    else (false, stopped_task)

-- The first loop of the off branch of `task_onoff`, from the queue `i` on: a queue that is not made
-- again keeps its deleted handle.
unfoldable pub renew_queues : Env → Option ℕ → ℕ → ℕ → List (Option ℕ) → List (Option ℕ)
renew_queues env port size i [] = []
renew_queues env port size i (q ∷ queues) =
    let rest = renew_queues env port size (i + 1) queues in
    if is_port port i
    then env.create_queue queue_length pointer_size ∷ rest
    else if ltb 0 size
    then env.create_queue queue_length size ∷ rest
    else q ∷ rest

-- The task's part of `task_onoff`: what it returns, whether it comes to set_output_connect_line,
-- and the task.
unfoldable pub switch_task : Env → TaskInfo → Bool → Bool × Bool × TaskInfo
unfolding renew_queues
switch_task env ti onoff =
    if not ti.offloading
    then (false, false, ti)
    else if onoff
    then (if is_active ti.state
        then (false, false, ti)
        else (true, true, record ti { initial_state = not_ready }))
    else (
      true,
      true,
      record ti {
        task_t = none;
        input_queues = renew_queues env ti.lwmsg_input_port ti.input_item_size 0 ti.input_queues;
        output_ports = replicate (length ti.output_ports) none;
        state = stopped;
        initial_state = stopped;
      },
    )

abbrev pub is_base3 : TaskFn → Bool
is_base3 base_task_type3 = true
is_base3 _ = false

abbrev pub is_base4 : TaskFn → Bool
is_base4 base_task_type4 = true
is_base4 _ = false

abbrev pub is_running : State → Bool
is_running running = true
is_running _ = false

-- The loop of `is_tasks_running`.
unfoldable pub any_running : List TaskInfo → Bool
any_running [] = false
any_running (ti ∷ tasks) =
    if not (is_base3 ti.task_fn) && (not (is_base4 ti.task_fn) && is_running ti.state)
    then true
    else any_running tasks

-- `is_tasks_running`
unfoldable pub is_tasks_running : Service → Bool
unfolding any_running
is_tasks_running msi = if is_running msi.state then any_running msi.tasks else false
