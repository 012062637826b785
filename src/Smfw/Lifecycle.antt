-- ===== src/Smfw/Lifecycle.antt =====
-- The life of a microservice in iw_fw_microservices.c. A service pointer is not NULL here, which
-- every caller in the repository has tested. Deleting queues and memory, and suspending and
-- resuming a task, leave no trace in the model.
pub mod Sound
pub mod Running
pub mod Reach
pub mod Start
pub mod Restart
use io_tware.Common.{
  ℕ, ◌+◌, Bool, true, false, not, Option, none, some, List, [], ◌∷◌, ◌++◌, map, take, delete_all,
  ltb, leb, ◌==◌, if◌then◌else◌,
}
use io_tware.Sifw.Text.{Text, text_eq}
use io_tware.Smfw.State.{
  Run, ok, undefined, deadlock, ◌>>=◌, State, not_ready, created, stopped, running, initial_onoff,
  is_active, null, TaskInfo, Service, Env, lock, unlock, update_task, p_int8, no_attr,
}
use io_tware.Smfw.Parameters.{max_name_length}
use io_tware.Smfw.Tasks.{run_task}
use io_tware.Smfw.Connect.{set_output_connect_line, task_onoff}

-- `create_micro_service`
unfoldable pub create_micro_service : Env → Service → Run (Bool × Service)
create_micro_service env pmsi = elim pmsi.state [
  | not_ready ↦ do
    held ← lock pmsi
    ok (true, unlock (record (env.create pmsi.ms_id held) { state = created }))
  | _ ↦ ok (false, pmsi)
]

-- The first loop of `run_micro_service`: whether a task failed, and the tasks.
unfoldable pub run_tasks : Env → List TaskInfo → Bool × List TaskInfo
unfolding run_task
run_tasks env [] = (false, [])
run_tasks env (ti ∷ tasks) =
    let (failed, tasks') = run_tasks env tasks in
    let (done, ti') = run_task env ti false in
    if initial_onoff ti.initial_state
    then (if done then (failed, ti' ∷ tasks') else (true, ti' ∷ tasks))
    else (failed, ti ∷ tasks')

-- `stop_task`
unfoldable pub stop_task : Service → Run (Bool × Service)
stop_task pmsi =
    let stop = do
      held ← lock pmsi
      ok (true, unlock (record held { state = stopped; latest_dri = [] }))
    in elim pmsi.state [ running ↦ stop | stopped ↦ stop | _ ↦ ok (false, pmsi) ]

-- The second loop of `run_micro_service`.
abbrev pub resume_state : State → State
resume_state stopped = running
resume_state s = s

abbrev pub resume_one : TaskInfo → TaskInfo
resume_one ti = record ti { state = resume_state ti.state }

-- `run_micro_service`. Its message for a wrong state reads `psi->state` through NULL.
unfoldable pub run_micro_service : Env → Service → Run (Bool × Service)
unfolding run_tasks stop_task set_output_connect_line
run_micro_service env pmsi = elim pmsi.state [
  | created ↦ do
    held ← lock pmsi
    let (failed, tasks) = run_tasks env held.tasks
    let ran = record held { state = running; tasks = tasks }
    let fail = do (_, pmsi') ← stop_task (unlock ran); ok (false, pmsi')
    let connect = do pmsi' ← set_output_connect_line ran; ok (true, unlock pmsi')
    if failed then fail else connect
  | stopped ↦ do
    held ← lock pmsi
    ok (true, unlock (record held { state = running; tasks = map resume_one held.tasks }))
  | _ ↦ undefined
]

-- What `stop_micro_service` and `del_micro_service` clear: of a list, what its 8-bit count says.
unfoldable pub clear : Service → Service
unfolding delete_all
clear pmsi = record pmsi {
  state = not_ready;
  task_link_head = null;
  tasks = delete_all pmsi.tasks;
  output_param = record pmsi.output_param { value = none };
  input_params = delete_all pmsi.input_params;
  connect_lines = delete_all pmsi.connect_lines;
  current_task_link = none;
}

-- The call of `stop_task` at their start.
abbrev pub stop_if_running : Service → Run Service
unfolding stop_task
stop_if_running pmsi = elim pmsi.state [
  | running ↦ do (_, pmsi') ← stop_task pmsi; ok pmsi'
  | _ ↦ ok pmsi
]

-- `stop_micro_service`
unfoldable pub stop_micro_service : Env → Service → Run (Bool × Service)
unfolding clear stop_task
stop_micro_service env pmsi = do
  pmsi' ← stop_if_running pmsi
  held ← lock pmsi'
  ok (true, unlock (record (env.create pmsi.ms_id (clear held)) { state = created }))

-- `del_micro_service`
unfoldable pub del_micro_service : Service → Run (Bool × Service)
unfolding clear stop_task
del_micro_service pmsi = do
  pmsi' ← stop_if_running pmsi
  held ← lock pmsi'
  ok (true, unlock (clear held))

-- What `FN_MAKE_MS` of iw_fw_microservices.h makes.
unfoldable pub make_service : Text → Text → Service
make_service name ms_id = record {
  ms_id = take max_name_length ms_id;
  name = take max_name_length name;
  tasks = [];
  locked = false;
  task_link_head = null;
  current_task_link = none;
  connect_lines = [];
  state = not_ready;
  latest_dri = [];
  input_params = [];
  output_param = record {
    value = none;
    value_size = 0;
    type = p_int8;
    name = [];
    alias = [];
    attr = no_attr;
    last_updated = 0;
  };
}

-- The end of a task's body, in the four base tasks.
unfoldable pub end_task : TaskInfo → TaskInfo
end_task ti = record ti { state = stopped }

-- The operations on a service, and the end of a task's body.
pub data Operation : Type 0 where
  create_op run_op stop_op stop_task_op delete_op : Operation
  switch_op : TaskInfo → Bool → Operation
  end_op : ℕ → Operation

unfoldable pub perform : Env → Operation → Service → Run (Bool × Service)
unfolding create_micro_service run_micro_service stop_micro_service stop_task del_micro_service
    task_onoff update_task end_task
perform env create_op s = create_micro_service env s
perform env run_op s = run_micro_service env s
perform env stop_op s = stop_micro_service env s
perform env stop_task_op s = stop_task s
perform env delete_op s = del_micro_service s
perform env (switch_op ti onoff) s = task_onoff env s ti onoff
perform env (end_op idx) s = ok (true, record s { tasks = update_task s.tasks idx end_task })
