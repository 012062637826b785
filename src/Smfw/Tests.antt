-- ===== src/Smfw/Tests.antt =====
-- Concrete services of iw_fw_microservices.c.
use io_tware.Common.{
  ℕ, ◌≡◌, refl, Bool, true, false, inl, Option, none, some, List, [], ◌∷◌, Bytes, zeros, arith,
  ◌==◌,
}
use io_tware.Sifw.Text.{Text, text_eq, is_space}
use io_tware.Sifw.Object.{pos, negsuc}
use io_tware.Smfw.State.{
  ok, undefined, not_ready, created, stopped, running, p_int16, read_write, Parameter, ConnectLine,
  null, base_task_type1, TaskInfo, Service, Env, task_at,
}
use io_tware.Smfw.Links.{
  make_task_links, find_last_task_link, add_task_link, make_links_loop, extend_links,
}
use io_tware.Smfw.Links.Tree.{OwnAddress, tree, answers, FixedOn, make_task_links-tree}
use io_tware.Smfw.Values.{
  atol, signed_digits, strip, digits_from, parameter_set_by_string, int_object,
  new_lwm_object_from_type_value,
}
use io_tware.Smfw.Values.RoundTrip.{
  HasValue, new_lwm_object_from_type_value-parameter_set_by_string,
}
use io_tware.Smfw.Tasks.{get_task_info_by_name, find_by_name, run_task}
use io_tware.Smfw.Connect.{
  onoff_test, off_list, set_connect_link, curr_task_state, set_output_connect_line,
}
use io_tware.Smfw.Connect.Output.{Holds}
use io_tware.Smfw.Connect.Settle.{connected, set_output_connect_line-set_connect_link}
use io_tware.Smfw.Lifecycle.{
  run_tasks, run_micro_service, create_micro_service, del_micro_service, make_service, create_op,
  run_op, perform,
}
use io_tware.Smfw.Lifecycle.Sound.{Creates, Sound, SoundResult}
use io_tware.Smfw.Lifecycle.Reach.{step, Reach, here, next, Reach-Sound}
use io_tware.Smfw.Lifecycle.Start.{Starts, delete-create-run}
use io_tware.Smfw.Lifecycle.Restart.{AllResumed, run_micro_service-again, run_micro_service-twice}

abbrev task : ℕ → Text → Bool → Option ℕ → TaskInfo
task idx name offloading init = record {
  name = name;
  task_t = none;
  task_fn = base_task_type1;
  task_idx = idx;
  address = idx;
  init_fn = init;
  before_fn = none;
  after_fn = none;
  input_queues = some 7 ∷ [];
  output_ports = none ∷ [];
  output_ptr = none;
  input_item_size = 4;
  output_item_size = 4;
  user_params = [];
  static_params = [];
  flexible_params = [];
  input_count = 1;
  output_count = 1;
  lwmsg_input_port = none;
  initial_state = created;
  offloading = offloading;
  add_task_list = true;
  state = not_ready;
}

-- A service with a task at the address 0 and another one, and their links.
abbrev with_tasks : TaskInfo → Service → Service
with_tasks ti s =
    let tasks = ti ∷ task 0 (b'a' ∷ []) false none ∷ [] in
    record s { tasks = tasks; task_link_head = make_task_links null tasks }

abbrev test_env : Env
test_env = record {
  create_queue = λ n size. some 7;
  create_task = λ name. some 1;
  init = λ f. f == 1;
  create = λ id s. with_tasks (task 1 (b'b' ∷ []) true none) s;
  tick_count = 0;
  float_bytes = λ s. zeros 4;
  float_parts = λ bs. (pos 0, pos 0);
  double_parts = λ bs. (pos 0, pos 0);
  address = λ s. zeros 4;
}

-- A device whose service has a task that aborts.
abbrev abort_env : Env
abort_env = record test_env { create = λ id s. with_tasks (task 1 (b'b' ∷ []) true (some 1)) s }

abbrev new_service : Service
new_service = make_service (b'm' ∷ []) (b'1' ∷ [])

abbrev first : TaskInfo
first = task 0 (b'a' ∷ []) false none

abbrev second : TaskInfo
second = task 1 (b'b' ∷ []) true none

abbrev ready_service : Service
ready_service = record (with_tasks second new_service) { state = created }

abbrev failing_service : Service
failing_service = record (with_tasks (task 1 (b'b' ∷ []) true (some 1)) new_service) {
  state = created;
}

two_OwnAddress : OwnAddress (second ∷ first ∷ [])
two_OwnAddress = (((λ e. absurd (omega arith)), tt), (tt, tt))

make_task_links-tree_example :
    make_task_links null (second ∷ first ∷ []) ≡ tree (second ∷ first ∷ [])
make_task_links-tree_example = make_task_links-tree second first [] two_OwnAddress

-- The lines for the second task being off.
abbrev alone : List (Option ConnectLine)
alone = some (record { start_task = 0; output_port_no = 0; dest_task = 1; input_port_no = 0 }) ∷ []

abbrev second_off : List TaskInfo
second_off = record second { state = stopped } ∷ record first { state = created } ∷ []

abbrev off_names : List Text
off_names = (b'b' ∷ []) ∷ []

set_output_connect_line-set_connect_link_example :
    (s' : Service) × (set_connect_link ready_service (some alone) (b'o' ∷ []) off_names ≡ ok s')
    × (set_output_connect_line (record s' { tasks = second_off })
        ≡ connected
            (record s' { tasks = second_off })
            (answers (onoff_test (off_list ready_service off_names [])) (second ∷ first ∷ []))
            alone
            (b'o' ∷ []))
unfolding FixedOn onoff_test off_list curr_task_state get_task_info_by_name find_by_name text_eq
    task_at
set_output_connect_line-set_connect_link_example =
    set_output_connect_line-set_connect_link ready_service second first [] second_off alone
      (b'o' ∷ []) off_names refl two_OwnAddress refl (inl refl, tt) (refl, (refl, tt))

test-Creates : Creates test_env
test-Creates = record { keeps_link = λ id s. refl; keeps_lock = λ id s. refl }

created-Reach : Reach test_env new_service ready_service
unfolding perform create_micro_service make_service
created-Reach = next here (step create_op true refl)

Reach-Sound_example :
    Sound ready_service × Holds SoundResult (perform test_env run_op ready_service)
Reach-Sound_example =
    Reach-Sound test_env (b'm' ∷ []) (b'1' ∷ []) ready_service run_op test-Creates created-Reach

test-Starts : Starts test_env
unfolding run_tasks run_task make_task_links add_task_link make_links_loop extend_links
test-Starts = record { tasks = λ s em. refl; lines = λ s em. (tt, (tt, tt, tt), (tt, tt, tt)) }

delete-create-run_example :
    (d c r : Bool × Service) × (del_micro_service ready_service ≡ ok d)
    × (create_micro_service test_env d.1 ≡ ok c)
    × (run_micro_service test_env c.1 ≡ ok r)
    × (r.1.state ≡ running)
unfolding make_service
delete-create-run_example =
    delete-create-run test_env ready_service test-Starts
      (Reach-Sound test_env (b'm' ∷ []) (b'1' ∷ []) ready_service run_op test-Creates
        created-Reach).0
      (record { tasks = omega arith; lines = omega arith })

-- A service whose second task aborts, with a task before and one behind it.
abbrev second_aborts : Service
second_aborts =
    let tasks =
      task 2 (b'c' ∷ []) false none
      ∷ task 1 (b'b' ∷ []) true (some 1)
      ∷ task 0 (b'a' ∷ []) false none
      ∷ [] in
    record failing_service { tasks = tasks }

run_micro_service-again_example :
    (t u : Service) × (run_micro_service abort_env second_aborts ≡ ok (false, t))
    × (run_micro_service abort_env t ≡ ok (true, u))
    × (t.state ≡ stopped)
    × (u.state ≡ running)
    × (t.tasks
        ≡ record (task 2 (b'c' ∷ []) false none) { task_t = some 1; state = created }
          ∷ record (task 1 (b'b' ∷ []) true (some 1)) { state = stopped }
          ∷ task 0 (b'a' ∷ []) false none
          ∷ [])
    × AllResumed t.tasks u.tasks
    × (u.current_task_link ≡ second_aborts.current_task_link)
    × (u.task_link_head ≡ second_aborts.task_link_head)
unfolding run_tasks run_task make_service
run_micro_service-again_example =
    run_micro_service-again abort_env second_aborts (task 2 (b'c' ∷ []) false none ∷ [])
      (task 1 (b'b' ∷ []) true (some 1)) (task 0 (b'a' ∷ []) false none ∷ []) refl refl refl refl
      refl refl refl

abbrev running_service : Service
unfolding make_service
running_service = record {
  ms_id = b'1' ∷ [];
  name = b'm' ∷ [];
  tasks = [];
  locked = false;
  task_link_head = null;
  current_task_link = none;
  connect_lines = [];
  state = running;
  latest_dri = [];
  input_params = [];
  output_param = new_service.output_param;
}

run_micro_service-twice_example : run_micro_service test_env running_service ≡ undefined
unfolding run_micro_service make_service run_tasks set_output_connect_line find_last_task_link
run_micro_service-twice_example =
    run_micro_service-twice test_env (record new_service { state = created }) running_service refl
      tt refl

abbrev level : Parameter
level = record {
  value = some (zeros 2);
  value_size = 2;
  type = p_int16;
  name = b'l' ∷ [];
  alias = b'L' ∷ [];
  attr = read_write;
  last_updated = 0;
}

-- `-300`
new_lwm_object_from_type_value-parameter_set_by_string_example :
    (bytes : Bytes) × (parameter_set_by_string test_env level (b'-' ∷ b'3' ∷ b'0' ∷ b'0' ∷ [])
      ≡ ok (record level { value = some bytes }))
    × (new_lwm_object_from_type_value test_env p_int16 (some bytes) ≡ ok (int_object (negsuc 299)))
unfolding atol signed_digits strip digits_from is_space HasValue
new_lwm_object_from_type_value-parameter_set_by_string_example =
    new_lwm_object_from_type_value-parameter_set_by_string test_env level (zeros 2)
      (b'-' ∷ b'3' ∷ b'0' ∷ b'0' ∷ []) (negsuc 299) refl refl refl (omega arith)
