-- ===== src/Smfw/Connect.antt =====
-- Connect lines of iw_fw_microservices.c, and task_onoff.
pub mod Output
pub mod Ends
pub mod Settle
use io_tware.Common.{
  ℕ, ◌+◌, ◌%◌, ◌^◌, Bool, true, false, not, Option, none, some, List, [], ◌∷◌, ltb, leb, ◌==◌,
  if◌then◌else◌, length, set,
}
use io_tware.Sifw.Text.{Text}
use io_tware.Smfw.State.{
  Run, ok, undefined, ◌>>=◌, is_active, p_unknown, ConnectLine, TaskLink, null, link, TaskInfo,
  Service, Env, update_task, task_at,
}
use io_tware.Smfw.Links.{
  make_task_links, find_last_task_link, link_at, set_link_at, link_lines, link_name,
}
use io_tware.Smfw.Parameters.{set_output_param}
use io_tware.Smfw.Tasks.{get_task_info_by_name, switch_task}

-- `add_connect_line`: the line, `none` for NULL, and the service. Ports have 32 bits, so that the
-- last one passes the tests.
unfoldable pub add_connect_line : Service → Text → ℕ → Text → ℕ → Option ConnectLine × Service
add_connect_line pmsi start_name output_port_no dest_name input_port_no =
    elim (get_task_info_by_name pmsi start_name) [
      | none ↦ (none, pmsi)
      | some start ↦ elim (get_task_info_by_name pmsi dest_name) [
        | none ↦ (none, pmsi)
        | some dest ↦
            let line : ConnectLine = record {
              start_task = start.address;
              output_port_no = output_port_no;
              dest_task = dest.address;
              input_port_no = input_port_no;
            } in
            if ltb start.output_count ((output_port_no + 1) % 2 ^ 32)
            then (none, pmsi)
            else if ltb dest.input_count ((input_port_no + 1) % 2 ^ 32)
            then (none, pmsi)
            else (some line, record pmsi { connect_lines = line ∷ pmsi.connect_lines })
      ]
    ]

-- `make_connect_link_list`, whose list has its last argument first.
unfoldable pub make_connect_link_list :
    List (Option ConnectLine) → List (Option ConnectLine) → List (Option ConnectLine)
make_connect_link_list [] rtn = rtn
make_connect_link_list (line ∷ lines) rtn = make_connect_link_list lines (line ∷ rtn)

-- `_onoff_test` of the tasks that are off.
unfoldable pub onoff_test : List ℕ → Option ℕ → Bool
onoff_test off_tasks none = true
onoff_test [] (some ti) = true
onoff_test (t ∷ off_tasks) (some ti) = if t == ti then false else onoff_test off_tasks (some ti)

-- The first loop of `set_connect_link`: names of tasks that are not there are passed over.
unfoldable pub off_list : Service → List Text → List ℕ → List ℕ
off_list pmsi [] off_tasks = off_tasks
off_list pmsi (name ∷ names) off_tasks = elim (get_task_info_by_name pmsi name) [
  | none ↦ off_list pmsi names off_tasks
  | some ti ↦ off_list pmsi names (ti.address ∷ off_tasks)
]

-- `set_connect_link`. `output_param_name` has room for 29 characters.
unfoldable pub set_connect_link :
    Service → Option (List (Option ConnectLine)) → Text → List Text → Run Service
unfolding off_list
set_connect_link pmsi clinks oname names =
    elim (find_last_task_link pmsi.task_link_head (onoff_test (off_list pmsi names []))) [
      | none ↦ ok pmsi
      | some way ↦
          if ltb (length oname) 30
          then ok
              (record pmsi { task_link_head = set_link_at pmsi.task_link_head way clinks oname })
          else undefined
    ]

abbrev pub active_in : Option TaskInfo → Bool
active_in none = false
active_in (some ti) = is_active ti.state

-- `_curr_task_state`
unfoldable pub curr_task_state : List TaskInfo → Option ℕ → Bool
unfolding task_at
curr_task_state tasks none = false
curr_task_state tasks (some ti) = active_in (task_at tasks ti)

-- `cline->start_task->output_ports[cline->output_port_no] = cline`, where the port is there.
unfoldable pub connect_port : ConnectLine → TaskInfo → TaskInfo
connect_port line ti =
    if ltb line.output_port_no ti.output_count
    then record ti { output_ports = set ti.output_ports line.output_port_no (some line) }
    else ti

-- The loop of `set_output_connect_line`; a line is read through its pointer.
unfoldable pub connect_all : List (Option ConnectLine) → List TaskInfo → Run (List TaskInfo)
unfolding update_task connect_port
connect_all [] tasks = ok tasks
connect_all (none ∷ lines) tasks = undefined
connect_all (some line ∷ lines) tasks =
    connect_all lines (update_task tasks line.start_task (connect_port line))

-- The rest of `set_output_connect_line`, from the link that was found on.
unfoldable pub connect_link : Service → List Bool → Run Service
unfolding set_output_param connect_all
connect_link pmsi way =
    let found = link_at pmsi.task_link_head way in
    let named =
      set_output_param (record pmsi { current_task_link = some way }) p_unknown 0
        (link_name found) in
    elim (link_lines found) [
      | none ↦ ok named
      | some lines ↦ do tasks ← connect_all lines pmsi.tasks; ok (record named { tasks = tasks })
    ]

-- `set_output_connect_line`
unfoldable pub set_output_connect_line : Service → Run Service
unfolding connect_link curr_task_state
set_output_connect_line pmsi =
    elim (find_last_task_link pmsi.task_link_head (curr_task_state pmsi.tasks)) [
      | none ↦ ok pmsi
      | some way ↦ connect_link pmsi way
    ]

-- `task_onoff` of a task of the service, by its address.
unfoldable pub task_onoff : Env → Service → TaskInfo → Bool → Run (Bool × Service)
unfolding switch_task update_task set_output_connect_line
task_onoff env pmsi ti onoff =
    let (rtn, connect, ti') = switch_task env ti onoff in
    let pmsi' = record pmsi { tasks = update_task pmsi.tasks ti.address (λ _. ti') } in
    let connected = do pmsi'' ← set_output_connect_line pmsi'; ok (rtn, pmsi'')
    in if connect then connected else ok (rtn, pmsi)
