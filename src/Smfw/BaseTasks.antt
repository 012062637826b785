-- ===== src/Smfw/BaseTasks.antt =====
-- The body of base_task_type3, which runs once, since its loop tests loop_condition == FALSE behind
-- the first round.
use io_tware.Common.{
  ℕ, zero, suc, Bool, false, Option, none, some, List, [], ◌∷◌, Bytes, if◌then◌else◌,
}
use io_tware.Smfw.State.{Run, ok, undefined, ◌>>=◌, running, ConnectLine, TaskInfo, task_at}
use io_tware.Smfw.Lifecycle.{end_task}

-- The application's functions by number: whether `before_fn` has data to send, and what they make of
-- the task.
pub record Handlers : Type 0 where
  pub before : ℕ → TaskInfo → Bool × TaskInfo
  pub after : ℕ → TaskInfo → TaskInfo

-- `input_queues[i]`
unfoldable pub queue_at : List (Option ℕ) → ℕ → Run (Option ℕ)
queue_at [] i = undefined
queue_at (q ∷ queues) zero = ok q
queue_at (q ∷ queues) (suc i) = queue_at queues i

-- The queue that a line leads to.
unfoldable pub line_queue : List TaskInfo → ConnectLine → Run (Option ℕ)
unfolding queue_at task_at
line_queue tasks line = elim (task_at tasks line.dest_task) [
  | none ↦ undefined
  | some dest ↦ queue_at dest.input_queues line.input_port_no
]

-- What was given to queues, the latest first.
abbrev pub Sends : Type 0
Sends = List (Option ℕ × Option Bytes)

-- The loop over the output ports.
unfoldable pub send_outputs :
    List TaskInfo → Option Bytes → List (Option ConnectLine) → Sends → Run Sends
unfolding line_queue
send_outputs tasks output [] sends = ok sends
send_outputs tasks output (none ∷ ports) sends = send_outputs tasks output ports sends
send_outputs tasks output (some line ∷ ports) sends = do
  q ← line_queue tasks line
  send_outputs tasks output ports ((q, output) ∷ sends)

abbrev before_of : Handlers → TaskInfo → Bool × TaskInfo
before_of h ti = elim ti.before_fn [ none ↦ (false, ti) | some f ↦ h.before f ti ]

abbrev after_of : Handlers → TaskInfo → TaskInfo
after_of h ti = elim ti.after_fn [ none ↦ ti | some f ↦ h.after f ti ]

-- `base_task_type3` among the tasks of its service.
unfoldable pub base_task_type3_body :
    Handlers → List TaskInfo → TaskInfo → Sends → Run (TaskInfo × Sends)
unfolding send_outputs end_task
base_task_type3_body h tasks ti sends = do
  let (has_data, before) = before_of h (record ti { state = running })
  let all = send_outputs tasks before.output_ptr before.output_ports sends
  sends' ← if has_data then all else ok sends
  ok (end_task (after_of h before), sends')
