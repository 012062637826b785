-- ===== src/Smfw/Lifecycle/Start.antt =====
-- Ways to a running service.
use io_tware.Common.{
  ◌≡◌, refl, ap, ◌∙◌, ◌<◌, Bool, true, false, none, List, [], map, length, delete_all,
  delete_all-few, arith, if◌then◌else◌,
}
use io_tware.Smfw.State.{
  Run, ok, undefined, deadlock, ◌>>=◌, State, not_ready, created, stopped, running, null, TaskInfo,
  Service, Env, lock, unlock,
}
use io_tware.Smfw.Connect.{set_output_connect_line}
use io_tware.Smfw.Connect.Ends.{AllSet, Returns, Returns-bind, set_output_connect_line-Returns}
use io_tware.Smfw.Lifecycle.{
  run_tasks, stop_task, resume_one, clear, stop_if_running, create_micro_service, run_micro_service,
  del_micro_service,
}
use io_tware.Smfw.Lifecycle.Sound.{Empty, Sound, cleared-Empty}

-- A service that has nothing.
pub record Bare (s : Service) : Type 0 where
  pub tasks : s.tasks ≡ []
  pub head : s.task_link_head ≡ null
  pub lines : s.connect_lines ≡ []
  pub current : s.current_task_link ≡ none

-- What starting a service takes: all the tasks that its `create` makes start, and no line is
-- missing where it sets a link, in a service without tasks, lines and links.
pub record Starts (env : Env) : Type 0 where
  pub tasks : (s : Service) → Bare s → (run_tasks env (env.create s.ms_id s).tasks).0 ≡ false
  pub lines : (s : Service) → Bare s → AllSet (env.create s.ms_id s).task_link_head

-- Fewer nodes than the 8-bit count can count.
pub record Few (s : Service) : Type 0 where
  pub tasks : length s.tasks < 256
  pub lines : length s.connect_lines < 256

lock-Returns :
    {A : Type 0} (P : A → Type 0) (b : Bool) (s : Service) (f : Service → Run A)
    → b ≡ false
    → Returns P (f s)
    → Returns P ((if b then deadlock else ok s) >>= f)
lock-Returns P true s f e h = absurd (ground arith)
lock-Returns P false s f e h = h

-- A service whose mutex is free, with the tasks and lines of another.
abbrev FreeAs : Service → Service → Type 0
FreeAs s t = (t.locked ≡ false) × (t.tasks ≡ s.tasks) × (t.connect_lines ≡ s.connect_lines)

abbrev Free : Service → Bool × Service → Type 0
Free s r = FreeAs s r.1

abbrev stopping : Service → Service
stopping s = unlock (record s { state = stopped; latest_dri = [] })

-- `stop_task` on a running service ends, leaves the mutex free, and keeps tasks and lines.
stop_task-Returns :
    (s : Service) → s.state ≡ running → s.locked ≡ false → Returns (Free s) (stop_task s)
unfolding stop_task
stop_task-Returns s e l = by_state s.state e
  where
    by_state :
        (st : State)
        → st ≡ running
        → Returns (Free s) (elim st [
          | running ↦ do held ← lock s; ok (true, stopping held)
          | stopped ↦ do held ← lock s; ok (true, stopping held)
          | _ ↦ ok (false, s)
        ])
    by_state running e' =
        lock-Returns (Free s) s.locked (record s { locked = true })
          (λ held. ok (true, stopping held)) l (refl, refl, refl)
    by_state not_ready e' = absurd (ground arith)
    by_state created e' = absurd (ground arith)
    by_state stopped e' = absurd (ground arith)

stop_first-Returns :
    (s : Service) (st : State)
    → s.state ≡ st
    → s.locked ≡ false
    → Returns (FreeAs s) (elim st [ running ↦ do (_, s') ← stop_task s; ok s' | _ ↦ ok s ])
stop_first-Returns s running e l =
    Returns-bind (Free s) (FreeAs s) (stop_task s) (λ r. ok r.1) (stop_task-Returns s e l)
      (λ r k. k)
stop_first-Returns s not_ready e l = (l, refl, refl)
stop_first-Returns s created e l = (l, refl, refl)
stop_first-Returns s stopped e l = (l, refl, refl)

-- What is left of a service that is deleted.
abbrev pub Deleted : Service → Bool × Service → Type 0
Deleted s r =
    (r.1.state ≡ not_ready)
    × (r.1.locked ≡ false)
    × Empty r.1
    × (r.1.tasks ≡ delete_all s.tasks)
    × (r.1.connect_lines ≡ delete_all s.connect_lines)

pub del-Returns : (s : Service) → s.locked ≡ false → Returns (Deleted s) (del_micro_service s)
unfolding del_micro_service clear
del-Returns s l =
    Returns-bind (FreeAs s) (Deleted s) (stop_if_running s)
      (λ s'. do held ← lock s'; ok (true, unlock (clear held)))
      (stop_first-Returns s s.state refl l)
      (λ t k.
        lock-Returns (Deleted s) t.locked (record t { locked = true })
          (λ held. ok (true, unlock (clear held))) k.0
          (
            refl,
            refl,
            cleared-Empty (record t { locked = true }),
            ap delete_all k.1,
            ap delete_all k.2,
          ))

Deleted-Bare : (s : Service) (r : Bool × Service) → Few s → Deleted s r → Bare r.1
Deleted-Bare s r few (e, l, em, tasks, lines) = record {
  tasks = tasks ∙ delete_all-few s.tasks few.tasks;
  head = em.head;
  lines = lines ∙ delete_all-few s.connect_lines few.lines;
  current = em.current;
}

-- A service whose tasks all start.
abbrev Startable : Env → Bool × Service → Type 0
Startable env r =
    (r.1.state ≡ created)
    × (r.1.locked ≡ false)
    × ((run_tasks env r.1.tasks).0 ≡ false)
    × AllSet r.1.task_link_head

create-Returns :
    (env : Env) (s : Service)
    → Starts env
    → s.state ≡ not_ready
    → s.locked ≡ false
    → Bare s
    → Returns (Startable env) (create_micro_service env s)
unfolding create_micro_service
create-Returns env s h e l em = by_state s.state e
  where
    by_state :
        (st : State)
        → st ≡ not_ready
        → Returns (Startable env) (elim st [
          | not_ready ↦ do
            held ← lock s
            ok (true, unlock (record (env.create s.ms_id held) { state = created }))
          | _ ↦ ok (false, s)
        ])
    by_state not_ready e' =
        let held = record s { locked = true } in
        let em' : Bare held = record {
          tasks = em.tasks;
          head = em.head;
          lines = em.lines;
          current = em.current;
        } in
        lock-Returns (Startable env) s.locked held
          (λ held. ok (true, unlock (record (env.create s.ms_id held) { state = created }))) l
          (refl, refl, h.tasks held em', h.lines held em')
    by_state running e' = absurd (ground arith)
    by_state created e' = absurd (ground arith)
    by_state stopped e' = absurd (ground arith)

abbrev Runs : Bool × Service → Type 0
Runs r = r.1.state ≡ running

behind_tasks :
    (s : Service) (r : Bool × List TaskInfo)
    → r.0 ≡ false
    → AllSet s.task_link_head
    → Returns Runs (
        let ran = record s { state = running; tasks = r.1 } in
        let fail = do (_, s') ← stop_task (unlock ran); ok (false, s')
        in let connect = do s' ← set_output_connect_line ran; ok (true, unlock s')
          in if r.0 then fail else connect)
behind_tasks s (true, tasks) e h = absurd (ground arith)
behind_tasks s (false, tasks) e h =
    let ran = record s { state = running; tasks = tasks } in
    Returns-bind (λ t. t.state ≡ running) Runs (set_output_connect_line ran)
      (λ t. ok (true, unlock t)) (set_output_connect_line-Returns ran h) (λ t k. k)

run-Returns :
    (env : Env) (s : Service) → Startable env (true, s) → Returns Runs (run_micro_service env s)
unfolding run_micro_service
run-Returns env s (e, l, h, a) = by_state s.state e
  where
    by_state :
        (st : State)
        → st ≡ created
        → Returns Runs (elim st [
          | created ↦ do
            held ← lock s
            let (failed, tasks) = run_tasks env held.tasks
            let ran = record held { state = running; tasks = tasks }
            let fail = do (_, pmsi') ← stop_task (unlock ran); ok (false, pmsi')
            let connect = do pmsi' ← set_output_connect_line ran; ok (true, unlock pmsi')
            if failed then fail else connect
          | stopped ↦ do
            held ← lock s
            ok (true, unlock (record held { state = running; tasks = map resume_one held.tasks }))
          | _ ↦ undefined
        ])
    by_state created e' =
        lock-Returns Runs s.locked (record s { locked = true })
          (λ held.
            let r = run_tasks env held.tasks in
            let ran = record held { state = running; tasks = r.1 } in
            let fail = do (_, pmsi') ← stop_task (unlock ran); ok (false, pmsi')
            in let connect = do pmsi' ← set_output_connect_line ran; ok (true, unlock pmsi')
              in if r.0 then fail else connect)
          l (behind_tasks (record s { locked = true }) (run_tasks env s.tasks) h a)
    by_state running e' = absurd (ground arith)
    by_state not_ready e' = absurd (ground arith)
    by_state stopped e' = absurd (ground arith)

returned : {A : Type 0} (P : A → Type 0) (r : Run A) → Returns P r → (a : A) × (r ≡ ok a) × P a
returned P (ok a) h = (a, refl, h)
returned P undefined h = elim h [ ]
returned P deadlock h = elim h [ ]

-- A sound service with fewer than 256 tasks and lines, of any state, can be deleted, created and run,
-- one after the other, and is RUNNING then, where all tasks that `create` makes in a service that
-- has nothing start and no line is missing.
pub delete-create-run :
    (env : Env) (s : Service)
    → Starts env
    → Sound s
    → Few s
    → (d c r : Bool × Service) × (del_micro_service s ≡ ok d)
      × (create_micro_service env d.1 ≡ ok c)
      × (run_micro_service env c.1 ≡ ok r)
      × (r.1.state ≡ running)
delete-create-run env s h k few =
    let (d, ed, pd) = returned (Deleted s) (del_micro_service s) (del-Returns s k.unlocked) in
    let (c, ec, pc) =
      returned (Startable env) (create_micro_service env d.1)
        (create-Returns env d.1 h pd.0 pd.1 (Deleted-Bare s d few pd)) in
    let (r, er, pr) = returned Runs (run_micro_service env c.1) (run-Returns env c.1 pc) in
    (d, c, r, ed, ec, er, pr)
