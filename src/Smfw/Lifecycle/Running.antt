-- ===== src/Smfw/Lifecycle/Running.antt =====
-- What holds of a service that is run, created, or has its tasks switched.
use io_tware.Common.{
  ℕ, ◌%◌, length, ◌≡◌, refl, sym, ap, ◌∙◌, Bool, true, false, Option, none, some, List, [], ◌∷◌,
  map, subst, if◌then◌else◌, arith,
}
use io_tware.Smfw.State.{
  Run, ok, undefined, ◌>>=◌, State, not_ready, created, stopped, running, null, TaskInfo, Service,
  Env, lock, unlock, update_task,
}
use io_tware.Smfw.Connect.{set_output_connect_line, task_onoff}
use io_tware.Smfw.Connect.Output.{
  Keeps, Holds, Holds-bind, length-update_task, Found, Linked, set_output_connect_line-Holds,
}
use io_tware.Smfw.Tasks.{switch_task}
use io_tware.Smfw.Links.{link_at}
use io_tware.Smfw.Lifecycle.{
  create_micro_service, run_tasks, stop_task, resume_one, run_micro_service,
}
use io_tware.Smfw.Lifecycle.Sound.{
  Creates, Sound, SoundResult, lock-Holds, create-Sound_state, ready-Sound, stop_task-Sound,
}

-- A run from CREATED, behind its loop.
after_tasks : Service → Bool × List TaskInfo → Run (Bool × Service)
after_tasks held (failed, tasks) =
    let ran = record held { state = running; tasks = tasks } in
    let fail = do (_, s') ← stop_task (unlock ran); ok (false, s')
    in let connect = do s' ← set_output_connect_line ran; ok (true, unlock s')
      in if failed then fail else connect

running-Sound : (s : Service) → Linked s → s.state ≡ running → Sound (unlock s)
running-Sound s h e = ready-Sound s (unlock s) refl refl refl (λ n. ground arith) h

after_tasks-Sound :
    (s : Service) (r : Bool × List TaskInfo) → Linked s → Holds SoundResult (after_tasks s r)
unfolding after_tasks
after_tasks-Sound s (true, tasks) h =
    let ran = record s { state = running; tasks = tasks } in
    Holds-bind SoundResult SoundResult (stop_task (unlock ran)) (λ r. ok (false, r.1))
      (stop_task-Sound (unlock ran) (running-Sound ran h refl)) (λ r k. k)
after_tasks-Sound s (false, tasks) h =
    let ran = record s { state = running; tasks = tasks } in
    Holds-bind (λ t. Keeps ran t × Linked t) SoundResult (set_output_connect_line ran)
      (λ t. ok (true, unlock t)) (set_output_connect_line-Holds ran h)
      (λ t k. running-Sound t k.1 k.0.state)

run-state :
    (env : Env) (s : Service) (st : State)
    → Sound s
    → Holds SoundResult (elim st [
      | created ↦ do held ← lock s; after_tasks held (run_tasks env held.tasks)
      | stopped ↦ do
        held ← lock s
        ok (true, unlock (record held { state = running; tasks = map resume_one held.tasks }))
      | _ ↦ undefined
    ])
run-state env s not_ready h = tt
run-state env s running h = tt
run-state env s created h =
    lock-Holds SoundResult s.locked (record s { locked = true })
      (λ held. after_tasks held (run_tasks env held.tasks)) h.unlocked
      (after_tasks-Sound (record s { locked = true }) (run_tasks env s.tasks) h.linked)
run-state env s stopped h =
    lock-Holds SoundResult s.locked (record s { locked = true })
      (λ held.
        ok (true, unlock (record held { state = running; tasks = map resume_one held.tasks })))
      h.unlocked
      (running-Sound (record s { locked = true; state = running; tasks = map resume_one s.tasks })
        h.linked refl)

pub run-Sound : (env : Env) (s : Service) → Sound s → Holds SoundResult (run_micro_service env s)
unfolding run_micro_service after_tasks
run-Sound env s h = run-state env s s.state h

no-way : (w : Option (List Bool)) → Found null w → w ≡ none
unfolding link_at
no-way none f = refl
no-way (some []) f = elim f [ ]
no-way (some (b ∷ way)) f = elim f [ ]

no-current : (s : Service) → s.task_link_head ≡ null → Linked s → s.current_task_link ≡ none
no-current s e h = no-way s.current_task_link (subst (λ l. Found l s.current_task_link) e h)

-- Switching a task leaves the links alone, and a service without tasks as it is.
switched-Sound :
    (s : Service) (idx : ℕ) (r : Bool × Bool × TaskInfo)
    → Sound s
    → Holds SoundResult (
        let s' = record s { tasks = update_task s.tasks idx (λ _. r.2) } in
        let connected = do s'' ← set_output_connect_line s'; ok (r.0, s'')
        in if r.1 then connected else ok (r.0, s))
unfolding update_task
switched-Sound s idx (rtn, false, ti) h = h
switched-Sound s idx (rtn, true, ti) h =
    let s' = record s { tasks = update_task s.tasks idx (λ _. ti) } in
    Holds-bind (λ t. Keeps s' t × Linked t) SoundResult (set_output_connect_line s')
      (λ t. ok (rtn, t)) (set_output_connect_line-Holds s' h.linked)
      (λ t k. record {
        unlocked = k.0.locked ∙ h.unlocked;
        linked = k.1;
        empty = λ e.
            let em = h.empty (sym k.0.state ∙ e) in
            record {
              tasks =
                  ap (λ n. n % 256) (k.0.count ∙ length-update_task s.tasks idx (λ _. ti))
                  ∙ em.tasks;
              head = k.0.head ∙ em.head;
              lines = ap (λ ls. length ls % 256) k.0.lines ∙ em.lines;
              current = no-current t (k.0.head ∙ em.head) k.1;
            };
      })

pub onoff-Sound :
    (env : Env) (s : Service) (ti : TaskInfo) (onoff : Bool)
    → Sound s
    → Holds SoundResult (task_onoff env s ti onoff)
unfolding task_onoff
onoff-Sound env s ti onoff h = switched-Sound s ti.address (switch_task env ti onoff) h

pub create-Sound :
    (env : Env) (s : Service)
    → Creates env
    → Sound s
    → Holds SoundResult (create_micro_service env s)
unfolding create_micro_service
create-Sound env s c h = create-Sound_state env s s.state refl c h

-- Writing through the pointer to a task.
pub update-Sound :
    (s : Service) (idx : ℕ) (f : TaskInfo → TaskInfo)
    → Sound s
    → Sound (record s { tasks = update_task s.tasks idx f })
unfolding update_task
update-Sound s idx f h = record {
  unlocked = h.unlocked;
  linked = h.linked;
  empty = λ e.
      let em = h.empty e in
      record {
        tasks = ap (λ n. n % 256) (length-update_task s.tasks idx f) ∙ em.tasks;
        head = em.head;
        lines = em.lines;
        current = em.current;
      };
}
