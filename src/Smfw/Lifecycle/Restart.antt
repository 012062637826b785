-- ===== src/Smfw/Lifecycle/Restart.antt =====
-- Running a service a second time.
use io_tware.Common.{
  ◌≡◌, ◌≢◌, ◌⊎◌, inl, inr, refl, sym, ap, ◌∙◌, subst, Bool, true, false, ◌||◌, ltb, none, List, [],
  ◌∷◌, ◌++◌, map, arith, if◌then◌else◌,
}
use io_tware.Smfw.State.{
  Run, ok, undefined, deadlock, ◌>>=◌, State, not_ready, created, stopped, running, is_active,
  initial_onoff, TaskInfo, Service, Env, lock, unlock,
}
use io_tware.Smfw.Tasks.{init_aborts, has_port, run_task}
use io_tware.Smfw.Connect.{set_output_connect_line}
use io_tware.Smfw.Connect.Output.{Keeps, Holds, Holds-bind, Linked, set_output_connect_line-Holds}
use io_tware.Smfw.Lifecycle.{run_tasks, stop_task, resume_state, resume_one, run_micro_service}

-- Behind the lock of a run from CREATED, in which a task failed.
abbrev failed_run : Service → List TaskInfo → Service
failed_run s tasks = record s { state = stopped; tasks = tasks; latest_dri = []; locked = false }

free :
    {A : Type 0} (b : Bool) (s : Service) (f : Service → Run A)
    → b ≡ false
    → ((if b then deadlock else ok s) >>= f) ≡ f s
free b s f e = rw e refl

after_tasks : Service → Bool × List TaskInfo → Run (Bool × Service)
unfolding stop_task
after_tasks held (failed, tasks) =
    let ran = record held { state = running; tasks = tasks } in
    let fail = do (_, s') ← stop_task (unlock ran); ok (false, s')
    in let connect = do s' ← set_output_connect_line ran; ok (true, unlock s')
      in if failed then fail else connect

after_tasks-failed :
    (s : Service) (r : Bool × List TaskInfo)
    → r.0 ≡ true
    → after_tasks (record s { locked = true }) r ≡ ok (false, failed_run s r.1)
unfolding after_tasks stop_task
after_tasks-failed s (true, tasks) e = refl
after_tasks-failed s (false, tasks) e = absurd (ground arith)

run_in : Env → Service → State → Run (Bool × Service)
run_in env s st = elim st [
  | created ↦ do held ← lock s; after_tasks held (run_tasks env held.tasks)
  | stopped ↦ do
    held ← lock s
    ok (true, unlock (record held { state = running; tasks = map resume_one held.tasks }))
  | _ ↦ undefined
]

run_in-state : (env : Env) (s : Service) → run_micro_service env s ≡ run_in env s s.state
unfolding run_micro_service run_in after_tasks
run_in-state env s = refl

-- A task that did not start.
abbrev pub dead : TaskInfo → TaskInfo
dead ti = record ti { task_t = none; state = stopped }

-- A task that is not active and does not start is left STOPPED and without a kernel task.
run_task-failed :
    (env : Env) (ti : TaskInfo)
    → is_active ti.state ≡ false
    → (run_task env ti false).0 ≡ false
    → run_task env ti false ≡ (false, dead ti)
unfolding run_task
run_task-failed env ti idle e =
    by_tests (is_active ti.state) (init_aborts env ti.init_fn)
      (ltb 0 ti.input_item_size || has_port ti.lwmsg_input_port) idle e
  where
    outcome : Bool → Bool → Bool → Bool × TaskInfo
    outcome a b c =
        if a
        then (false, ti)
        else if b
        then (false, dead ti)
        else if c
        then (true, record ti { task_t = env.create_task ti.name; state = created })
        else (false, dead ti)

    by_tests :
        (a b c : Bool) → a ≡ false → (outcome a b c).0 ≡ false → outcome a b c ≡ (false, dead ti)
    by_tests true b c i f = absurd (ground arith)
    by_tests false true c i f = refl
    by_tests false false true i f = absurd (ground arith)
    by_tests false false false i f = refl

-- A round of the loop over the tasks.
abbrev round :
    Bool → Bool → TaskInfo → TaskInfo → Bool × List TaskInfo → List TaskInfo → Bool × List TaskInfo
round on done b b' r tasks =
    if on then (if done then (r.0, b' ∷ r.1) else (true, b' ∷ tasks)) else (r.0, b ∷ r.1)

round-append :
    (on done : Bool) (b b' : TaskInfo) (r r' : Bool × List TaskInfo) (bs bs' xs : List TaskInfo)
    → (r.0 ≡ false → r' ≡ (true, r.1 ++ xs))
    → (round on done b b' r bs).0 ≡ false
    → round on done b b' r' bs' ≡ (true, (round on done b b' r bs).1 ++ xs)
round-append true true b b' r r' bs bs' xs k e = rw (k e) refl
round-append true false b b' r r' bs bs' xs k e = absurd (ground arith)
round-append false done b b' r r' bs bs' xs k e = rw (k e) refl

-- The loop ends at the first task that does not start.
run_tasks-append :
    (env : Env) (before : List TaskInfo) (ti : TaskInfo) (after : List TaskInfo)
    → (run_tasks env before).0 ≡ false
    → initial_onoff ti.initial_state ≡ true
    → run_task env ti false ≡ (false, dead ti)
    → run_tasks env (before ++ (ti ∷ after)) ≡ (true, (run_tasks env before).1 ++ (dead ti ∷ after))
unfolding run_tasks
run_tasks-append env [] ti after h on e = rw (on, e) refl
run_tasks-append env (b ∷ before) ti after h on e =
    let done = run_task env b false in
    round-append (initial_onoff b.initial_state) done.0 b done.1 (run_tasks env before)
      (run_tasks env (before ++ (ti ∷ after))) before (before ++ (ti ∷ after)) (dead ti ∷ after)
      (λ g. run_tasks-append env before ti after g on e) h

-- What a second run does to a task: one that is STOPPED is called RUNNING, and nothing else changes.
abbrev pub Resumed : TaskInfo → TaskInfo → Type 0
Resumed t u =
    ((t.state ≡ stopped) × (u ≡ record t { state = running })) ⊎ ((t.state ≢ stopped) × (u ≡ t))

abbrev pub AllResumed : List TaskInfo → List TaskInfo → Type 0
AllResumed [] [] = Unit
AllResumed [] (u ∷ us) = ⊥
AllResumed (t ∷ ts) [] = ⊥
AllResumed (t ∷ ts) (u ∷ us) = Resumed t u × AllResumed ts us

resume_one-Resumed : (t : TaskInfo) → Resumed t (resume_one t)
resume_one-Resumed t = by_state t.state refl
  where
    by_state : (st : State) → t.state ≡ st → Resumed t (record t { state = resume_state st })
    by_state stopped e = inl (e, refl)
    by_state not_ready e = inr (λ f. ground arith, ap (λ st. record t { state = st }) (sym e))
    by_state created e = inr (λ f. ground arith, ap (λ st. record t { state = st }) (sym e))
    by_state running e = inr (λ f. ground arith, ap (λ st. record t { state = st }) (sym e))

map-AllResumed : (ts : List TaskInfo) → AllResumed ts (map resume_one ts)
map-AllResumed [] = tt
map-AllResumed (t ∷ ts) = (resume_one-Resumed t, map-AllResumed ts)

-- A run from CREATED in which a task that is to be on and is not active does not start, the first
-- one to fail, returns FALSE and leaves the service STOPPED; the task is STOPPED and has no kernel
-- task then, and those behind it are as they were. A second run returns TRUE and leaves the service
-- RUNNING. It changes nothing in the tasks but that those that are STOPPED, also the one that did
-- not start, are called RUNNING, and it connects no lines.
pub run_micro_service-again :
    (env : Env) (s : Service) (before : List TaskInfo) (ti : TaskInfo) (after : List TaskInfo)
    → s.state ≡ created
    → s.locked ≡ false
    → s.tasks ≡ before ++ (ti ∷ after)
    → (run_tasks env before).0 ≡ false
    → initial_onoff ti.initial_state ≡ true
    → is_active ti.state ≡ false
    → (run_task env ti false).0 ≡ false
    → (t u : Service) × (run_micro_service env s ≡ ok (false, t))
      × (run_micro_service env t ≡ ok (true, u))
      × (t.state ≡ stopped)
      × (u.state ≡ running)
      × (t.tasks ≡ (run_tasks env before).1 ++ (dead ti ∷ after))
      × AllResumed t.tasks u.tasks
      × (u.current_task_link ≡ s.current_task_link)
      × (u.task_link_head ≡ s.task_link_head)
unfolding run_in
run_micro_service-again env s before ti after e l k h on idle f =
    let t = failed_run s ((run_tasks env before).1 ++ (dead ti ∷ after)) in
    let ran : run_tasks env s.tasks ≡ (true, t.tasks) =
      ap (run_tasks env) k
      ∙ run_tasks-append env before ti after h on (run_task-failed env ti idle f) in
    (
      t,
      record t { state = running; tasks = map resume_one t.tasks },
      run_in-state env s
          ∙ ap (run_in env s) e
          ∙ free s.locked (record s { locked = true })
              (λ held. after_tasks held (run_tasks env held.tasks)) l
          ∙ ap (after_tasks (record s { locked = true })) ran
          ∙ after_tasks-failed s (true, t.tasks) refl,
      run_in-state env t,
      refl,
      refl,
      refl,
      map-AllResumed t.tasks,
      refl,
      refl,
    )

-- A run that returns TRUE leaves the service RUNNING.
abbrev Runs : Bool × Service → Type 0
Runs r = r.0 ≡ true → r.1.state ≡ running

after_tasks-Runs :
    (s : Service) (r : Bool × List TaskInfo) → Linked s → Holds Runs (after_tasks s r)
unfolding after_tasks stop_task
after_tasks-Runs s (true, tasks) h = λ e. absurd (ground arith)
after_tasks-Runs s (false, tasks) h =
    let ran = record s { state = running; tasks = tasks } in
    Holds-bind (λ t. Keeps ran t × Linked t) Runs (set_output_connect_line ran)
      (λ t. ok (true, unlock t)) (set_output_connect_line-Holds ran h) (λ t k e. k.0.state)

run-Runs :
    (env : Env) (s : Service) (st : State)
    → s.locked ≡ false
    → Linked s
    → Holds Runs (run_in env s st)
unfolding run_in
run-Runs env s created l h =
    subst (Holds Runs)
      (sym (
        free s.locked (record s { locked = true })
          (λ held. after_tasks held (run_tasks env held.tasks)) l))
      (after_tasks-Runs (record s { locked = true }) (run_tasks env s.tasks) h)
run-Runs env s stopped l h =
    subst (Holds Runs)
      (sym (
        free s.locked (record s { locked = true })
          (λ held.
            ok (true, unlock (record held { state = running; tasks = map resume_one held.tasks })))
          l))
      (λ e. refl)
run-Runs env s running l h = tt
run-Runs env s not_ready l h = tt

-- Where a run of a service whose mutex is free and whose current link is one of its links returns
-- TRUE, a second run reads a task through NULL: its message about the wrong state names a task that
-- it has not looked for.
pub run_micro_service-twice :
    (env : Env) (s t : Service)
    → s.locked ≡ false
    → Linked s
    → run_micro_service env s ≡ ok (true, t)
    → run_micro_service env t ≡ undefined
unfolding run_in
run_micro_service-twice env s t l h e =
    run_in-state env t
    ∙ ap (run_in env t)
        (subst (Holds Runs) (sym (run_in-state env s) ∙ e) (run-Runs env s s.state l h) refl)
