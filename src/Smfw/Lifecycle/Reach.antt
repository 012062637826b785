-- ===== src/Smfw/Lifecycle/Reach.antt =====
-- The services that the operations lead to.
use io_tware.Common.{◌≡◌, refl, subst, Bool}
use io_tware.Sifw.Text.{Text}
use io_tware.Smfw.State.{ok, Service, Env}
use io_tware.Smfw.Connect.Output.{Holds}
use io_tware.Smfw.Lifecycle.{
  end_task, make_service, Operation, create_op, run_op, stop_op, stop_task_op, delete_op, switch_op,
  end_op, perform,
}
use io_tware.Smfw.Lifecycle.Sound.{
  Creates, Sound, SoundResult, stop-Sound, stop_task-Sound, del-Sound,
}
use io_tware.Smfw.Lifecycle.Running.{create-Sound, run-Sound, onoff-Sound, update-Sound}

-- Whatever is done to a sound service, no task waits for a mutex that it holds, and if it ends, the
-- service is sound again.
pub perform-Sound :
    (env : Env) (op : Operation) (s : Service)
    → Creates env
    → Sound s
    → Holds SoundResult (perform env op s)
unfolding perform
perform-Sound env create_op s c h = create-Sound env s c h
perform-Sound env run_op s c h = run-Sound env s h
perform-Sound env stop_op s c h = stop-Sound env s c h
perform-Sound env stop_task_op s c h = stop_task-Sound s h
perform-Sound env delete_op s c h = del-Sound s h
perform-Sound env (switch_op ti onoff) s c h = onoff-Sound env s ti onoff h
perform-Sound env (end_op idx) s c h = update-Sound s idx end_task h

-- One operation that ends, whatever it returns.
pub data Step (env : Env) (s t : Service) : Type 0 where
  step : (op : Operation) (rtn : Bool) → perform env op s ≡ ok (rtn, t) → Step env s t

pub data Reach (env : Env) (s : Service) : Service → Type 0 where
  here : Reach env s s
  next : {t u : Service} → Reach env s t → Step env t u → Reach env s u

Step-Sound : {env : Env} {s t : Service} → Creates env → Sound s → Step env s t → Sound t
Step-Sound {env = env} {s = s} c h (step op rtn e) =
    subst (Holds SoundResult) e (perform-Sound env op s c h)

Reach-keeps_Sound : {env : Env} {s t : Service} → Creates env → Sound s → Reach env s t → Sound t
Reach-keeps_Sound c h here = h
Reach-keeps_Sound c h (next r st) = Step-Sound c (Reach-keeps_Sound c h r) st

make_service-Sound : (name ms_id : Text) → Sound (make_service name ms_id)
unfolding make_service
make_service-Sound name ms_id = record {
  unlocked = refl;
  linked = tt;
  empty = λ e. record { tasks = refl; head = refl; lines = refl; current = refl };
}

-- In whatever order a new service is created, run, stopped, deleted and its tasks switched and
-- ended: its mutex is free between the operations, its current link is one of its links, while it is
-- not ready it has no link and the 8-bit counts of its tasks and lines are 0, and no next operation
-- waits for a mutex that its own task holds.
pub Reach-Sound :
    (env : Env) (name ms_id : Text) (s : Service) (op : Operation)
    → Creates env
    → Reach env (make_service name ms_id) s
    → Sound s × Holds SoundResult (perform env op s)
Reach-Sound env name ms_id s op c r =
    let h = Reach-keeps_Sound c (make_service-Sound name ms_id) r in (h, perform-Sound env op s c h)
