-- ===== src/Smfw/Lifecycle/Sound.antt =====
-- What holds of a service between two operations.
use io_tware.Common.{
  ◌≡◌, refl, Bool, true, false, none, [], if◌then◌else◌, node_num, delete_all, node_num-delete_all,
  arith,
}
use io_tware.Sifw.Text.{Text}
use io_tware.Smfw.State.{
  Run, ok, deadlock, ◌>>=◌, State, not_ready, created, stopped, running, null, Service, Env, lock,
  unlock,
}
use io_tware.Smfw.Connect.Output.{Holds, Holds-bind, Linked}
use io_tware.Smfw.Lifecycle.{
  stop_task, clear, stop_if_running, stop_micro_service, del_micro_service,
}

-- What the framework relies on in a service's `create`: it does not choose a link, and leaves the
-- mutex alone.
pub record Creates (env : Env) : Type 0 where
  pub keeps_link :
      (id : Text) (s : Service) → (env.create id s).current_task_link ≡ s.current_task_link
  pub keeps_lock : (id : Text) (s : Service) → (env.create id s).locked ≡ s.locked

-- What a service that is not ready is like: it has no link, and the 8-bit counts of its tasks and
-- lines are 0.
pub record Empty (s : Service) : Type 0 where
  pub tasks : node_num s.tasks ≡ 0
  pub head : s.task_link_head ≡ null
  pub lines : node_num s.connect_lines ≡ 0
  pub current : s.current_task_link ≡ none

-- No mutex is held, the current link is one of the links, and a service that is not ready is
-- empty.
pub record Sound (s : Service) : Type 0 where
  pub unlocked : s.locked ≡ false
  pub linked : Linked s
  pub empty : s.state ≡ not_ready → Empty s

abbrev pub SoundResult : Bool × Service → Type 0
SoundResult r = Sound r.1

created-Sound :
    (env : Env) (id : Text) (s : Service)
    → Creates env
    → s.current_task_link ≡ none
    → Sound (unlock (record (env.create id s) { state = created }))
created-Sound env id s c h = record {
  unlocked = refl;
  linked = rw (c.keeps_link id s, h) tt;
  empty = λ e. absurd (ground arith);
}

pub cleared-Empty : (s : Service) → Empty (unlock (clear s))
unfolding clear delete_all
cleared-Empty s = record {
  tasks = node_num-delete_all s.tasks;
  head = refl;
  lines = node_num-delete_all s.connect_lines;
  current = refl;
}

pub cleared-Sound : (s : Service) → Sound (unlock (clear s))
unfolding clear
cleared-Sound s = record { unlocked = refl; linked = tt; empty = λ e. cleared-Empty s }

-- Taking a mutex that is free.
pub lock-Holds :
    {A : Type 0} (P : A → Type 0) (b : Bool) (s : Service) (f : Service → Run A)
    → b ≡ false
    → Holds P (f s)
    → Holds P ((if b then deadlock else ok s) >>= f)
lock-Holds P true s f e h = absurd (ground arith)
lock-Holds P false s f e h = h

pub create-Sound_state :
    (env : Env) (s : Service) (st : State)
    → s.state ≡ st
    → Creates env
    → Sound s
    → Holds SoundResult (elim st [
      | not_ready ↦ do
        held ← lock s
        ok (true, unlock (record (env.create s.ms_id held) { state = created }))
      | _ ↦ ok (false, s)
    ])
create-Sound_state env s not_ready e c h =
    lock-Holds SoundResult s.locked (record s { locked = true })
      (λ held. ok (true, unlock (record (env.create s.ms_id held) { state = created }))) h.unlocked
      (created-Sound env s.ms_id (record s { locked = true }) c (h.empty e).current)
create-Sound_state env s created e c h = h
create-Sound_state env s stopped e c h = h
create-Sound_state env s running e c h = h

-- A stopped service; a service that is ready owes nothing more.
pub ready-Sound :
    (s : Service) (t : Service)
    → t.locked ≡ false
    → t.task_link_head ≡ s.task_link_head
    → t.current_task_link ≡ s.current_task_link
    → (t.state ≡ not_ready → ⊥)
    → Linked s
    → Sound t
ready-Sound s t l a b n h = record { unlocked = l; linked = rw (a, b) h; empty = λ e. absurd (n e) }

abbrev stopping : Service → Service
stopping s = unlock (record s { state = stopped; latest_dri = [] })

stopping-Sound : (s : Service) → Linked s → Sound (stopping s)
stopping-Sound s h = ready-Sound s (stopping s) refl refl refl (λ e. ground arith) h

stop_task-state :
    (s : Service) (st : State)
    → Sound s
    → Holds SoundResult (elim st [
      | running ↦ do held ← lock s; ok (true, stopping held)
      | stopped ↦ do held ← lock s; ok (true, stopping held)
      | _ ↦ ok (false, s)
    ])
stop_task-state s running h =
    lock-Holds SoundResult s.locked (record s { locked = true }) (λ held. ok (true, stopping held))
      h.unlocked (stopping-Sound (record s { locked = true }) h.linked)
stop_task-state s stopped h =
    lock-Holds SoundResult s.locked (record s { locked = true }) (λ held. ok (true, stopping held))
      h.unlocked (stopping-Sound (record s { locked = true }) h.linked)
stop_task-state s not_ready h = h
stop_task-state s created h = h

pub stop_task-Sound : (s : Service) → Sound s → Holds SoundResult (stop_task s)
unfolding stop_task
stop_task-Sound s h = stop_task-state s s.state h

stop_first-state :
    (s : Service) (st : State)
    → Sound s
    → Holds Sound (elim st [ running ↦ do (_, s') ← stop_task s; ok s' | _ ↦ ok s ])
stop_first-state s running h =
    Holds-bind SoundResult Sound (stop_task s) (λ r. ok r.1) (stop_task-Sound s h) (λ r k. k)
stop_first-state s stopped h = h
stop_first-state s not_ready h = h
stop_first-state s created h = h

pub stop-Sound :
    (env : Env) (s : Service) → Creates env → Sound s → Holds SoundResult (stop_micro_service env s)
unfolding stop_micro_service clear
stop-Sound env s c h =
    Holds-bind Sound SoundResult (stop_if_running s)
      (λ s'. do
        held ← lock s'
        ok (true, unlock (record (env.create s.ms_id (clear held)) { state = created })))
      (stop_first-state s s.state h)
      (λ s' k.
        lock-Holds SoundResult s'.locked (record s' { locked = true })
          (λ held. ok (true, unlock (record (env.create s.ms_id (clear held)) { state = created })))
          k.unlocked (created-Sound env s.ms_id (clear (record s' { locked = true })) c refl))

pub del-Sound : (s : Service) → Sound s → Holds SoundResult (del_micro_service s)
unfolding del_micro_service
del-Sound s h =
    Holds-bind Sound SoundResult (stop_if_running s)
      (λ s'. do held ← lock s'; ok (true, unlock (clear held))) (stop_first-state s s.state h)
      (λ s' k.
        lock-Holds SoundResult s'.locked (record s' { locked = true })
          (λ held. ok (true, unlock (clear held))) k.unlocked
          (cleared-Sound (record s' { locked = true })))
