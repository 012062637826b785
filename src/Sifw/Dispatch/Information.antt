-- ===== src/Sifw/Dispatch/Information.antt =====
-- What asking for information does to the services.
use io_tware.Common.{
  ◌≡◌, refl, Bool, true, false, ◌⊎◌, inl, inr, List, [], ◌∷◌, if◌then◌else◌, delete_all, arith, ◌∙◌,
}
use io_tware.Sifw.Object.{Items}
use io_tware.Sifw.Dispatch.Unblocked.{Unblocked-bind}
use io_tware.Sifw.Dispatch.Sound.{AllSound}
use io_tware.Sifw.Dispatch.Sound.Reports.{Returns-Holds, tasks_information-Unblocked}
use io_tware.Smfw.State.{ok, ◌>>=◌, State, not_ready, created, stopped, running, Service, Env}
use io_tware.Smfw.Connect.Output.{Holds, Holds-bind}
use io_tware.Smfw.Tasks.{is_running}
use io_tware.Smfw.Lifecycle.{del_micro_service}
use io_tware.Smfw.Lifecycle.Sound.{Creates, Empty, Sound}
use io_tware.Smfw.Lifecycle.Start.{Deleted, del-Returns}
use io_tware.Smfw.Registry.{prepare, put_back, delete, tasks_information, services_tasks}

-- A service, and what is left of it: a running one as it was, of any other one what the deletion
-- leaves of the tasks and lines that `create` gave it.
abbrev pub Left : Env → Service → Service → Type 0
Left env s t =
    ((s.state ≡ running) × (t ≡ s))
    ⊎ ((t.state ≡ not_ready)
        × Empty t
        × (t.tasks ≡ delete_all (env.create s.ms_id s).tasks)
        × (t.connect_lines ≡ delete_all (env.create s.ms_id s).connect_lines))

abbrev pub AllLeft : Env → List Service → List Service → Type 0
AllLeft env [] [] = Unit
AllLeft env [] (t ∷ ts) = ⊥
AllLeft env (s ∷ services) [] = ⊥
AllLeft env (s ∷ services) (t ∷ ts) = Left env s t × AllLeft env services ts

is_running-running : (st : State) → is_running st ≡ true → st ≡ running
is_running-running not_ready e = absurd (ground arith)
is_running-running created e = absurd (ground arith)
is_running-running stopped e = absurd (ground arith)
is_running-running running e = refl

put_back-if :
    (b : Bool) (env : Env) (s : Service)
    → (b ≡ true → s.state ≡ running)
    → (env.create s.ms_id s).locked ≡ false
    → Holds (Left env s) (
        let prepared = if b then s else env.create s.ms_id s in
        let deleted = delete prepared in if b then ok prepared else deleted)
put_back-if true env s h l = inl (h refl, refl)
put_back-if false env s h l =
    let made = env.create s.ms_id s in
    Holds-bind (Deleted made) (Left env s) (del_micro_service made) (λ r. ok r.1)
      (Returns-Holds (Deleted made) (Deleted made) (del_micro_service made) (del-Returns made l)
        (λ r k. k))
      (λ r (e, _, em, tasks, lines). inr (e, em, tasks, lines))

put_back-Left :
    (env : Env) (s : Service)
    → Creates env
    → Sound s
    → Holds (Left env s) (put_back s (prepare env s))
unfolding prepare put_back
put_back-Left env s c h =
    put_back-if (is_running s.state) env s (is_running-running s.state)
      (c.keeps_lock s.ms_id s ∙ h.unlocked)

abbrev ItemsLeft : Env → List Service → Items × List Service → Type 0
ItemsLeft env services r = AllLeft env services r.1

-- Collecting the information about the tasks of sound services leaves those that are RUNNING as they
-- were. Every other one, also one that was CREATED or STOPPED, is NOT_READY then and without links,
-- and has of the tasks and lines that `create` makes of it what the loop with the 8-bit count leaves.
pub services_tasks-AllLeft :
    (env : Env) (services : List Service) (tif : Items)
    → Creates env
    → AllSound services
    → Holds (λ r. AllLeft env services r.1) (services_tasks env services tif)
unfolding services_tasks
services_tasks-AllLeft env [] tif c h = tt
services_tasks-AllLeft env (s ∷ services) tif c h =
    let prepared = prepare env s in
    let last = λ (left : Service) (r : Items × List Service). ok (r.0, left ∷ r.1) in
    let P = ItemsLeft env (s ∷ services) in
    Unblocked-bind P (tasks_information env prepared.tasks tif)
      (λ tif'. put_back s prepared >>= (λ left. services_tasks env services tif' >>= last left))
      (tasks_information-Unblocked env prepared.tasks tif)
      (λ tif'.
        Holds-bind (Left env s) P (put_back s prepared)
          (λ left. services_tasks env services tif' >>= last left) (put_back-Left env s c h.0)
          (λ left k.
            Holds-bind (ItemsLeft env services) P (services_tasks env services tif') (last left)
              (services_tasks-AllLeft env services tif' c h.1) (λ r g. (k, g))))
