-- ===== src/Sifw/Dispatch/Sound.antt =====
-- The requests that change services, by the services that they leave.
pub mod Loops
pub mod Values
pub mod Output
pub mod Reports
pub mod Messages
use io_tware.Common.{ℕ, Bool, true, false, Option, none, some, List, [], ◌∷◌, if◌then◌else◌, All}
use io_tware.Sifw.Text.{Text, text_eq}
use io_tware.Sifw.Key
use io_tware.Sifw.Object.{Items, no_items, item, LwMessage}
use io_tware.Sifw.Build.{string_value}
use io_tware.Sifw.Dispatch.Store.{Device, body_array}
use io_tware.Sifw.Dispatch.Services.{operation_of, operate, code_of, operate_all, lwmsg_operation}
use io_tware.Sifw.Dispatch.Unblocked.{Holds-option}
use io_tware.Smfw.State.{Run, ok, ◌>>=◌, Service, Env}
use io_tware.Smfw.Connect.Output.{Holds, Holds-bind}
use io_tware.Smfw.Lifecycle.{Operation}
use io_tware.Smfw.Lifecycle.Sound.{Creates, Sound, SoundResult}
use io_tware.Smfw.Lifecycle.Reach.{perform-Sound}
use io_tware.Smfw.Registry.{find_service, get_micro_service_info_by_id, put_service}

abbrev pub AllSound : List Service → Type 0
AllSound services = All Sound services

abbrev pub SoundServices : ℕ × List Service → Type 0
SoundServices r = AllSound r.1

abbrev pub SoundDevice : ℕ × Device → Type 0
SoundDevice r = AllSound r.1.services

abbrev pub CodeSound : ℕ × Service → Type 0
CodeSound r = Sound r.1

put-if :
    (b : Bool) (xs ys : List Service) → AllSound xs → AllSound ys → AllSound (if b then xs else ys)
put-if true xs ys h k = h
put-if false xs ys h k = k

pub put-Sound :
    (services : List Service) (id : Text) (new : Service)
    → AllSound services
    → Sound new
    → AllSound (put_service services id new)
unfolding put_service
put-Sound [] id new h k = tt
put-Sound (s ∷ services) id new h k =
    put-if (text_eq id s.ms_id) (new ∷ services) (s ∷ put_service services id new) (k, h.1)
      (h.0, put-Sound services id new h.1 k)

abbrev pub FoundSound : Option Service → Type 0
FoundSound none = Unit
FoundSound (some s) = Sound s

found-if :
    (b : Bool) (x y : Option Service)
    → FoundSound x
    → FoundSound y
    → FoundSound (if b then x else y)
found-if true x y h k = h
found-if false x y h k = k

find-Sound :
    (services : List Service) (id : Text)
    → AllSound services
    → FoundSound (find_service services id)
unfolding find_service
find-Sound [] id h = tt
find-Sound (s ∷ services) id h =
    found-if (text_eq id s.ms_id) (some s) (find_service services id) h.0
      (find-Sound services id h.1)

pub get-Sound :
    (services : List Service) (id : Option Text)
    → AllSound services
    → FoundSound (get_micro_service_info_by_id services id)
unfolding get_micro_service_info_by_id
get-Sound services none h = tt
get-Sound services (some []) h = tt
get-Sound services (some (c ∷ id)) h = find-Sound services (c ∷ id) h

-- The case of a service that is found or not.
pub Holds-found :
    {B : Type 0} (P : B → Type 0) (w : Option Service) (x : Run B) (f : Service → Run B)
    → FoundSound w
    → Holds P x
    → ((s : Service) → Sound s → Holds P (f s))
    → Holds P (elim w [ none ↦ x | some s ↦ f s ])
Holds-found P none x f g h k = h
Holds-found P (some s) x f g h k = k s g

operate-Sound :
    (env : Env) (op : Option Operation) (s : Service)
    → Creates env
    → Sound s
    → Holds SoundResult (operate env op s)
unfolding operate
operate-Sound env none s c h = tt
operate-Sound env (some op) s c h = perform-Sound env op s c h

operate_all-Sound :
    (env : Env) (op : Option Operation) (ids : Items) (rsc : ℕ) (services : List Service)
    → Creates env
    → AllSound services
    → Holds SoundServices (operate_all env op ids rsc services)
unfolding operate_all
operate_all-Sound env op no_items rsc services c h = h
operate_all-Sound env op (item id ids) rsc services c h =
    let next = λ (s : Service) (r : Bool × Service).
      operate_all env op ids (code_of r.0 rsc) (put_service services s.ms_id r.1) in
    Holds-found SoundServices (get_micro_service_info_by_id services (string_value (some id)))
      (operate_all env op ids 404 services) (λ s. operate env op s >>= next s)
      (get-Sound services (string_value (some id)) h)
      (operate_all-Sound env op ids 404 services c h)
      (λ s g.
        Holds-bind SoundResult SoundServices (operate env op s) (next s)
          (operate-Sound env op s c g)
          (λ r k.
            operate_all-Sound env op ids (code_of r.0 rsc) (put_service services s.ms_id r.1) c
              (put-Sound services s.ms_id r.1 h k)))

pub lwmsg_operation-Sound :
    (env : Env) (id : ℕ) (msg : LwMessage) (device : Device)
    → Creates env
    → AllSound device.services
    → Holds SoundDevice (lwmsg_operation env id msg device)
unfolding lwmsg_operation
lwmsg_operation-Sound env id msg device c h =
    let op = operation_of id in
    let put = λ (r : ℕ × List Service). ok (r.0, record device { services = r.1 }) in
    Holds-option SoundDevice (body_array msg Key.mis) (ok (400, device))
      (λ ids. operate_all env op ids 400 device.services >>= put) h
      (λ ids.
        Holds-bind SoundServices SoundDevice (operate_all env op ids 400 device.services) put
          (operate_all-Sound env op ids 400 device.services c h) (λ r k. k))
