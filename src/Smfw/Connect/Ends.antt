-- ===== src/Smfw/Connect/Ends.antt =====
-- The end of set_output_connect_line.
use io_tware.Common.{◌≡◌, refl, Bool, true, false, Option, none, some, List, [], ◌∷◌}
use io_tware.Smfw.State.{
  Run, deadlock, ok, p_unknown, undefined, ◌>>=◌, ConnectLine, TaskLink, null, link, TaskInfo,
  Service, update_task,
}
use io_tware.Smfw.Links.{find_last_task_link, link_at, link_lines, link_name}
use io_tware.Smfw.Parameters.{set_output_param}
use io_tware.Smfw.Connect.{
  curr_task_state, connect_port, connect_all, connect_link, set_output_connect_line,
}

-- No line of any link is NULL.
abbrev pub NoNull : List (Option ConnectLine) → Type 0
NoNull [] = Unit
NoNull (none ∷ lines) = ⊥
NoNull (some line ∷ lines) = NoNull lines

abbrev pub NoNullHead : Option (List (Option ConnectLine)) → Type 0
NoNullHead none = Unit
NoNullHead (some lines) = NoNull lines

abbrev pub AllSet : TaskLink → Type 0
AllSet null = Unit
AllSet (link task on off clinks oname) = NoNullHead clinks × AllSet on × AllSet off

-- The result of a run, which it has.
abbrev pub Returns : {A : Type 0} → (A → Type 0) → Run A → Type 0
Returns P (ok a) = P a
Returns P undefined = ⊥
Returns P deadlock = ⊥

pub Returns-bind :
    {A B : Type 0} (P : A → Type 0) (Q : B → Type 0) (r : Run A) (f : A → Run B)
    → Returns P r
    → ((a : A) → P a → Returns Q (f a))
    → Returns Q (r >>= f)
Returns-bind P Q (ok a) f h k = k a h
Returns-bind P Q undefined f h k = elim h [ ]
Returns-bind P Q deadlock f h k = elim h [ ]

connect_all-Returns :
    (lines : List (Option ConnectLine)) (tasks : List TaskInfo)
    → NoNull lines
    → Returns (λ ts. Unit) (connect_all lines tasks)
unfolding connect_all update_task
connect_all-Returns [] tasks h = tt
connect_all-Returns (none ∷ lines) tasks h = elim h [ ]
connect_all-Returns (some line ∷ lines) tasks h =
    connect_all-Returns lines (update_task tasks line.start_task (connect_port line)) h

AllSet-link_at :
    (l : TaskLink) (way : List Bool) → AllSet l → NoNullHead (link_lines (link_at l way))
unfolding link_at
AllSet-link_at null [] h = tt
AllSet-link_at null (b ∷ way) h = tt
AllSet-link_at (link t on off c o) [] h = h.0
AllSet-link_at (link t on off c o) (true ∷ way) h = AllSet-link_at on way h.1
AllSet-link_at (link t on off c o) (false ∷ way) h = AllSet-link_at off way h.2

finish-Returns :
    (s named : Service) (lines : Option (List (Option ConnectLine)))
    → NoNullHead lines
    → Returns
        (λ t. t.state ≡ named.state)
        (elim lines [
          | none ↦ ok named
          | some lines' ↦ do tasks ← connect_all lines' s.tasks; ok (record named { tasks = tasks })
        ])
finish-Returns s named none h = refl
finish-Returns s named (some lines) h =
    Returns-bind (λ ts. Unit) (λ t. t.state ≡ named.state) (connect_all lines s.tasks)
      (λ tasks. ok (record named { tasks = tasks })) (connect_all-Returns lines s.tasks h)
      (λ ts k. refl)

connect_link-Returns :
    (s : Service) (way : List Bool)
    → AllSet s.task_link_head
    → Returns (λ t. t.state ≡ s.state) (connect_link s way)
unfolding connect_link set_output_param
connect_link-Returns s way h =
    finish-Returns s
      (set_output_param (record s { current_task_link = some way }) p_unknown 0
        (link_name (link_at s.task_link_head way)))
      (link_lines (link_at s.task_link_head way)) (AllSet-link_at s.task_link_head way h)

settled-Returns :
    (s : Service) (w : Option (List Bool))
    → AllSet s.task_link_head
    → Returns (λ t. t.state ≡ s.state) (elim w [ none ↦ ok s | some way ↦ connect_link s way ])
settled-Returns s none h = refl
settled-Returns s (some way) h = connect_link-Returns s way h

-- Where no line is NULL, it ends.
pub set_output_connect_line-Returns :
    (s : Service)
    → AllSet s.task_link_head
    → Returns (λ t. t.state ≡ s.state) (set_output_connect_line s)
unfolding set_output_connect_line
set_output_connect_line-Returns s h =
    settled-Returns s (find_last_task_link s.task_link_head (curr_task_state s.tasks)) h
