-- ===== src/Smfw/Connect/Output.antt =====
-- What set_output_connect_line finds and changes.
use io_tware.Common.{
  ℕ, suc, ◌≡◌, refl, ap, ◌∙◌, Bool, true, false, Bool-cases, inl, inr, ◌==◌, length, Option, none,
  some, List, [], ◌∷◌, if◌then◌else◌,
}
use io_tware.Sifw.Text.{Text}
use io_tware.Smfw.State.{
  Run, deadlock, ok, p_unknown, undefined, ◌>>=◌, ConnectLine, TaskLink, null, link, TaskInfo,
  Service, update_task,
}
use io_tware.Smfw.Links.{
  is_last, behind, find_last_task_link, link_at, set_link_at, link_lines, link_name,
}
use io_tware.Smfw.Links.Tree.{InTree}
use io_tware.Smfw.Parameters.{set_output_param}
use io_tware.Smfw.Connect.{
  curr_task_state, connect_port, connect_all, connect_link, set_output_connect_line,
}

set-is_last :
    (on off : TaskLink) (way : List Bool) (clinks : Option (List (Option ConnectLine)))
    (oname : Text)
    → (is_last (set_link_at on way clinks oname) off ≡ is_last on off)
      × (is_last on (set_link_at off way clinks oname) ≡ is_last on off)
unfolding set_link_at
set-is_last null null way clinks oname = (refl, refl)
set-is_last null (link t a b c o) [] clinks oname = (refl, refl)
set-is_last null (link t a b c o) (true ∷ way) clinks oname = (refl, refl)
set-is_last null (link t a b c o) (false ∷ way) clinks oname = (refl, refl)
set-is_last (link t a b c o) null [] clinks oname = (refl, refl)
set-is_last (link t a b c o) null (true ∷ way) clinks oname = (refl, refl)
set-is_last (link t a b c o) null (false ∷ way) clinks oname = (refl, refl)
set-is_last (link t a b c o) (link t' a' b' c' o') [] clinks oname = (refl, refl)
set-is_last (link t a b c o) (link t' a' b' c' o') (true ∷ way) clinks oname = (refl, refl)
set-is_last (link t a b c o) (link t' a' b' c' o') (false ∷ way) clinks oname = (refl, refl)

-- Setting a link's lines does not change the ways.
pub find-set :
    (l : TaskLink) (way : List Bool) (clinks : Option (List (Option ConnectLine))) (oname : Text)
    (test : Option ℕ → Bool)
    → find_last_task_link (set_link_at l way clinks oname) test ≡ find_last_task_link l test
unfolding find_last_task_link set_link_at
find-set null [] clinks oname test = refl
find-set null (b ∷ way) clinks oname test = refl
find-set (link t on off c o) [] clinks oname test = refl
find-set (link t on off c o) (true ∷ way) clinks oname test =
    rw ((set-is_last on off way clinks oname).0, find-set on way clinks oname test)
find-set (link t on off c o) (false ∷ way) clinks oname test =
    rw ((set-is_last on off way clinks oname).1, find-set off way clinks oname test)

-- Tests that agree find the same way.
pub find-agree :
    (l : TaskLink) (test test' : Option ℕ → Bool)
    → ((t : Option ℕ) → test t ≡ test' t)
    → find_last_task_link l test ≡ find_last_task_link l test'
unfolding find_last_task_link
find-agree null test test' h = refl
find-agree (link t on off c o) test test' h =
    rw (h t, find-agree on test test' h, find-agree off test test' h)

-- A way that was found ends in the tree.
abbrev pub Found : TaskLink → Option (List Bool) → Type 0
Found l none = Unit
Found l (some way) = InTree l way

behind-on :
    (t : Option ℕ) (on off : TaskLink) (c : Option (List (Option ConnectLine))) (o : Text)
    (w : Option (List Bool))
    → Found on w
    → Found (link t on off c o) (behind true w)
unfolding link_at
behind-on t on off c o none h = tt
behind-on t on off c o (some way) h = h

behind-off :
    (t : Option ℕ) (on off : TaskLink) (c : Option (List (Option ConnectLine))) (o : Text)
    (w : Option (List Bool))
    → Found off w
    → Found (link t on off c o) (behind false w)
unfolding link_at
behind-off t on off c o none h = tt
behind-off t on off c o (some way) h = h

if-Found :
    (l : TaskLink) (b : Bool) (x y : Option (List Bool))
    → Found l x
    → Found l y
    → Found l (if b then x else y)
if-Found l true x y h k = h
if-Found l false x y h k = k

pub find-Found : (l : TaskLink) (test : Option ℕ → Bool) → Found l (find_last_task_link l test)
unfolding find_last_task_link link_at
find-Found null test = tt
find-Found (link t on off c o) test =
    let l = link t on off c o in
    let by_on = find_last_task_link on test in
    let by_off = find_last_task_link off test in
    if-Found l (is_last on off) (some [])
      (if test t then behind true by_on else behind false by_off) tt
      (if-Found l (test t) (behind true by_on) (behind false by_off)
        (behind-on t on off c o by_on (find-Found on test))
        (behind-off t on off c o by_off (find-Found off test)))

-- What set_output_connect_line leaves as it was.
pub record Keeps (s t : Service) : Type 0 where
  pub locked : t.locked ≡ s.locked
  pub state : t.state ≡ s.state
  pub head : t.task_link_head ≡ s.task_link_head
  pub lines : t.connect_lines ≡ s.connect_lines
  pub count : length t.tasks ≡ length s.tasks

-- The result of a run, if it has one.
abbrev pub Holds : {A : Type 0} → (A → Type 0) → Run A → Type 0
Holds P (ok a) = P a
Holds P undefined = Unit
Holds P deadlock = ⊥

pub Holds-bind :
    {A B : Type 0} (P : A → Type 0) (Q : B → Type 0) (r : Run A) (f : A → Run B)
    → Holds P r
    → ((a : A) → P a → Holds Q (f a))
    → Holds Q (r >>= f)
Holds-bind P Q (ok a) f h k = k a h
Holds-bind P Q undefined f h k = tt
Holds-bind P Q deadlock f h k = elim h [ ]

pub Holds-map :
    {A : Type 0} (P Q : A → Type 0) (r : Run A) → Holds P r → ((a : A) → P a → Q a) → Holds Q r
Holds-map P Q (ok a) h k = k a h
Holds-map P Q undefined h k = tt
Holds-map P Q deadlock h k = h

-- A write to a task keeps the number of the tasks.
pub length-update_task :
    (tasks : List TaskInfo) (address : ℕ) (f : TaskInfo → TaskInfo)
    → length (update_task tasks address f) ≡ length tasks
unfolding update_task
length-update_task [] address f = refl
length-update_task (t ∷ tasks) address f = elim (Bool-cases (t.address == address)) [
  | inl e ↦ rw e refl
  | inr e ↦ rw e (ap suc (length-update_task tasks address f))
]

connect_all-Holds :
    (lines : List (Option ConnectLine)) (tasks : List TaskInfo)
    → Holds (λ ts. length ts ≡ length tasks) (connect_all lines tasks)
unfolding connect_all
connect_all-Holds [] tasks = refl
connect_all-Holds (none ∷ lines) tasks = tt
connect_all-Holds (some line ∷ lines) tasks =
    let next = update_task tasks line.start_task (connect_port line) in
    Holds-map (λ ts. length ts ≡ length next) (λ ts. length ts ≡ length tasks)
      (connect_all lines next) (connect_all-Holds lines next)
      (λ ts h. h ∙ length-update_task tasks line.start_task (connect_port line))

finish-Holds :
    (s named : Service) (way : List Bool) (lines : Option (List (Option ConnectLine)))
    → Keeps s named
    → named.current_task_link ≡ some way
    → Holds
        (λ t. Keeps s t × (t.current_task_link ≡ some way))
        (elim lines [
          | none ↦ ok named
          | some lines' ↦ do tasks ← connect_all lines' s.tasks; ok (record named { tasks = tasks })
        ])
finish-Holds s named way none k e = (k, e)
finish-Holds s named way (some lines) k e =
    Holds-bind (λ ts. length ts ≡ length s.tasks)
      (λ t. Keeps s t × (t.current_task_link ≡ some way)) (connect_all lines s.tasks)
      (λ tasks. ok (record named { tasks = tasks })) (connect_all-Holds lines s.tasks)
      (λ tasks n. (
        record { locked = k.locked; state = k.state; head = k.head; lines = k.lines; count = n },
        e,
      ))

connect_link-Holds :
    (s : Service) (way : List Bool)
    → Holds (λ t. Keeps s t × (t.current_task_link ≡ some way)) (connect_link s way)
unfolding connect_link set_output_param
connect_link-Holds s way =
    finish-Holds s
      (set_output_param (record s { current_task_link = some way }) p_unknown 0
        (link_name (link_at s.task_link_head way)))
      way (link_lines (link_at s.task_link_head way))
      (record { locked = refl; state = refl; head = refl; lines = refl; count = refl }) refl

-- The current link is one of the tree, if there is one.
abbrev pub Linked : Service → Type 0
Linked s = Found s.task_link_head s.current_task_link

settled-Holds :
    (s : Service) (w : Option (List Bool))
    → Found s.task_link_head w
    → Linked s
    → Holds (λ t. Keeps s t × Linked t) (elim w [ none ↦ ok s | some way ↦ connect_link s way ])
settled-Holds s none f h =
    (record { locked = refl; state = refl; head = refl; lines = refl; count = refl }, h)
settled-Holds s (some way) f h =
    Holds-map (λ t. Keeps s t × (t.current_task_link ≡ some way)) (λ t. Keeps s t × Linked t)
      (connect_link s way) (connect_link-Holds s way) (λ t k. (k.0, rw (k.0.head, k.1) f))

-- It ends, if it does, with a current link of the tree, and changes neither the tree nor the state.
pub set_output_connect_line-Holds :
    (s : Service) → Linked s → Holds (λ t. Keeps s t × Linked t) (set_output_connect_line s)
unfolding set_output_connect_line
set_output_connect_line-Holds s h =
    settled-Holds s (find_last_task_link s.task_link_head (curr_task_state s.tasks))
      (find-Found s.task_link_head (curr_task_state s.tasks)) h
