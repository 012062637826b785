-- ===== src/Smfw/Parameters.antt =====
-- The parameters of tasks and services in iw_fw_microservices.c, their values as bytes from the
-- lowest on, and _parameter_set_by_string of task_lwmsg_dist.c. Every malloc of a size above 0
-- succeeds.
use io_tware.Common.{
  ℕ, Bool, true, false, ◌&&◌, ◌||◌, Option, none, some, List, [], ◌∷◌, ltb, leb, ◌==◌,
  if◌then◌else◌, length, node_num, take, Bytes, zeros,
}
use io_tware.Sifw.Text.{Text, text_eq}
use io_tware.Smfw.State.{
  Run, ok, undefined, ◌>>=◌, ParamType, ParamAttr, no_attr, read_only, read_write, Parameter,
  TaskInfo, Service, Env,
}

abbrev pub max_name_length : ℕ
max_name_length = 30

-- `_safe_alloc`
unfoldable pub safe_alloc : ℕ → Option Bytes
safe_alloc size = if ltb 0 size then some (zeros size) else none

-- The kinds of a parameter.
pub data ParamKind : Type 0 where
  user_param static_param flexible_param ms_input_param : ParamKind

abbrev pub kind_attr : ParamKind → ParamAttr
kind_attr user_param = no_attr
kind_attr static_param = read_only
kind_attr flexible_param = read_write
kind_attr ms_input_param = read_write

-- `_make_task_parameter`
unfoldable pub make_task_parameter : ParamKind → ParamType → Text → Text → ℕ → Parameter
unfolding safe_alloc
make_task_parameter kind type name alias size = record {
  value = safe_alloc size;
  value_size = size;
  type = type;
  name = take max_name_length name;
  alias = take max_name_length alias;
  attr = kind_attr kind;
  last_updated = 0;
}

-- `memcpy(param->value, src, param->value_size)`
unfoldable pub copy_value : Parameter → Bytes → Run Parameter
copy_value param src = elim param.value [
  | none ↦ if param.value_size == 0 then ok param else undefined
  | some old ↦
      if leb param.value_size (length src)
      then ok (record param { value = some (take param.value_size src) })
      else undefined
]

-- `_add_param_to_list`
unfoldable pub add_param_to_list : List Parameter → Parameter → Bytes → Run (List Parameter)
unfolding copy_value
add_param_to_list list param value = do param' ← copy_value param value; ok (param' ∷ list)

-- `add_task_param` of a task's three kinds.
unfoldable pub add_task_param :
    ParamKind → TaskInfo → ParamType → Text → Text → Bytes → ℕ → Run TaskInfo
unfolding make_task_parameter add_param_to_list
add_task_param user_param ti type name alias value size = do
  params ←
      add_param_to_list ti.user_params (make_task_parameter user_param type name alias size) value
  ok (record ti { user_params = params })
add_task_param static_param ti type name alias value size = do
  params ←
      add_param_to_list ti.static_params (make_task_parameter static_param type name alias size)
        value
  ok (record ti { static_params = params })
add_task_param flexible_param ti type name alias value size = do
  params ←
      add_param_to_list ti.flexible_params (make_task_parameter flexible_param type name alias size)
        value
  ok (record ti { flexible_params = params })
add_task_param ms_input_param ti type name alias value size = ok ti

-- `add_ms_input_param`
unfoldable pub add_ms_input_param : Service → ParamType → Text → Text → Bytes → ℕ → Run Service
unfolding make_task_parameter add_param_to_list
add_ms_input_param pmsi type name alias value size = do
  params ←
      add_param_to_list pmsi.input_params (make_task_parameter ms_input_param type name alias size)
        value
  ok (record pmsi { input_params = params })

-- Whether the parameter is meant by a name or an alias, each of which may be NULL.
abbrev pub named : Option Text → Text → Bool
named none s = false
named (some name) s = text_eq name s

-- The loop of `get_parameter_from_param_list`.
unfoldable pub find_parameter : List Parameter → Option Text → Option Text → Option Parameter
find_parameter [] name alias = none
find_parameter (p ∷ params) name alias =
    if named name p.name || named alias p.alias then some p else find_parameter params name alias

abbrev pub no_text : Text → Bool
no_text [] = true
no_text (c ∷ s) = false

-- `get_parameter_from_param_list`. Its test on empty texts reads the name first, and the alias
-- where the name is empty, through NULL as well. A list is empty where its 8-bit count is 0.
unfoldable pub get_parameter : List Parameter → Option Text → Option Text → Run (Option Parameter)
unfolding find_parameter
get_parameter params none none = ok none
get_parameter params none (some alias) = if node_num params == 0 then ok none else undefined
get_parameter params (some name) none =
    if node_num params == 0
    then ok none
    else if no_text name
    then undefined
    else ok (find_parameter params (some name) none)
get_parameter params (some name) (some alias) =
    if node_num params == 0
    then ok none
    else if no_text name && no_text alias
    then ok none
    else ok (find_parameter params (some name) (some alias))

abbrev pub value_of : Option Parameter → Option Bytes
value_of none = none
value_of (some p) = p.value

-- `get_parameter_value_ptr`
unfoldable pub get_parameter_value_ptr : TaskInfo → Text → Run (Option Bytes)
unfolding get_parameter
get_parameter_value_ptr ti name = do
  user ← get_parameter ti.user_params (some name) none
  elim user [
    | some p ↦ ok p.value
    | none ↦ do
      static ← get_parameter ti.static_params (some name) none
      elim static [
        | some p ↦ ok p.value
        | none ↦ do
          flexible ← get_parameter ti.flexible_params (some name) none
          ok (value_of flexible)
      ]
  ]

-- `get_ms_input_parameter_value_ptr`
unfoldable pub get_ms_input_parameter_value_ptr : Service → Text → Run (Option Bytes)
unfolding get_parameter
get_ms_input_parameter_value_ptr pmsi name = do
  p ← get_parameter pmsi.input_params (some name) none
  ok (value_of p)

abbrev same_handle : Option ℕ → Option ℕ → Bool
same_handle none t = true
same_handle (some a) none = false
same_handle (some a) (some b) = a == b

-- The loop of `get_parameter_w_task`: over the tasks of the handle, or over all where it is NULL.
-- A search that fails in one task goes on with the next.
unfoldable pub find_w_task : List TaskInfo → Option ℕ → Text → Run (Option Parameter)
unfolding get_parameter
find_w_task [] task_t name = ok none
find_w_task (ti ∷ tasks) task_t name =
    let rest = find_w_task tasks task_t name in
    let here = do
      user ← get_parameter ti.user_params (some name) none
      elim user [
        | some p ↦ ok (some p)
        | none ↦ do
          static ← get_parameter ti.static_params (some name) none
          elim static [
            | some p ↦ ok (some p)
            | none ↦ do
              flexible ← get_parameter ti.flexible_params (some name) none
              elim flexible [ some p ↦ ok (some p) | none ↦ rest ]
          ]
      ]
    in if same_handle task_t ti.task_t then here else rest

-- `get_parameter_w_task`
unfoldable pub get_parameter_w_task : Service → Option ℕ → Text → Run (Option Parameter)
unfolding find_w_task
get_parameter_w_task pmsi task_t name =
    if no_text name then ok none else find_w_task pmsi.tasks task_t name

-- `set_output_param`
unfoldable pub set_output_param : Service → ParamType → ℕ → Text → Service
unfolding safe_alloc
set_output_param pmsi type size name = record pmsi {
  output_param = record pmsi.output_param {
    name = take max_name_length name;
    value = safe_alloc size;
    value_size = size;
    type = type;
    last_updated = 0;
  };
}

-- `set_output_param_value` of the service that the task belongs to.
unfoldable pub set_output_param_value : Env → Service → Bytes → ParamType → ℕ → Run Service
unfolding safe_alloc copy_value
set_output_param_value env pmsi value type size = do
  let param = record pmsi.output_param { value = safe_alloc size; value_size = size; type = type }
  param' ← copy_value param value
  ok (record pmsi { output_param = record param' { last_updated = env.tick_count } })
