-- ===== src/Sifw/Dispatch/Unblocked.antt =====
-- Reading and writing values, and the mutexes.
use io_tware.Common.{
  ℕ, Bool, true, false, Option, none, some, List, [], ◌∷◌, leb, ◌==◌, ◌&&◌, if◌then◌else◌, length,
  node_num, take, Bytes, zeros,
}
use io_tware.Sifw.Text.{Text}
use io_tware.Sifw.Object.{
  ℤ, pos, float, LwmObject, number, string, Items, no_items, item, Fields, no_fields, field,
}
use io_tware.Sifw.Build.{string_value}
use io_tware.Sifw.Dispatch.Store.{int_value}
use io_tware.Sifw.Dispatch.Params.{set_fields, put_parameter, read_names}
use io_tware.Smfw.State.{
  Run, ok, undefined, ◌>>=◌, ParamType, p_int8, p_uint8, p_int16, p_uint16, p_int32, p_uint32,
  p_float, p_double, p_string, p_unknown, Parameter, TaskInfo, Env,
}
use io_tware.Smfw.Parameters.{copy_value, no_text, find_parameter, get_parameter}
use io_tware.Smfw.Values.{
  atol, in_long, signed_digits, strip, set_by_type, parameter_set_by_string, load, c_string,
  decimal_bytes, int_object, signed, from_bytes, new_lwm_object_from_type_value,
}
use io_tware.Smfw.Connect.Output.{Holds, Holds-bind}
use io_tware.Smfw.Registry.{set_value, param_fields}

abbrev pub Unblocked : {A : Type 0} → Run A → Type 0
Unblocked r = Holds (λ a. Unit) r

pub Holds-if :
    {A : Type 0} (P : A → Type 0) (b : Bool) (x y : Run A)
    → Holds P x
    → Holds P y
    → Holds P (if b then x else y)
Holds-if P true x y h k = h
Holds-if P false x y h k = k

pub Holds-option :
    {A B : Type 0} (P : B → Type 0) (w : Option A) (x : Run B) (f : A → Run B)
    → Holds P x
    → ((a : A) → Holds P (f a))
    → Holds P (elim w [ none ↦ x | some a ↦ f a ])
Holds-option P none x f h k = h
Holds-option P (some a) x f h k = k a

-- What is done after a run that does not block.
pub Unblocked-bind :
    {A B : Type 0} (P : B → Type 0) (r : Run A) (f : A → Run B)
    → Unblocked r
    → ((a : A) → Holds P (f a))
    → Holds P (r >>= f)
Unblocked-bind P r f h k = Holds-bind (λ a. Unit) P r f h (λ a u. k a)

ok_if-Unblocked : {A : Type 0} (b : Bool) (a : A) → Unblocked (if b then ok a else undefined)
ok_if-Unblocked true a = tt
ok_if-Unblocked false a = tt

atol-Unblocked : (s : Text) → Unblocked (atol s)
unfolding atol
atol-Unblocked s = ok_if-Unblocked (in_long (signed_digits (strip s))) (signed_digits (strip s))

pub int_value-Unblocked : (obj : LwmObject) → Unblocked (int_value obj)
unfolding int_value
int_value-Unblocked obj = by_text (string_value (some obj))
  where
    by_text : (t : Option Text) → Unblocked (elim t [ none ↦ undefined | some s ↦ atol s ])
    by_text none = tt
    by_text (some s) = atol-Unblocked s

copy_value-Unblocked : (param : Parameter) (src : Bytes) → Unblocked (copy_value param src)
unfolding copy_value
copy_value-Unblocked param src = by_value param.value
  where
    by_value :
        (v : Option Bytes)
        → Unblocked (elim v [
          | none ↦ if param.value_size == 0 then ok param else undefined
          | some old ↦
              if leb param.value_size (length src)
              then ok (record param { value = some (take param.value_size src) })
              else undefined
        ])
    by_value none = ok_if-Unblocked (param.value_size == 0) param
    by_value (some old) =
        ok_if-Unblocked (leb param.value_size (length src))
          (record param { value = some (take param.value_size src) })

set_number-Unblocked :
    (param : Parameter) (str : Text) (f : ℤ → Bytes)
    → Unblocked (do n ← atol str; copy_value param (f n))
set_number-Unblocked param str f =
    Unblocked-bind (λ a. Unit) (atol str) (λ n. copy_value param (f n)) (atol-Unblocked str)
      (λ n. copy_value-Unblocked param (f n))

set_by_type-Unblocked :
    (env : Env) (param : Parameter) (type : ParamType) (str : Text)
    → Unblocked (set_by_type env param type str)
unfolding set_by_type
set_by_type-Unblocked env param p_int8 str = set_number-Unblocked param str (decimal_bytes 1 256)
set_by_type-Unblocked env param p_uint8 str = set_number-Unblocked param str (decimal_bytes 1 256)
set_by_type-Unblocked env param p_int16 str = set_number-Unblocked param str (decimal_bytes 2 65536)
set_by_type-Unblocked env param p_uint16 str =
    set_number-Unblocked param str (decimal_bytes 2 65536)
set_by_type-Unblocked env param p_int32 str =
    set_number-Unblocked param str (decimal_bytes 4 4294967296)
set_by_type-Unblocked env param p_uint32 str =
    set_number-Unblocked param str (decimal_bytes 4 4294967296)
set_by_type-Unblocked env param p_float str = copy_value-Unblocked param (env.float_bytes str)
set_by_type-Unblocked env param p_double str = copy_value-Unblocked param (zeros 8)
set_by_type-Unblocked env param p_string str = copy_value-Unblocked param (env.address str)
set_by_type-Unblocked env param p_unknown str = tt

load-Unblocked : (size : ℕ) (v : Option Bytes) → Unblocked (load size v)
unfolding load
load-Unblocked size none = tt
load-Unblocked size (some bs) = ok_if-Unblocked (leb size (length bs)) (take size bs)

c_string-Unblocked : (bs : Bytes) → Unblocked (c_string bs)
unfolding c_string
c_string-Unblocked [] = tt
c_string-Unblocked (b ∷ bs) =
    Holds-if (λ a. Unit) (b == 0) (ok []) (c_string bs >>= (λ s. ok (b ∷ s))) tt
      (Unblocked-bind (λ a. Unit) (c_string bs) (λ s. ok (b ∷ s)) (c_string-Unblocked bs) (λ s. tt))

loaded :
    (size : ℕ) (v : Option Bytes) (f : Bytes → Option LwmObject)
    → Unblocked (do bs ← load size v; ok (f bs))
loaded size v f =
    Unblocked-bind (λ a. Unit) (load size v) (λ bs. ok (f bs)) (load-Unblocked size v) (λ bs. tt)

pub value-Unblocked :
    (env : Env) (type : ParamType) (v : Option Bytes)
    → Unblocked (new_lwm_object_from_type_value env type v)
unfolding new_lwm_object_from_type_value
value-Unblocked env p_int8 v = loaded 1 v (λ bs. int_object (signed 256 (from_bytes 1 bs)))
value-Unblocked env p_uint8 v = loaded 1 v (λ bs. int_object (pos (from_bytes 1 bs)))
value-Unblocked env p_int16 v = loaded 2 v (λ bs. int_object (signed 65536 (from_bytes 2 bs)))
value-Unblocked env p_uint16 v = loaded 2 v (λ bs. int_object (pos (from_bytes 2 bs)))
value-Unblocked env p_int32 v = loaded 4 v (λ bs. int_object (signed 4294967296 (from_bytes 4 bs)))
value-Unblocked env p_uint32 v = loaded 4 v (λ bs. int_object (signed 4294967296 (from_bytes 4 bs)))
value-Unblocked env p_float v =
    loaded 4 v (λ bs. some (number (float (env.float_parts bs).0 (env.float_parts bs).1)))
value-Unblocked env p_double v =
    loaded 8 v (λ bs. some (number (float (env.double_parts bs).0 (env.double_parts bs).1)))
value-Unblocked env p_string none = tt
value-Unblocked env p_string (some bs) =
    Unblocked-bind (λ a. Unit) (c_string bs) (λ s. ok (some (string (some s))))
      (c_string-Unblocked bs) (λ s. tt)
value-Unblocked env p_unknown v = tt

get_parameter-Unblocked :
    (params : List Parameter) (name alias : Option Text)
    → Unblocked (get_parameter params name alias)
unfolding get_parameter
get_parameter-Unblocked params none none = tt
get_parameter-Unblocked params none (some alias) =
    Holds-if (λ a. Unit) (node_num params == 0) (ok none) undefined tt tt
get_parameter-Unblocked params (some name) none =
    let found = ok (find_parameter params (some name) none) in
    let searched = if no_text name then undefined else found in
    Holds-if (λ a. Unit) (node_num params == 0) (ok none) searched tt
      (Holds-if (λ a. Unit) (no_text name) undefined found tt tt)
get_parameter-Unblocked params (some name) (some alias) =
    let found = ok (find_parameter params (some name) (some alias)) in
    let searched = if no_text name && no_text alias then ok none else found in
    Holds-if (λ a. Unit) (node_num params == 0) (ok none) searched tt
      (Holds-if (λ a. Unit) (no_text name && no_text alias) (ok none) found tt tt)

pub set_fields-Unblocked :
    (env : Env) (ti : TaskInfo) (fs : Fields) (found : Bool)
    → Unblocked (set_fields env ti fs found)
unfolding set_fields parameter_set_by_string
set_fields-Unblocked env ti no_fields found = tt
set_fields-Unblocked env ti (field key v fs) found =
    let put = λ (p' : Parameter).
      set_fields env (record ti { flexible_params = put_parameter ti.flexible_params key p' }) fs
        true in
    let set_found = λ (p : Parameter) (s : Text). parameter_set_by_string env p s >>= put in
    let by_text = λ (p : Parameter). elim (string_value (some v)) as (λ x. Run (Bool × TaskInfo)) [
      | none ↦ undefined
      | some s ↦ set_found p s
    ] in
    Unblocked-bind (λ a. Unit) (get_parameter ti.flexible_params none (some key))
      (λ param. elim param as (λ x. Run (Bool × TaskInfo)) [
        | none ↦ set_fields env ti fs found
        | some p ↦ by_text p
      ])
      (get_parameter-Unblocked ti.flexible_params none (some key))
      (λ param.
        Holds-option (λ a. Unit) param (set_fields env ti fs found) by_text
          (set_fields-Unblocked env ti fs found)
          (λ p.
            Holds-option (λ a. Unit) (string_value (some v)) undefined (set_found p) tt
              (λ s.
                Unblocked-bind (λ a. Unit) (parameter_set_by_string env p s) put
                  (set_by_type-Unblocked env p p.type s)
                  (λ p'.
                    set_fields-Unblocked env
                      (record ti { flexible_params = put_parameter ti.flexible_params key p' }) fs
                      true))))

pub read_names-Unblocked :
    (env : Env) (params : List Parameter) (names : Items) (found : Bool) (fs : Fields)
    → Unblocked (read_names env params names found fs)
unfolding read_names
read_names-Unblocked env params no_items found fs = tt
read_names-Unblocked env params (item name names) found fs =
    let put = λ (p : Parameter) (v : Option LwmObject).
      read_names env params names true (set_value fs p.alias v) in
    let found_one =
      λ (p : Parameter). new_lwm_object_from_type_value env p.type p.value >>= put p in
    Unblocked-bind (λ a. Unit) (get_parameter params none (string_value (some name)))
      (λ param. elim param as (λ x. Run (Bool × Fields)) [
        | none ↦ read_names env params names false fs
        | some p ↦ found_one p
      ])
      (get_parameter-Unblocked params none (string_value (some name)))
      (λ param.
        Holds-option (λ a. Unit) param (read_names env params names false fs) found_one
          (read_names-Unblocked env params names false fs)
          (λ p.
            Unblocked-bind (λ a. Unit) (new_lwm_object_from_type_value env p.type p.value) (put p)
              (value-Unblocked env p.type p.value)
              (λ v. read_names-Unblocked env params names true (set_value fs p.alias v))))

pub param_fields-Unblocked :
    (env : Env) (params : List Parameter) (fs : Fields) → Unblocked (param_fields env params fs)
unfolding param_fields
param_fields-Unblocked env [] fs = tt
param_fields-Unblocked env (p ∷ params) fs =
    Unblocked-bind (λ a. Unit) (new_lwm_object_from_type_value env p.type p.value)
      (λ v. param_fields env params (set_value fs p.alias v)) (value-Unblocked env p.type p.value)
      (λ v. param_fields-Unblocked env params (set_value fs p.alias v))
