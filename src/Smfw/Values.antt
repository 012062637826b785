-- ===== src/Smfw/Values.antt =====
-- Numbers of C as texts and as bytes: _parameter_set_by_string of task_lwmsg_dist.c and
-- new_lwm_object_from_type_value of iw_fw_microservices.c. A `long` has 32 bits.
pub mod RoundTrip
use io_tware.Common.{
  ℕ, zero, suc, ◌+◌, ◌*◌, ◌-◌, ◌/◌, ◌%◌, ◌^◌, Bool, true, false, ◌&&◌, ◌||◌, Option, none, some,
  List, [], ◌∷◌, ltb, leb, ◌==◌, if◌then◌else◌, length, take, Bytes, zeros,
}
use io_tware.Sifw.Text.{Text, is_space}
use io_tware.Sifw.Object.{ℤ, pos, negsuc, LwmObject, number, string, int32, float}
use io_tware.Smfw.State.{
  Run, ok, undefined, ◌>>=◌, ParamType, p_int8, p_uint8, p_int16, p_uint16, p_int32, p_uint32,
  p_float, p_double, p_string, p_unknown, Parameter, Env,
}
use io_tware.Smfw.Parameters.{copy_value}

-- The number of the digits at the start of a text, behind those of `acc`.
unfoldable pub digits_from : ℕ → Text → ℕ
digits_from acc [] = acc
digits_from acc (c ∷ s) =
    let more = digits_from (10 * acc + (c - 48)) s in if leb 48 c && leb c 57 then more else acc

abbrev pub negated : ℕ → ℤ
negated zero = pos 0
negated (suc n) = negsuc n

unfoldable pub signed_digits : Text → ℤ
unfolding digits_from
signed_digits [] = pos 0
signed_digits (c ∷ s) =
    if c == b'-'
    then negated (digits_from 0 s)
    else if c == b'+'
    then pos (digits_from 0 s)
    else pos (digits_from 0 (c ∷ s))

unfoldable pub strip : Text → Text
strip [] = []
strip (c ∷ s) = let rest = strip s in if is_space c then rest else c ∷ s

abbrev pub in_long : ℤ → Bool
in_long (pos n) = ltb n 2147483648
in_long (negsuc n) = ltb n 2147483648

-- `atol` and `atoi`, whose result C does not define where it does not fit.
unfoldable pub atol : Text → Run ℤ
unfolding strip signed_digits
atol s = if in_long (signed_digits (strip s)) then ok (signed_digits (strip s)) else undefined

-- A number in `m` values, `m` a power of two: its residue, which is its bits.
unfoldable pub residue : ℕ → ℤ → ℕ
residue m (pos n) = n % m
residue m (negsuc n) = m - 1 - n % m

-- The signed number of bits, where `m` counts the values.
unfoldable pub signed : ℕ → ℕ → ℤ
signed m n = if ltb n (m / 2) then pos n else negsuc (m - 1 - n)

-- `size` bytes of a number, the lowest first, and back.
unfoldable pub to_bytes : ℕ → ℕ → Bytes
to_bytes zero n = []
to_bytes (suc size) n = (n % 256) ∷ to_bytes size (n / 256)

unfoldable pub from_bytes : ℕ → Bytes → ℕ
from_bytes zero bs = 0
from_bytes (suc size) [] = 0
from_bytes (suc size) (b ∷ bs) = b + 256 * from_bytes size bs

abbrev pub decimal_bytes : ℕ → ℕ → ℤ → Bytes
decimal_bytes size m n = to_bytes size (residue m n)

abbrev set_number : Parameter → ℕ → ℕ → Text → Run Parameter
set_number param size m str = do n ← atol str; copy_value param (decimal_bytes size m n)

-- The cases of `_parameter_set_by_string`. Only a `float`'s text is read as a floating-point number:
-- a `double` takes the zero it was declared with. A text's parameter takes the bytes of the text's
-- address.
unfoldable pub set_by_type : Env → Parameter → ParamType → Text → Run Parameter
unfolding atol residue to_bytes copy_value
set_by_type env param p_int8 str = set_number param 1 256 str
set_by_type env param p_uint8 str = set_number param 1 256 str
set_by_type env param p_int16 str = set_number param 2 65536 str
set_by_type env param p_uint16 str = set_number param 2 65536 str
set_by_type env param p_int32 str = set_number param 4 4294967296 str
set_by_type env param p_uint32 str = set_number param 4 4294967296 str
set_by_type env param p_float str = copy_value param (env.float_bytes str)
set_by_type env param p_double str = copy_value param (zeros 8)
set_by_type env param p_string str = copy_value param (env.address str)
set_by_type env param p_unknown str = ok param

-- `_parameter_set_by_string`
unfoldable pub parameter_set_by_string : Env → Parameter → Text → Run Parameter
unfolding set_by_type
parameter_set_by_string env param str = set_by_type env param param.type str

-- `memcpy(&x, __value, size)`
unfoldable pub load : ℕ → Option Bytes → Run Bytes
load size none = undefined
load size (some bs) = if leb size (length bs) then ok (take size bs) else undefined

-- The bytes of a C string: those before the NUL, which has to be within the value.
unfoldable pub c_string : Bytes → Run Text
c_string [] = undefined
c_string (b ∷ bs) = do let rest = c_string bs; if b == 0 then ok [] else do s ← rest; ok (b ∷ s)

-- `SET_LWM_INT_VALUE(value, long_value)` of a number with an object of its own.
abbrev pub int_object : ℤ → Option LwmObject
int_object n = some (number (int32 n))

-- `new_lwm_object_from_type_value`, `none` for NULL: a `long` that is made an `int32_t`, a `float`,
-- or a text.
unfoldable pub new_lwm_object_from_type_value :
    Env → ParamType → Option Bytes → Run (Option LwmObject)
unfolding load from_bytes signed c_string
new_lwm_object_from_type_value env type value = elim type [
  | p_int8 ↦ do bs ← load 1 value; ok (int_object (signed 256 (from_bytes 1 bs)))
  | p_uint8 ↦ do bs ← load 1 value; ok (int_object (pos (from_bytes 1 bs)))
  | p_int16 ↦ do bs ← load 2 value; ok (int_object (signed 65536 (from_bytes 2 bs)))
  | p_uint16 ↦ do bs ← load 2 value; ok (int_object (pos (from_bytes 2 bs)))
  | p_int32 ↦ do bs ← load 4 value; ok (int_object (signed 4294967296 (from_bytes 4 bs)))
  | p_uint32 ↦ do bs ← load 4 value; ok (int_object (signed 4294967296 (from_bytes 4 bs)))
  | p_float ↦ do
    bs ← load 4 value
    let (whole, hundredths) = env.float_parts bs
    ok (some (number (float whole hundredths)))
  | p_double ↦ do
    bs ← load 8 value
    let (whole, hundredths) = env.double_parts bs
    ok (some (number (float whole hundredths)))
  | p_string ↦ elim value [
    | none ↦ ok (some (string none))
    | some bs ↦ do s ← c_string bs; ok (some (string (some s)))
  ]
  | p_unknown ↦ ok none
]
