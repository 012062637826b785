-- ===== src/Smfw/Values/RoundTrip.antt =====
-- The whole numbers that a message sets a parameter to, and those that are read back from it.
use io_tware.Common.{
  ℕ, zero, suc, ◌/◌, ◌<◌, ◌≡◌, refl, sym, ap, ◌∙◌, Option, none, some, leb, ◌==◌, if◌then◌else◌,
  length, take, take-length, subst, Bytes, le→leb, arith,
}
use io_tware.Sifw.Text.{Text}
use io_tware.Sifw.Object.{ℤ, pos, negsuc}
use io_tware.Smfw.State.{
  ok, undefined, ◌>>=◌, ParamType, p_int8, p_uint8, p_int16, p_uint16, p_int32, p_uint32, p_float,
  p_double, p_string, p_unknown, Parameter, Env,
}
use io_tware.Smfw.Parameters.{copy_value}
use io_tware.Smfw.Values.{
  atol, residue, signed, to_bytes, from_bytes, decimal_bytes, load, set_by_type,
  parameter_set_by_string, int_object, new_lwm_object_from_type_value,
}

-- The signed numbers of a width, and the others of one.
abbrev Signed : ℕ → ℤ → Type 0
Signed half (pos n) = n < half
Signed half (negsuc n) = n < half

abbrev Unsigned : ℕ → ℤ → Type 0
Unsigned m (pos n) = n < m
Unsigned m (negsuc n) = ⊥

-- The whole numbers of a parameter's type; of a `uint32_t` those of an `int32_t`, as which its bytes
-- are read: what `atol` returns is not larger.
unfoldable pub HasValue : ParamType → ℤ → Type 0
HasValue p_int8 n = Signed 128 n
HasValue p_uint8 n = Unsigned 256 n
HasValue p_int16 n = Signed 32768 n
HasValue p_uint16 n = Unsigned 65536 n
HasValue p_int32 n = Signed 2147483648 n
HasValue p_uint32 n = Signed 2147483648 n
HasValue _ n = ⊥

-- `sizeof` of the type.
abbrev pub size_of : ParamType → ℕ
size_of p_int8 = 1
size_of p_uint8 = 1
size_of p_int16 = 2
size_of p_uint16 = 2
size_of p_int32 = 4
size_of p_uint32 = 4
size_of _ = 0

abbrev values : ParamType → ℕ
values p_int8 = 256
values p_uint8 = 256
values p_int16 = 65536
values p_uint16 = 65536
values _ = 4294967296

abbrev stored : ParamType → ℤ → Bytes
stored type n = decimal_bytes (size_of type) (values type) n

length-to_bytes : (size n : ℕ) → length (to_bytes size n) ≡ size
unfolding to_bytes
length-to_bytes zero n = refl
length-to_bytes (suc size) n = ap suc (length-to_bytes size (n / 256))

take_all : (n : ℕ) (bs : Bytes) → n ≡ length bs → take n bs ≡ bs
take_all n bs e = subst (λ k. take k bs ≡ bs) (sym e) (take-length bs)

-- Copying as many bytes as the value has.
copy_value-sized :
    (param : Parameter) (bs old : Bytes)
    → param.value ≡ some old
    → param.value_size ≡ length bs
    → copy_value param bs ≡ ok (record param { value = some bs })
unfolding copy_value
copy_value-sized param bs old e l = by_value param.value e
  where
    by_value :
        (v : Option Bytes)
        → v ≡ some old
        → elim v [
          | none ↦ if param.value_size == 0 then ok param else undefined
          | some old' ↦
              if leb param.value_size (length bs)
              then ok (record param { value = some (take param.value_size bs) })
              else undefined
        ]
          ≡ ok (record param { value = some bs })
    by_value none e' = absurd (ground arith)
    by_value (some old') e' =
        rw (le→leb param.value_size (length bs) (omega arith), take_all param.value_size bs l) refl

from-to_one : (n : ℕ) → n < 256 → from_bytes 1 (to_bytes 1 n) ≡ n
unfolding from_bytes to_bytes
from-to_one n h = omega arith

from-to_two : (n : ℕ) → n < 65536 → from_bytes 2 (to_bytes 2 n) ≡ n
unfolding from_bytes to_bytes
from-to_two n h = omega arith

from-to_four : (n : ℕ) → n < 4294967296 → from_bytes 4 (to_bytes 4 n) ≡ n
unfolding from_bytes to_bytes
from-to_four n h = omega arith

-- The bits of a number below half of the values, and the number of the bits.
Signed-one : (n : ℤ) → Signed 128 n → signed 256 (residue 256 n) ≡ n
unfolding signed residue
Signed-one (pos n) h = ground arith
Signed-one (negsuc n) h = ground arith

Signed-two : (n : ℤ) → Signed 32768 n → signed 65536 (residue 65536 n) ≡ n
unfolding signed residue
Signed-two (pos n) h = ground arith
Signed-two (negsuc n) h = ground arith

Signed-four : (n : ℤ) → Signed 2147483648 n → signed 4294967296 (residue 4294967296 n) ≡ n
unfolding signed residue
Signed-four (pos n) h = ground arith
Signed-four (negsuc n) h = ground arith

below_one : (n : ℤ) → residue 256 n < 256
unfolding residue
below_one (pos n) = omega arith
below_one (negsuc n) = omega arith

below_two : (n : ℤ) → residue 65536 n < 65536
unfolding residue
below_two (pos n) = omega arith
below_two (negsuc n) = omega arith

below_four : (n : ℤ) → residue 4294967296 n < 4294967296
unfolding residue
below_four (pos n) = omega arith
below_four (negsuc n) = omega arith

-- What is read from the bytes of a signed or an unsigned number.
signed_number :
    (size m : ℕ) (n : ℤ)
    → from_bytes size (to_bytes size (residue m n)) ≡ residue m n
    → signed m (residue m n) ≡ n
    → int_object (signed m (from_bytes size (to_bytes size (residue m n)))) ≡ int_object n
signed_number size m n e f = ap int_object (ap (signed m) e ∙ f)

unsigned_number :
    (size m : ℕ) (n : ℤ)
    → from_bytes size (to_bytes size (residue m n)) ≡ residue m n
    → pos (residue m n) ≡ n
    → int_object (pos (from_bytes size (to_bytes size (residue m n)))) ≡ int_object n
unsigned_number size m n e f = ap int_object (ap pos e ∙ f)

Unsigned-one : (n : ℤ) → Unsigned 256 n → pos (residue 256 n) ≡ n
unfolding residue
Unsigned-one (pos n) h = ground arith
Unsigned-one (negsuc n) h = elim h [ ]

Unsigned-two : (n : ℤ) → Unsigned 65536 n → pos (residue 65536 n) ≡ n
unfolding residue
Unsigned-two (pos n) h = ground arith
Unsigned-two (negsuc n) h = elim h [ ]

-- A number is read from the bytes that it is stored as.
read-stored :
    (env : Env) (type : ParamType) (n : ℤ)
    → HasValue type n
    → new_lwm_object_from_type_value env type (some (stored type n)) ≡ ok (int_object n)
unfolding new_lwm_object_from_type_value HasValue load to_bytes
read-stored env p_int8 n h =
    ap ok (signed_number 1 256 n (from-to_one (residue 256 n) (below_one n)) (Signed-one n h))
read-stored env p_uint8 n h =
    ap ok (unsigned_number 1 256 n (from-to_one (residue 256 n) (below_one n)) (Unsigned-one n h))
read-stored env p_int16 n h =
    ap ok (signed_number 2 65536 n (from-to_two (residue 65536 n) (below_two n)) (Signed-two n h))
read-stored env p_uint16 n h =
    ap ok
      (unsigned_number 2 65536 n (from-to_two (residue 65536 n) (below_two n)) (Unsigned-two n h))
read-stored env p_int32 n h = ap ok (
    signed_number 4 4294967296 n (from-to_four (residue 4294967296 n) (below_four n))
      (Signed-four n h))
read-stored env p_uint32 n h = ap ok (
    signed_number 4 4294967296 n (from-to_four (residue 4294967296 n) (below_four n))
      (Signed-four n h))
read-stored env p_float n h = elim h [ ]
read-stored env p_double n h = elim h [ ]
read-stored env p_string n h = elim h [ ]
read-stored env p_unknown n h = elim h [ ]

set_number-stored :
    (param : Parameter) (old : Bytes) (str : Text) (n : ℤ) (size m : ℕ)
    → param.value ≡ some old
    → param.value_size ≡ size
    → atol str ≡ ok n
    → (do k ← atol str; copy_value param (decimal_bytes size m k))
      ≡ ok (record param { value = some (decimal_bytes size m n) })
set_number-stored param old str n size m e l a =
    ap (λ r. r >>= (λ k. copy_value param (decimal_bytes size m k))) a
    ∙ copy_value-sized param (decimal_bytes size m n) old e
        (l ∙ sym (length-to_bytes size (residue m n)))

-- Storing a number of the parameter's type.
set-stored :
    (env : Env) (param : Parameter) (old : Bytes) (str : Text) (n : ℤ) (type : ParamType)
    → param.value ≡ some old
    → param.value_size ≡ size_of type
    → atol str ≡ ok n
    → HasValue type n
    → set_by_type env param type str ≡ ok (record param { value = some (stored type n) })
unfolding set_by_type HasValue
set-stored env param old str n p_int8 e l a h = set_number-stored param old str n 1 256 e l a
set-stored env param old str n p_uint8 e l a h = set_number-stored param old str n 1 256 e l a
set-stored env param old str n p_int16 e l a h = set_number-stored param old str n 2 65536 e l a
set-stored env param old str n p_uint16 e l a h = set_number-stored param old str n 2 65536 e l a
set-stored env param old str n p_int32 e l a h =
    set_number-stored param old str n 4 4294967296 e l a
set-stored env param old str n p_uint32 e l a h =
    set_number-stored param old str n 4 4294967296 e l a
set-stored env param old str n p_float e l a h = elim h [ ]
set-stored env param old str n p_double e l a h = elim h [ ]
set-stored env param old str n p_string e l a h = elim h [ ]
set-stored env param old str n p_unknown e l a h = elim h [ ]

-- A parameter of a whole type, whose value has the type's size, set by a text whose number is in the
-- range of the type, or of `int32_t` where the type is `uint32_t` (a negative number then, too): it
-- keeps all but its value, and the object made of its value has that number.
pub new_lwm_object_from_type_value-parameter_set_by_string :
    (env : Env) (param : Parameter) (old : Bytes) (str : Text) (n : ℤ)
    → param.value ≡ some old
    → param.value_size ≡ size_of param.type
    → atol str ≡ ok n
    → HasValue param.type n
    → (bytes : Bytes) × (parameter_set_by_string env param str
        ≡ ok (record param { value = some bytes }))
      × (new_lwm_object_from_type_value env param.type (some bytes) ≡ ok (int_object n))
unfolding parameter_set_by_string
new_lwm_object_from_type_value-parameter_set_by_string env param old str n e l a h = (
  stored param.type n,
  set-stored env param old str n param.type e l a h,
  read-stored env param.type n h,
)
