-- ===== src/Dcfw/Attributes.antt =====
-- The attribute lists of iw_fw_collabomsg_internal.c. An array behind a pointer is the list of its
-- elements, `[]` for NULL, and an element past its end is `undefined`.
pub mod Counts
pub mod Plain
pub mod Values
use io_tware.Common.{
  ℕ, zero, suc, ◌+◌, ◌*◌, ◌/◌, ◌%◌, ◌^◌, Bool, true, false, List, [], ◌∷◌, map, Bytes, Calloc, read,
  write, length, take, Exec, ok, undefined, ◌>>=◌, ltb, leb, ◌==◌, if◌then◌else◌,
}
use io_tware.Dcfw.Layout.{byte_6_2, byte_at}

-- `size_t` has 32 bits on the boards.
abbrev pub size_t : ℕ → ℕ
size_t n = n % 2 ^ 32

-- `struct CMAttributePayload`
pub record CmAttributePayload : Type 0 where
  pub attribute_id : ℕ
  pub value_length : ℕ

-- `struct CMAttributeValuePayload`
pub record CmAttributeValuePayload : Type 0 where
  pub attribute_id : ℕ
  pub value_length : ℕ
  pub values : Bytes

abbrev pub attribute_byte : CmAttributePayload → ℕ
attribute_byte a = byte_6_2 a.attribute_id a.value_length

abbrev pub value_byte : CmAttributeValuePayload → ℕ
value_byte v = byte_6_2 v.attribute_id v.value_length

-- `cm_attribute_real_attr_count`, of a `uint8_t`.
unfoldable pub real_attr_count : ℕ → ℕ
real_attr_count packed_count = packed_count % 256 + 1

-- `cm_attribute_packed_attr_count`, to a `uint8_t`.
unfoldable pub packed_attr_count : ℕ → ℕ
packed_attr_count real_count = (real_count + 255) % 256

-- The rounds left, and `rtn`.
unfoldable pub value_length_loop : ℕ → ℕ → ℕ
value_length_loop zero rtn = rtn
value_length_loop (suc rounds) rtn = value_length_loop rounds (size_t (rtn * 2))

-- `cm_attribute_real_value_length`
unfoldable pub real_value_length : ℕ → ℕ
unfolding value_length_loop
real_value_length packed_length = value_length_loop packed_length 1

-- `cm_attribute_packed_value_length`
unfoldable pub packed_value_length : ℕ → ℕ
packed_value_length real_length =
    if real_length == 8
    then 3
    else if real_length == 4
    then 2
    else if real_length == 2
    then 1
    else 0

unfoldable pub attributes_serialize_size : ℕ → ℕ
attributes_serialize_size count = size_t (1 * count)

-- `memcpy(dest, msg, cm_attributes_serialize_size(count))`, with `dest` at `off` in `buf`.
unfoldable pub attributes_serialize : List CmAttributePayload → ℕ → ℕ → Bytes → Exec Bytes
attributes_serialize msg count off buf =
    if ltb 0 count
    then (if leb count (length msg)
        then write off (map attribute_byte (take count msg)) buf
        else undefined)
    else ok buf

-- The first loop of `cm_attribute_values_serialize_size`.
unfoldable pub values_size_loop : List CmAttributeValuePayload → ℕ → ℕ → Exec ℕ
values_size_loop msg zero size = ok size
values_size_loop [] (suc rounds) size = undefined
values_size_loop (v ∷ msg) (suc rounds) size =
    values_size_loop msg rounds (size_t (size + real_value_length v.value_length))

unfoldable pub attribute_values_serialize_size : List CmAttributeValuePayload → ℕ → Exec ℕ
attribute_values_serialize_size msg count = do
  size ← values_size_loop msg count 0
  ok (size_t (size + size_t (1 * count)))

unfoldable pub values_serialize_loop : List CmAttributeValuePayload → ℕ → ℕ → Bytes → Exec Bytes
values_serialize_loop msg zero pt buf = ok buf
values_serialize_loop [] (suc rounds) pt buf = undefined
values_serialize_loop (v ∷ msg) (suc rounds) pt buf = do
  buf₁ ← write pt (value_byte v ∷ []) buf
  (values, _) ← read (real_value_length v.value_length) v.values
  buf₂ ← write (pt + 1) values buf₁
  values_serialize_loop msg rounds (pt + 1 + real_value_length v.value_length) buf₂

-- `cm_attribute_values_serialize`, with `dest` at `off` in `buf`. Its local `size` is not used
-- afterwards.
unfoldable pub attribute_values_serialize :
    List CmAttributeValuePayload → ℕ → ℕ → Bytes → Exec Bytes
attribute_values_serialize msg count off buf =
    if ltb 0 count
    then (do
      size ← attribute_values_serialize_size msg count
      values_serialize_loop msg count off buf)
    else ok buf

abbrev pub load_attribute : ℕ → CmAttributePayload
load_attribute b = record { attribute_id = b % 64; value_length = b / 64 % 4 }

unfoldable pub attributes_parse_loop : ℕ → Bytes → Exec (List CmAttributePayload)
attributes_parse_loop zero pt = ok []
attributes_parse_loop (suc rounds) pt = do
  (b, pt') ← read 1 pt
  rest ← attributes_parse_loop rounds pt'
  ok (load_attribute (byte_at b 0) ∷ rest)

-- `cm_attributes_parse`; its `calloc` is the `k`-th of the caller, and is not tested, so that the
-- loop then writes through NULL.
unfoldable pub attributes_parse : Calloc → ℕ → Bytes → ℕ → ℕ → Exec (List CmAttributePayload)
attributes_parse calloc k msg size attr_count =
    if leb 1 size
    then (if calloc k (real_attr_count attr_count)
        then attributes_parse_loop (real_attr_count attr_count) msg
        else undefined)
    else ok []

abbrev pub load_value : ℕ → Bytes → CmAttributeValuePayload
load_value b vs = record { attribute_id = b % 64; value_length = b / 64 % 4; values = vs }

-- `k` counts the calls of `calloc`. Where one fails, `values` stays NULL and `pt` stays.
unfoldable pub values_parse_loop : Calloc → ℕ → ℕ → Bytes → Exec (List CmAttributeValuePayload)
values_parse_loop calloc k zero pt = ok []
values_parse_loop calloc k (suc rounds) pt = do
  (b, pt₁) ← read 1 pt
  let size = real_value_length (byte_at b 0 / 64 % 4)
  elim (calloc k size) [
    | true ↦ do
      (vs, pt₂) ← read size pt₁
      rest ← values_parse_loop calloc (k + 1) rounds pt₂
      ok (load_value (byte_at b 0) vs ∷ rest)
    | false ↦ do
      rest ← values_parse_loop calloc (k + 1) rounds pt₁
      ok (load_value (byte_at b 0) [] ∷ rest)
  ]

-- `cm_attribute_values_parse`. An element has one byte and a pointer of four.
unfoldable pub attribute_values_parse :
    Calloc → ℕ → Bytes → ℕ → ℕ → Exec (List CmAttributeValuePayload)
attribute_values_parse calloc k msg size attr_count =
    if leb 1 size
    then (if calloc k (real_attr_count attr_count * 5)
        then values_parse_loop calloc (k + 1) (real_attr_count attr_count) msg
        else ok [])
    else ok []
