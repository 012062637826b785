-- ===== src/Sifw/Serialize.antt =====
-- The serialiser of iw_fw_lwMsgUtils.c.
pub mod Printed
use io_tware.Common.{
  ℕ, zero, suc, ◌+◌, ◌-◌, ◌*◌, ◌/◌, ◌%◌, ◌^◌, Bool, true, false, Option, none, some, List, [], ◌∷◌,
  ◌++◌, ltb, leb, ◌==◌, if◌then◌else◌, take, length,
}
use io_tware.Sifw.Text.{Text, lbrace, rbrace, lbrack, rbrack, equals, semicolon, comma}
use io_tware.Sifw.Object.{
  ℤ, pos, negsuc, LwmNumber, unset, int8, int16, int32, uint8, uint16, uint32, float, double,
  LwmObject, number, string, array, dict, Items, no_items, item, Fields, no_fields, field,
  field_num, LwMessage,
}

-- The decimal digits of `n` in front of `acc`; a 32-bit number has ten at most, so that 20 rounds
-- are enough.
unfoldable pub digits_loop : ℕ → ℕ → Text → Text
digits_loop zero n acc = acc
digits_loop (suc rounds) n acc =
    let more = digits_loop rounds (n / 10) ((48 + n % 10) ∷ acc) in
    if n / 10 == 0 then (48 + n % 10) ∷ acc else more

unfoldable pub decimal : ℕ → Text
unfolding digits_loop
decimal n = digits_loop 20 n []

-- `%d` and `%ld`
unfoldable pub decimal_signed : ℤ → Text
unfolding decimal
decimal_signed (pos n) = decimal n
decimal_signed (negsuc n) = b'-' ∷ decimal (n + 1)

-- `snprintf(str, size, …)` keeps `size - 1` characters.
unfoldable pub snprintf : ℕ → Text → Text
snprintf size text = take (size - 1) text

-- A `uint32_t` given to `%ld`, where `long` has 32 bits.
unfoldable pub as_long : ℕ → ℤ
as_long n = if ltb n (2 ^ 31) then pos n else negsuc (2 ^ 32 - n - 1)

-- C's `%`, whose result has the sign of the dividend.
unfoldable pub rem100 : ℤ → ℤ
rem100 (pos n) = pos (n % 100)
rem100 (negsuc n) = let r = (n + 1) % 100 in if r == 0 then pos 0 else negsuc (r - 1)

-- `"%d.%d"`
unfoldable pub decimal_float : ℤ → ℤ → Text
unfolding decimal_signed rem100
decimal_float whole hundredths = decimal_signed whole ++ (b'.' ∷ decimal_signed (rem100 hundredths))

unfoldable pub serialize_number : LwmNumber → Option Text
unfolding decimal decimal_signed decimal_float snprintf as_long
serialize_number unset = none
serialize_number (int32 n) = some (snprintf 11 (decimal_signed n))
serialize_number (uint32 n) = some (snprintf 10 (decimal_signed (as_long n)))
serialize_number (int16 n) = some (snprintf 6 (decimal_signed n))
serialize_number (uint16 n) = some (snprintf 5 (decimal n))
serialize_number (int8 n) = some (snprintf 4 (decimal_signed n))
serialize_number (uint8 n) = some (snprintf 3 (decimal n))
serialize_number (float w h) = some (snprintf 20 (decimal_float w h))
serialize_number (double w h) = some (snprintf 20 (decimal_float w h))

-- One round of the loops of `serialize_lwm_array` and `serialize_lwm_dictionary`: a separator if
-- something follows the bracket already, then the text; NULL is passed over.
unfoldable pub append_part : ℕ → Text → Option Text → Text
append_part sep str none = str
append_part sep str (some temp) = if ltb 1 (length str) then str ++ (sep ∷ temp) else str ++ temp

-- `serialize_lwm_kvo`, of the value's text.
unfoldable pub kvo_text : Text → Option Text → Option Text
kvo_text key none = none
kvo_text key (some value) = some (key ++ (equals ∷ value))

unfoldable mutual
  -- `serialize_lwm_object`
  pub serialize_object : LwmObject → Option Text
  serialize_object (number n) = serialize_number n
  serialize_object (string s) = s
  serialize_object (array xs) = some (write_items xs (lbrack ∷ []) ++ (rbrack ∷ []))
  serialize_object (dict fs) = some (write_fields fs (lbrace ∷ []) ++ (rbrace ∷ []))

  -- The loop of `serialize_lwm_array`, with `str` so far.
  pub write_items : Items → Text → Text
  write_items no_items str = str
  write_items (item v xs) str = write_items xs (append_part comma str (serialize_object v))

  -- The loop of `serialize_lwm_dictionary`, with `serialize_lwm_kvo` in it.
  pub write_fields : Fields → Text → Text
  write_fields no_fields str = str
  write_fields (field k v fs) str =
      write_fields fs (append_part semicolon str (kvo_text k (serialize_object v)))

unfoldable pub serialize_dictionary : Fields → Text
unfolding write_fields
serialize_dictionary fs = write_fields fs (lbrace ∷ []) ++ (rbrace ∷ [])

-- Whether the 8-bit count of the nodes is 0.
abbrev pub is_empty : Fields → Bool
is_empty fs = field_num fs == 0

-- `serialize_lwm_message`: the body only if its count is not 0.
unfoldable pub serialize_message : LwMessage → Text
unfolding serialize_dictionary
serialize_message msg =
    if is_empty msg.body
    then serialize_dictionary msg.header
    else serialize_dictionary msg.header ++ serialize_dictionary msg.body
