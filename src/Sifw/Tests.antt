-- ===== src/Sifw/Tests.antt =====
-- Concrete messages of the lightweight message format.
use io_tware.Common.{
  ℕ, ◌≤◌, ◌≡◌, refl, inl, true, false, some, [], ◌∷◌, ◌++◌, arith, if◌then◌else◌, ltb, ◌/◌,
}
use io_tware.Sifw.Text.{Text, text_eq, lbrace, rbrace, equals, semicolon}
use io_tware.Sifw.Object.{
  uint16, uint32, uint8, string, array, dict, no_items, item, Fields, no_fields, field, get_object,
  set_object, LwMessage,
}
use io_tware.Sifw.Wire.{
  Plain, IsToken, items_end, items_cons, item_text, item_dict, value_text, value_array, AreFields,
  fields_end, fields_cons, fields_to, mirror_fields,
}
use io_tware.Sifw.Serialize.{
  serialize_message, serialize_number, decimal, serialize_dictionary, write_fields, write_items,
  serialize_object, append_part, kvo_text,
}
use io_tware.Sifw.Parse.{ok, undefined, parse_message}
use io_tware.Sifw.Parse.Ends.{Ends}
use io_tware.Sifw.Parse.Fuel.{TidyParsed, parse_message-Ends}
use io_tware.Sifw.Reception.{receive}
use io_tware.Sifw.Reception.Sent.{receive-serialize}
use io_tware.Sifw.Parse.RoundTrip.{mirror_message, parse-serialize}
use io_tware.Sifw.Dictionary.{Distinct, set-map}
use io_tware.Sifw.Numbers.{sent_value}
use io_tware.Sifw.Faults.{parse-unterminated, parse-nested, serialize_number-unsigned}

letter : (c : ℕ) → 97 ≤ c → c ≤ 122 → Plain c
letter c a b = record {
  low = omega arith;
  high = omega arith;
  not_lbrace = omega arith;
  not_rbrace = omega arith;
  not_lbrack = omega arith;
  not_rbrack = omega arith;
  not_equals = omega arith;
  not_semicolon = omega arith;
  not_comma = omega arith;
}

abbrev id : Text
id = b'i' ∷ b'd' ∷ []

abbrev on : Text
on = b'o' ∷ b'n' ∷ []

id-IsToken : IsToken id
id-IsToken =
    (letter b'i' (omega arith) (omega arith), (letter b'd' (omega arith) (omega arith), tt))

on-IsToken : IsToken on
on-IsToken =
    (letter b'o' (omega arith) (omega arith), (letter b'n' (omega arith) (omega arith), tt))

abbrev inner : Fields
inner = field id (string (some on)) no_fields

inner-AreFields : AreFields inner
inner-AreFields = fields_cons id-IsToken (value_text on-IsToken) tt fields_end

-- `{id=on;on=[id,{id=on}]}{id=on}`
abbrev outer : Fields
outer =
    field id (string (some on))
      (field on (array (item (string (some id)) (item (dict inner) no_items))) no_fields)

id-on : text_eq id on ≡ false
unfolding text_eq
id-on = refl

outer-AreFields : AreFields outer
outer-AreFields =
    fields_cons id-IsToken (value_text on-IsToken) (id-on, tt)
      (fields_cons on-IsToken
        (value_array
          (items_cons (item_text id-IsToken) (items_cons (item_dict inner-AreFields) items_end)))
        tt fields_end)

abbrev message : LwMessage
message = record { header = outer; body = inner }

parse-serialize_example :
    parse_message (serialize_message message) ≡ ok (some (mirror_message message))
parse-serialize_example = parse-serialize message outer-AreFields inner-AreFields (omega arith)

parse_message-Ends_example :
    Ends TidyParsed (parse_message (lbrace ∷ b'i' ∷ equals ∷ b'o' ∷ rbrace ∷ []))
parse_message-Ends_example = parse_message-Ends (lbrace ∷ b'i' ∷ equals ∷ b'o' ∷ rbrace ∷ [])

set-map_example :
    (get_object (set_object outer on (string (some on))) id
      ≡ (if text_eq on id then some (string (some on)) else get_object outer id))
    × Distinct (set_object outer on (string (some on)))
set-map_example = set-map outer on id (string (some on)) ((id-on, tt), (tt, tt))

parse-unterminated_example : parse_message (lbrace ∷ (id ++ (equals ∷ on))) ≡ undefined
parse-unterminated_example = parse-unterminated id on id-IsToken on-IsToken

parse-nested_example :
    parse_message (lbrace ∷ (id ++ (equals ∷ lbrace ∷ fields_to inner (rbrace ∷ semicolon ∷ on))))
    ≡ ok (
        some (record {
          header = field id (dict (mirror_fields inner no_fields)) no_fields;
          body = no_fields;
        }))
parse-nested_example = parse-nested id on inner semicolon id-IsToken inner-AreFields (inl refl)

serialize_number-unsigned_example :
    ((sent_value (serialize_number (uint8 42)) ≡ some 42)
      × (sent_value (serialize_number (uint16 1234)) ≡ some 1234)
      × (sent_value (serialize_number (uint32 70000)) ≡ some 70000))
    × (serialize_number (uint8 200) ≡ some (decimal (if ltb 200 100 then 200 else 200 / 10)))
serialize_number-unsigned_example =
    serialize_number-unsigned 42 1234 70000 200 (omega arith) (omega arith) (omega arith)
      (omega arith)

receive-serialize_example :
    receive true true (serialize_message message) (record { responses = []; requests = [] })
    ≡ ok (record { responses = []; requests = mirror_message message ∷ [] })
unfolding get_object text_eq serialize_message serialize_dictionary write_fields write_items
    serialize_object append_part kvo_text
receive-serialize_example =
    receive-serialize true true message (record { responses = []; requests = [] }) outer-AreFields
      inner-AreFields (omega arith)
