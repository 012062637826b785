-- ===== src/Sifw/Parse/RoundTrip.antt =====
-- A lightweight message through the serialiser and the parser.
use io_tware.Common.{
  ℕ, suc, ◌+◌, ◌-◌, ◌%◌, ◌<◌, ◌==◌, ◌≡◌, refl, sym, Bool, true, false, some, [], ◌∷◌, ◌++◌, ap, ◌∙◌,
  length, arith,
}
use io_tware.Sifw.Text.{Text, is_space, is_graph, is_token, lbrace, rbrace}
use io_tware.Sifw.Object.{Fields, no_fields, field, fields_length, LwMessage}
use io_tware.Sifw.Wire.{fields_to-le, AreFields, fields_to, mirror_fields}
use io_tware.Sifw.Serialize.{serialize_dictionary, serialize_message}
use io_tware.Sifw.Serialize.Printed.{serialize_dictionary-printed, fields_to-append}
use io_tware.Sifw.Parse.{
  ok, advance, header_openable, body_openable, neither, message_refusals, enough, dict_loop,
  message_loop, finish, empty_message, parse_message,
}
use io_tware.Sifw.Parse.Entries.{dict_loop-printed}

-- The message with every list turned round.
unfoldable pub mirror_message : LwMessage → LwMessage
mirror_message msg = record {
  header = mirror_fields msg.header no_fields;
  body = mirror_fields msg.body no_fields;
}

lbrace-message : (is_space lbrace ≡ false) × (is_token lbrace message_refusals ≡ false)
unfolding is_space is_token is_graph
lbrace-message = (refl, refl)

opened :
    (fs : Fields) (rest : Text)
    → AreFields fs
    → dict_loop (enough (fields_to fs (rbrace ∷ rest))) (fields_to fs (rbrace ∷ rest)) no_fields
      ≡ ok (true, mirror_fields fs no_fields, rbrace ∷ rest)
opened fs rest h = dict_loop-printed fs rest (enough (fields_to fs (rbrace ∷ rest))) h (omega arith)

message_loop-header :
    (fs : Fields) (rest : Text) (f : ℕ) (flag : Bool)
    → AreFields fs
    → message_loop
        (suc f)
        header_openable
        flag
        empty_message
        (lbrace ∷ fields_to fs (rbrace ∷ rest))
      ≡ message_loop f body_openable true
          (record { header = mirror_fields fs no_fields; body = no_fields })
          rest
unfolding message_loop advance
message_loop-header fs rest f flag h = rw (lbrace-message.0, lbrace-message.1, opened fs rest h)

message_loop-body :
    (gs fs : Fields) (rest : Text) (f : ℕ) (flag : Bool)
    → AreFields fs
    → message_loop
        (suc f)
        body_openable
        flag
        (record { header = gs; body = no_fields })
        (lbrace ∷ fields_to fs (rbrace ∷ rest))
      ≡ message_loop f neither true (record { header = gs; body = mirror_fields fs no_fields }) rest
unfolding message_loop advance
message_loop-body gs fs rest f flag h = rw (lbrace-message.0, lbrace-message.1, opened fs rest h)

-- The text of a message that is printed by hand.
header_only :
    (fs : Fields)
    → AreFields fs
    → parse_message (lbrace ∷ fields_to fs (rbrace ∷ []))
      ≡ ok (some (record { header = mirror_fields fs no_fields; body = no_fields }))
unfolding parse_message finish
header_only fs h =
    let p = fields_to fs (rbrace ∷ []) in
    let e : length p + 2 ≡ suc (suc (length p)) = omega arith in
    rw (e, message_loop-header fs [] (suc (length p)) false h)

with_body :
    (fs gs : Fields)
    → AreFields fs
    → AreFields gs
    → parse_message (lbrace ∷ fields_to fs (rbrace ∷ lbrace ∷ fields_to gs (rbrace ∷ [])))
      ≡ ok
          (some (record { header = mirror_fields fs no_fields; body = mirror_fields gs no_fields }))
unfolding parse_message finish
with_body fs gs h h' =
    let rest = lbrace ∷ fields_to gs (rbrace ∷ []) in
    let p = fields_to fs (rbrace ∷ rest) in
    let e : length p + 2 ≡ suc (suc (suc (length p - 1))) =
      omega (arith, fields_to-le fs (rbrace ∷ rest)) in
    rw (
      e,
      message_loop-header fs rest (suc (suc (length p - 1))) false h,
      message_loop-body (mirror_fields fs no_fields) gs [] (suc (length p - 1)) true h',
    )

printed_message :
    (fs gs : Fields)
    → AreFields fs
    → AreFields gs
    → fields_length gs < 256
    → parse_message (serialize_message (record { header = fs; body = gs }))
      ≡ ok
          (some (record { header = mirror_fields fs no_fields; body = mirror_fields gs no_fields }))
unfolding serialize_message mirror_fields
printed_message fs no_fields h h' few =
    ap parse_message (serialize_dictionary-printed fs h) ∙ header_only fs h
printed_message fs (field k v gs) h h' few =
    let e : ((fields_length (field k v gs) % 256) == 0) ≡ false = ground arith in
    rw e (
      ap parse_message (
        ap (λ t. t ++ serialize_dictionary (field k v gs)) (serialize_dictionary-printed fs h)
        ∙ ap (λ t. lbrace ∷ (fields_to fs (rbrace ∷ []) ++ t))
            (serialize_dictionary-printed (field k v gs) h')
        ∙ ap (λ t. lbrace ∷ t)
            (sym (
              fields_to-append fs (rbrace ∷ []) (lbrace ∷ fields_to (field k v gs) (rbrace ∷ [])))))
      ∙ with_body fs (field k v gs) h h')

-- A message whose texts consist of plain characters and are not empty, whose dictionaries do not
-- hold a key twice, and in which no dictionary is the value of a key (one can stand in an array),
-- arrives with the same entries, those of each list in the opposite order, if its body has fewer
-- than 256 entries.
pub parse-serialize :
    (msg : LwMessage)
    → AreFields msg.header
    → AreFields msg.body
    → fields_length msg.body < 256
    → parse_message (serialize_message msg) ≡ ok (some (mirror_message msg))
unfolding mirror_message
parse-serialize msg h h' few = printed_message msg.header msg.body h h' few
