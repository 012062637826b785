-- ===== src/Sifw/Serialize/Printed.antt =====
-- The serialiser against the independent printer of Sifw/Wire.antt.
use io_tware.Common.{
  ℕ, ◌<◌, ◌≡◌, refl, sym, none, some, [], ◌∷◌, ◌++◌, append_assoc, append-nil, ap, ◌∙◌, length,
  length-append, lt→ltb, arith,
}
use io_tware.Sifw.Text.{Text, lbrace, rbrace, lbrack, rbrack, equals, semicolon, comma}
use io_tware.Sifw.Object.{
  LwmObject, number, string, array, dict, Items, no_items, item, Fields, no_fields, field,
}
use io_tware.Sifw.Wire.{
  IsToken, emit_to, items_to, more_items_to, fields_to, more_fields_to, AreItems, items_end,
  items_cons, IsItem, item_text, item_array, item_dict, IsValue, value_text, value_array, AreFields,
  fields_end, fields_cons,
}
use io_tware.Sifw.Serialize.{
  append_part, kvo_text, serialize_object, write_items, write_fields, serialize_dictionary,
}

mutual
  unfolding emit_to

  emit_append : (v : LwmObject) (a b : Text) → emit_to v (a ++ b) ≡ emit_to v a ++ b
  emit_append (number n) a b = refl
  emit_append (string none) a b = refl
  emit_append (string (some s)) a b = sym (append_assoc s a b)
  emit_append (array xs) a b = ap (λ t. lbrack ∷ t) (items_append xs (rbrack ∷ a) b)
  emit_append (dict fs) a b = ap (λ t. lbrace ∷ t) (fields_append fs (rbrace ∷ a) b)

  items_append : (xs : Items) (a b : Text) → items_to xs (a ++ b) ≡ items_to xs a ++ b
  items_append no_items a b = refl
  items_append (item v xs) a b =
      ap (emit_to v) (more_items_append xs a b) ∙ emit_append v (more_items_to xs a) b

  more_items_append :
      (xs : Items) (a b : Text) → more_items_to xs (a ++ b) ≡ more_items_to xs a ++ b
  more_items_append no_items a b = refl
  more_items_append (item v xs) a b =
      ap (λ t. comma ∷ t)
        (ap (emit_to v) (more_items_append xs a b) ∙ emit_append v (more_items_to xs a) b)

  fields_append : (fs : Fields) (a b : Text) → fields_to fs (a ++ b) ≡ fields_to fs a ++ b
  fields_append no_fields a b = refl
  fields_append (field k v fs) a b =
      ap (λ t. k ++ (equals ∷ t))
        (ap (emit_to v) (more_fields_append fs a b) ∙ emit_append v (more_fields_to fs a) b)
      ∙ sym (append_assoc k (equals ∷ emit_to v (more_fields_to fs a)) b)

  more_fields_append :
      (fs : Fields) (a b : Text) → more_fields_to fs (a ++ b) ≡ more_fields_to fs a ++ b
  more_fields_append no_fields a b = refl
  more_fields_append (field k v fs) a b =
      ap (λ t. semicolon ∷ (k ++ (equals ∷ t)))
        (ap (emit_to v) (more_fields_append fs a b) ∙ emit_append v (more_fields_to fs a) b)
      ∙ ap (λ t. semicolon ∷ t) (sym (append_assoc k (equals ∷ emit_to v (more_fields_to fs a)) b))

-- A part goes behind a separator, or first.
append_part-more :
    (sep : ℕ) (str temp : Text)
    → 1 < length str
    → append_part sep str (some temp) ≡ str ++ (sep ∷ temp)
unfolding append_part
append_part-more sep str temp h = rw (lt→ltb 1 (length str) h)

append_part-first : (sep c : ℕ) (temp : Text) → append_part sep (c ∷ []) (some temp) ≡ c ∷ temp
unfolding append_part
append_part-first sep c temp = refl

token-length : (s : Text) → IsToken s → 0 < length s
token-length [] h = elim h [ ]
token-length (c ∷ s) h = omega arith

emit-length : (v : LwmObject) → IsItem v → 0 < length (emit_to v [])
unfolding emit_to
emit-length (string (some s)) (item_text h) = omega (arith, length-append s [], token-length s h)
emit-length (array xs) (item_array h) = omega arith
emit-length (dict fs) (item_dict h) = omega arith
emit-length (number n) h = elim h [ ]
emit-length (string none) h = elim h [ ]

mutual
  unfolding emit_to serialize_object kvo_text

  item_printed : (v : LwmObject) → IsItem v → serialize_object v ≡ some (emit_to v [])
  item_printed (string (some s)) (item_text h) = ap some (sym (append-nil s))
  item_printed (array xs) (item_array h) =
      ap (λ t. some (t ++ (rbrack ∷ []))) (array_printed xs h)
      ∙ ap (λ t. some (lbrack ∷ t)) (sym (items_append xs [] (rbrack ∷ [])))
  item_printed (dict fs) (item_dict h) =
      ap (λ t. some (t ++ (rbrace ∷ []))) (dict_printed fs h)
      ∙ ap (λ t. some (lbrace ∷ t)) (sym (fields_append fs [] (rbrace ∷ [])))
  item_printed (number n) h = elim h [ ]
  item_printed (string none) h = elim h [ ]

  value_printed : (v : LwmObject) → IsValue v → serialize_object v ≡ some (emit_to v [])
  value_printed (string (some s)) (value_text h) = ap some (sym (append-nil s))
  value_printed (array xs) (value_array h) =
      ap (λ t. some (t ++ (rbrack ∷ []))) (array_printed xs h)
      ∙ ap (λ t. some (lbrack ∷ t)) (sym (items_append xs [] (rbrack ∷ [])))
  value_printed (number n) h = elim h [ ]
  value_printed (string none) h = elim h [ ]
  value_printed (dict fs) h = elim h [ ]

  array_printed :
      (xs : Items) → AreItems xs → write_items xs (lbrack ∷ []) ≡ lbrack ∷ items_to xs []
  array_printed no_items items_end = refl
  array_printed (item v xs) (items_cons hv h) =
      ap (λ t. write_items xs (append_part comma (lbrack ∷ []) t)) (item_printed v hv)
      ∙ ap (write_items xs) (append_part-first comma lbrack (emit_to v []))
      ∙ items_printed xs (lbrack ∷ emit_to v []) h (omega (arith, emit-length v hv))
      ∙ ap (λ t. lbrack ∷ t) (sym (emit_append v [] (more_items_to xs [])))

  items_printed :
      (xs : Items) (str : Text)
      → AreItems xs
      → 1 < length str
      → write_items xs str ≡ str ++ more_items_to xs []
  items_printed no_items str items_end l = sym (append-nil str)
  items_printed (item v xs) str (items_cons hv h) l =
      ap (λ t. write_items xs (append_part comma str t)) (item_printed v hv)
      ∙ ap (write_items xs) (append_part-more comma str (emit_to v []) l)
      ∙ items_printed xs (str ++ (comma ∷ emit_to v [])) h
          (omega (arith, length-append str (comma ∷ emit_to v [])))
      ∙ append_assoc str (comma ∷ emit_to v []) (more_items_to xs [])
      ∙ ap (λ t. str ++ (comma ∷ t)) (sym (emit_append v [] (more_items_to xs [])))

  dict_printed :
      (fs : Fields) → AreFields fs → write_fields fs (lbrace ∷ []) ≡ lbrace ∷ fields_to fs []
  dict_printed no_fields fields_end = refl
  dict_printed (field k v fs) (fields_cons hk hv ab h) =
      let text = k ++ (equals ∷ emit_to v []) in
      ap (λ t. write_fields fs (append_part semicolon (lbrace ∷ []) (kvo_text k t)))
        (value_printed v hv)
      ∙ ap (write_fields fs) (append_part-first semicolon lbrace text)
      ∙ fields_printed fs (lbrace ∷ text) h (omega (arith, length-append k (equals ∷ emit_to v [])))
      ∙ ap (λ t. lbrace ∷ t) (append_assoc k (equals ∷ emit_to v []) (more_fields_to fs []))
      ∙ ap (λ t. lbrace ∷ (k ++ (equals ∷ t))) (sym (emit_append v [] (more_fields_to fs [])))

  fields_printed :
      (fs : Fields) (str : Text)
      → AreFields fs
      → 1 < length str
      → write_fields fs str ≡ str ++ more_fields_to fs []
  fields_printed no_fields str fields_end l = sym (append-nil str)
  fields_printed (field k v fs) str (fields_cons hk hv ab h) l =
      let text = k ++ (equals ∷ emit_to v []) in
      ap (λ t. write_fields fs (append_part semicolon str (kvo_text k t))) (value_printed v hv)
      ∙ ap (write_fields fs) (append_part-more semicolon str text l)
      ∙ fields_printed fs (str ++ (semicolon ∷ text)) h
          (omega (arith, length-append str (semicolon ∷ text)))
      ∙ append_assoc str (semicolon ∷ text) (more_fields_to fs [])
      ∙ ap (λ t. str ++ (semicolon ∷ t))
          (append_assoc k (equals ∷ emit_to v []) (more_fields_to fs [])
            ∙ ap (λ t. k ++ (equals ∷ t)) (sym (emit_append v [] (more_fields_to fs []))))

-- What a dictionary looks like.
pub serialize_dictionary-printed :
    (fs : Fields) → AreFields fs → serialize_dictionary fs ≡ lbrace ∷ fields_to fs (rbrace ∷ [])
unfolding serialize_dictionary
serialize_dictionary-printed fs h =
    ap (λ t. t ++ (rbrace ∷ [])) (dict_printed fs h)
    ∙ ap (λ t. lbrace ∷ t) (sym (fields_append fs [] (rbrace ∷ [])))

pub fields_to-append : (fs : Fields) (a b : Text) → fields_to fs (a ++ b) ≡ fields_to fs a ++ b
fields_to-append = fields_append
