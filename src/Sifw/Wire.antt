-- ===== src/Sifw/Wire.antt =====
-- The objects that the text form carries, and what they look like in it, independently of the
-- loops of iw_fw_lwMsgUtils.c.
use io_tware.Common.{
  ℕ, ◌≤◌, ◌≡◌, ◌≢◌, false, none, some, [], ◌∷◌, ◌++◌, All, length, length-append, arith,
}
use io_tware.Sifw.Text.{Text, text_eq, lbrace, rbrace, lbrack, rbrack, equals, semicolon, comma}
use io_tware.Sifw.Object.{
  LwmObject, number, string, array, dict, Items, no_items, item, Fields, no_fields, field,
}

-- A printing character that the grammar does not use.
pub record Plain (c : ℕ) : Type 0 where
  pub low : 33 ≤ c
  pub high : c ≤ 126
  pub not_lbrace : c ≢ lbrace
  pub not_rbrace : c ≢ rbrace
  pub not_lbrack : c ≢ lbrack
  pub not_rbrack : c ≢ rbrack
  pub not_equals : c ≢ equals
  pub not_semicolon : c ≢ semicolon
  pub not_comma : c ≢ comma

-- A text of such characters, with one at least.
abbrev pub IsToken : Text → Type 0
IsToken [] = ⊥
IsToken (c ∷ s) = Plain c × All Plain s

-- No key of `fs` is `k`.
abbrev pub Absent : Text → Fields → Type 0
Absent k no_fields = Unit
Absent k (field k' v fs) = (text_eq k k' ≡ false) × Absent k fs

-- What can stand in an array; in a dictionary a dictionary cannot stand as a value.
mutual
  pub data IsItem : LwmObject → Type 0 where
    item_text : {s : Text} → IsToken s → IsItem (string (some s))
    item_array : {xs : Items} → AreItems xs → IsItem (array xs)
    item_dict : {fs : Fields} → AreFields fs → IsItem (dict fs)

  pub data IsValue : LwmObject → Type 0 where
    value_text : {s : Text} → IsToken s → IsValue (string (some s))
    value_array : {xs : Items} → AreItems xs → IsValue (array xs)

  pub data AreItems : Items → Type 0 where
    items_end : AreItems no_items
    items_cons : {v : LwmObject} {xs : Items} → IsItem v → AreItems xs → AreItems (item v xs)

  pub data AreFields : Fields → Type 0 where
    fields_end : AreFields no_fields
    fields_cons :
        {k : Text} {v : LwmObject} {fs : Fields}
        → IsToken k
        → IsValue v
        → Absent k fs
        → AreFields fs
        → AreFields (field k v fs)

-- The text of an object in front of `rest`. `items_to` and `fields_to` print from the first entry
-- on, the others from the separator before the next entry on.
unfoldable mutual
  pub emit_to : LwmObject → Text → Text
  emit_to (number n) rest = rest
  emit_to (string none) rest = rest
  emit_to (string (some s)) rest = s ++ rest
  emit_to (array xs) rest = lbrack ∷ items_to xs (rbrack ∷ rest)
  emit_to (dict fs) rest = lbrace ∷ fields_to fs (rbrace ∷ rest)

  pub items_to : Items → Text → Text
  items_to no_items rest = rest
  items_to (item v xs) rest = emit_to v (more_items_to xs rest)

  pub more_items_to : Items → Text → Text
  more_items_to no_items rest = rest
  more_items_to (item v xs) rest = comma ∷ emit_to v (more_items_to xs rest)

  pub fields_to : Fields → Text → Text
  fields_to no_fields rest = rest
  fields_to (field k v fs) rest = k ++ (equals ∷ emit_to v (more_fields_to fs rest))

  pub more_fields_to : Fields → Text → Text
  more_fields_to no_fields rest = rest
  more_fields_to (field k v fs) rest =
      semicolon ∷ (k ++ (equals ∷ emit_to v (more_fields_to fs rest)))

-- An object with every list in it turned round, which is what arrives.
unfoldable mutual
  pub mirror : LwmObject → LwmObject
  mirror (number n) = number n
  mirror (string s) = string s
  mirror (array xs) = array (mirror_items xs no_items)
  mirror (dict fs) = dict (mirror_fields fs no_fields)

  pub mirror_items : Items → Items → Items
  mirror_items no_items acc = acc
  mirror_items (item v xs) acc = mirror_items xs (item (mirror v) acc)

  pub mirror_fields : Fields → Fields → Fields
  mirror_fields no_fields acc = acc
  mirror_fields (field k v fs) acc = mirror_fields fs (field k (mirror v) acc)

mutual
  unfolding emit_to

  emit_to-le : (v : LwmObject) (rest : Text) → length rest ≤ length (emit_to v rest)
  emit_to-le (number n) rest = omega arith
  emit_to-le (string none) rest = omega arith
  emit_to-le (string (some s)) rest = omega (arith, length-append s rest)
  emit_to-le (array xs) rest = omega (arith, items_to-le xs (rbrack ∷ rest))
  emit_to-le (dict fs) rest = omega (arith, fields_to-le fs (rbrace ∷ rest))

  pub items_to-le : (xs : Items) (rest : Text) → length rest ≤ length (items_to xs rest)
  items_to-le no_items rest = omega arith
  items_to-le (item v xs) rest =
      omega (arith, emit_to-le v (more_items_to xs rest), more_items_to-le xs rest)

  more_items_to-le : (xs : Items) (rest : Text) → length rest ≤ length (more_items_to xs rest)
  more_items_to-le no_items rest = omega arith
  more_items_to-le (item v xs) rest =
      omega (arith, emit_to-le v (more_items_to xs rest), more_items_to-le xs rest)

  pub fields_to-le : (fs : Fields) (rest : Text) → length rest ≤ length (fields_to fs rest)
  fields_to-le no_fields rest = omega arith
  fields_to-le (field k v fs) rest = omega (
    arith,
    length-append k (equals ∷ emit_to v (more_fields_to fs rest)),
    emit_to-le v (more_fields_to fs rest),
    more_fields_to-le fs rest,
  )

  more_fields_to-le : (fs : Fields) (rest : Text) → length rest ≤ length (more_fields_to fs rest)
  more_fields_to-le no_fields rest = omega arith
  more_fields_to-le (field k v fs) rest = omega (
    arith,
    length-append k (equals ∷ emit_to v (more_fields_to fs rest)),
    emit_to-le v (more_fields_to fs rest),
    more_fields_to-le fs rest,
  )

pub length-emit_to : (v : LwmObject) (rest : Text) → length rest ≤ length (emit_to v rest)
length-emit_to = emit_to-le

pub length-more_items_to : (xs : Items) (rest : Text) → length rest ≤ length (more_items_to xs rest)
length-more_items_to = more_items_to-le

pub length-more_fields_to :
    (fs : Fields) (rest : Text) → length rest ≤ length (more_fields_to fs rest)
length-more_fields_to = more_fields_to-le
