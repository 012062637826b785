-- ===== src/Sifw/Parse.antt =====
-- The parser of iw_fw_lwMsgUtils.c. A pointer into the text is what is left of it from there; `[]`
-- is the terminating NUL, and to step behind that is `undefined`. Each call and each round of a
-- loop takes a unit of fuel; Parse/Fuel.antt is about how much is enough.
pub mod Scans
pub mod Steps
pub mod Entries
pub mod RoundTrip
pub mod Ends
pub mod Follow
pub mod Fuel
use io_tware.Common.{
  ℕ, zero, suc, ◌+◌, ◌*◌, Bool, true, false, ◌||◌, Option, none, some, List, [], ◌∷◌, ◌++◌, ◌==◌,
  if◌then◌else◌, length,
}
use io_tware.Sifw.Text.{
  Text, is_space, is_token, lbrace, rbrace, lbrack, rbrack, equals, semicolon, comma,
}
use io_tware.Sifw.Object.{
  LwmObject, string, array, dict, Items, no_items, item, Fields, no_fields, delete_fields,
  set_object, add_item, LwMessage,
}

pub data Run {ℓ} (A : Type ℓ) : Type ℓ where
  ok : A → Run A
  undefined : Run A
  out_of_fuel : Run A

infixl 5 ◌>>=◌
abbrev pub ◌>>=◌ {ℓ κ} : {A : Type ℓ} {B : Type κ} → Run A → (A → Run B) → Run B
ok a >>= f = f a
undefined >>= f = undefined
out_of_fuel >>= f = out_of_fuel

-- `++(*p)`
unfoldable pub advance : Text → Run Text
advance [] = undefined
advance (c ∷ p) = ok p

-- `**p == c`
unfoldable pub starts : ℕ → Text → Bool
starts c [] = false
starts c (d ∷ p) = d == c

-- What the parser's two scans end with: the end of the text, a character that is refused, or a
-- text and where `p` stands then.
pub data Scan : Type 0 where
  ended : Scan
  refused : Text → Scan
  found : Text → Text → Scan

-- `start` is NULL, or the text from `start` to `p`.
abbrev pub extend : Option Text → ℕ → Option Text
extend none c = none
extend (some s) c = some (s ++ (c ∷ []))

abbrev pub begin : Option Text → ℕ → Option Text
begin none c = some (c ∷ [])
begin (some s) c = some (s ++ (c ∷ []))

abbrev pub key_stops : Text
key_stops = lbrace ∷ lbrack ∷ rbrack ∷ rbrace ∷ semicolon ∷ comma ∷ []

abbrev pub key_end : Option Text → Text → Scan
key_end none p = refused (equals ∷ p)
key_end (some key) p = found key p

-- The rounds of `_lwm_kvo_parsing` in mode `ePM_KV_Key`.
unfoldable pub key_scan : Option Text → Text → Scan
key_scan start [] = ended
key_scan start (c ∷ p) =
    let rest = key_scan (if is_space c then extend start c else begin start c) p in
    if is_space c
    then rest
    else if is_token c key_stops
    then refused (c ∷ p)
    else if c == equals
    then key_end start p
    else rest

abbrev pub value_refusals : Text
value_refusals = lbrace ∷ lbrack ∷ equals ∷ comma ∷ []

abbrev pub value_stops : Text
value_stops = rbrack ∷ rbrace ∷ semicolon ∷ []

-- Its rounds in mode `ePM_KV_Val`, once `start` is set; `acc` is the text from there.
unfoldable pub value_scan : Text → Text → Scan
value_scan acc [] = ended
value_scan acc (c ∷ p) =
    let rest = value_scan (acc ++ (c ∷ [])) p in
    if is_space c
    then rest
    else if is_token c value_refusals
    then refused (c ∷ p)
    else if is_token c value_stops
    then found acc (c ∷ p)
    else rest

unfoldable pub skip_spaces : Text → Text
skip_spaces [] = []
skip_spaces (c ∷ p) = let rest = skip_spaces p in if is_space c then rest else c ∷ p

-- `LWMKVObject`; a key is NULL if the text ends in it.
pub record Kvo : Type 0 where
  pub key : Option Text
  pub value : LwmObject

abbrev pub KvoResult : Type 0
KvoResult = Option Kvo × Text

abbrev pub ObjectResult : Type 0
ObjectResult = Option LwmObject × Text

-- The end of `_lwm_kvo_parsing` for a value that is a text.
unfoldable pub text_kvo : Text → Scan → KvoResult
text_kvo key ended = (some (record { key = some key; value = string none }), [])
text_kvo key (refused p) = (none, p)
text_kvo key (found value p) = (some (record { key = some key; value = string (some value) }), p)

-- The same for a nested object, NULL if that failed.
unfoldable pub object_kvo : Text → Run ObjectResult → Run KvoResult
object_kvo key (ok (none, p)) = ok (none, p)
object_kvo key (ok (some v, p)) = ok (some (record { key = some key; value = v }), p)
object_kvo key undefined = undefined
object_kvo key out_of_fuel = out_of_fuel

-- The end of `_lwm_new_dict_parsing`.
unfoldable pub as_dict : Run (Bool × Fields × Text) → Run ObjectResult
as_dict (ok (true, fs, p)) = ok (some (dict fs), p)
as_dict (ok (false, fs, p)) = ok (none, p)
as_dict undefined = undefined
as_dict out_of_fuel = out_of_fuel

-- The end of `_lwm_new_array_parsing`.
unfoldable pub as_array : Run (Bool × Items × Text) → Run ObjectResult
as_array (ok (true, xs, p)) = ok (some (array xs), p)
as_array (ok (false, xs, p)) = ok (none, p)
as_array undefined = undefined
as_array out_of_fuel = out_of_fuel

-- A node with no key is lost to `get_object`; the text has ended then, and the caller's next step
-- is undefined.
unfoldable pub store : Kvo → Fields → Fields
unfolding set_object
store e fs = elim e.key [ none ↦ fs | some key ↦ set_object fs key e.value ]

-- `mode` in `_lwm_new_array_parsing`: `ePM_Openable`, `ePM_Dict` or `ePM_Array`, and `ePM_KV_Val`
-- with the text from `start`.
pub data ArrayMode : Type 0 where
  openable closed : ArrayMode
  in_value : Text → ArrayMode

abbrev pub first_refusals : Text
first_refusals = rbrack ∷ rbrace ∷ semicolon ∷ equals ∷ comma ∷ []

abbrev pub item_refusals : Text
item_refusals = rbrace ∷ semicolon ∷ equals ∷ []

unfoldable mutual
  unfolding delete_fields

  -- The loop of `_lwm_dict_parsing`; the result is `bFlag`, the dictionary and `p`.
  pub dict_loop : ℕ → Text → Fields → Run (Bool × Fields × Text)
  dict_loop zero p fs = out_of_fuel
  dict_loop (suc f) [] fs = ok (true, fs, [])
  dict_loop (suc f) (c ∷ p) fs =
      let next = dict_loop f p fs in
      let entry = do
        (kvo, p') ← kvo_parsing f (c ∷ p)
        elim kvo [
          | none ↦ ok (false, delete_fields fs, p')
          | some e ↦ elim (starts rbrace p') [
            | true ↦ ok (true, store e fs, p')
            | false ↦ do p'' ← advance p'; dict_loop f p'' (store e fs)
          ]
        ]
      in if is_space c
        then next
        else if c == rbrace
        then ok (true, fs, c ∷ p)
        else if c == semicolon
        then next
        else entry

  -- `_lwm_kvo_parsing`
  pub kvo_parsing : ℕ → Text → Run KvoResult
  kvo_parsing zero p = out_of_fuel
  kvo_parsing (suc f) p = elim (key_scan none p) [
    | ended ↦ ok (some (record { key = none; value = string none }), [])
    | refused p' ↦ ok (none, p')
    | found key p' ↦ elim (skip_spaces p') [
      | [] ↦ ok (text_kvo key ended)
      | c ∷ r ↦
          let in_dict = object_kvo key (as_dict (dict_loop f r no_fields)) in
          let in_array = object_kvo key (as_array (array_start f r)) in
          if c == lbrace
          then in_dict
          else if c == lbrack
          then in_array
          else if is_token c first_refusals
          then ok (none, c ∷ r)
          else ok (text_kvo key (value_scan (c ∷ []) r))
    ]
  ]

  -- `_lwm_new_array_parsing` behind the bracket: an empty array, or the loop.
  pub array_start : ℕ → Text → Run (Bool × Items × Text)
  array_start zero p = out_of_fuel
  array_start (suc f) p =
      let rest = array_loop f openable p no_items in
      if starts rbrack p then ok (true, no_items, p) else rest

  pub array_loop : ℕ → ArrayMode → Text → Items → Run (Bool × Items × Text)
  array_loop zero mode p xs = out_of_fuel
  array_loop (suc f) mode [] xs = ok (true, xs, [])
  array_loop (suc f) openable (c ∷ p) xs =
      let skip = array_loop f openable p xs in
      let start = array_loop f (in_value (c ∷ [])) p xs in
      let sub_dict = do
        (v, p') ← as_dict (dict_loop f p no_fields)
        p'' ← advance p'
        array_loop f closed p'' (add_item xs v)
      in let sub_array = do
        (v, p') ← as_array (array_start f p)
        p'' ← advance p'
        array_loop f closed p'' (add_item xs v)
        in if is_space c
          then skip
          else if c == comma || c == rbrack
          then ok (false, xs, c ∷ p)
          else if c == lbrace
          then sub_dict
          else if c == lbrack
          then sub_array
          else if is_token c item_refusals
          then ok (false, xs, c ∷ p)
          else start
  array_loop (suc f) closed (c ∷ p) xs =
      let skip = array_loop f closed p xs in
      let open_again = array_loop f openable p xs in
      if is_space c
      then skip
      else if c == comma
      then open_again
      else if c == rbrack
      then ok (true, xs, c ∷ p)
      else skip
  array_loop (suc f) (in_value acc) (c ∷ p) xs =
      let more = array_loop f (in_value (acc ++ (c ∷ []))) p xs in
      let done = array_loop f openable p (item (string (some acc)) xs) in
      if is_space c
      then more
      else if c == comma
      then done
      else if c == rbrack
      then ok (true, item (string (some acc)) xs, c ∷ p)
      else more

-- `mode` in `parse_lwm_message_str`.
pub data MessageMode : Type 0 where
  header_openable body_openable neither : MessageMode

abbrev pub message_refusals : Text
message_refusals = lbrack ∷ rbrack ∷ rbrace ∷ semicolon ∷ equals ∷ comma ∷ []

abbrev pub enough : Text → ℕ
enough p = 4 * length p + 4

-- The loop of `parse_lwm_message_str`; the result is `bFlag` and the message.
unfoldable pub message_loop : ℕ → MessageMode → Bool → LwMessage → Text → Run (Bool × LwMessage)
message_loop zero mode flag msg p = out_of_fuel
message_loop (suc f) mode flag msg [] = ok (flag, msg)
message_loop (suc f) mode flag msg (c ∷ p) =
    let skip = message_loop f mode flag msg p in
    let opened : Run (Bool × LwMessage) = elim mode [
      | header_openable ↦ do
        (_, fs, p') ← dict_loop (enough p) p msg.header
        p'' ← advance p'
        message_loop f body_openable true (record msg { header = fs }) p''
      | body_openable ↦ do
        (_, fs, p') ← dict_loop (enough p) p msg.body
        p'' ← advance p'
        message_loop f neither true (record msg { body = fs }) p''
      | neither ↦ ok (false, msg)
    ] in
    if is_space c
    then skip
    else if is_token c message_refusals
    then ok (flag, msg)
    else if c == lbrace
    then opened
    else ok (false, msg)

unfoldable pub finish : Bool × LwMessage → Option LwMessage
finish (true, msg) = some msg
finish (false, msg) = none

abbrev pub empty_message : LwMessage
empty_message = record { header = no_fields; body = no_fields }

-- `parse_lwm_message_str`, `none` for NULL.
unfoldable pub parse_message : Text → Run (Option LwMessage)
unfolding message_loop finish
parse_message [] = ok none
parse_message (c ∷ p) = do
  result ← message_loop (length p + 2) header_openable false empty_message (c ∷ p)
  ok (finish result)
