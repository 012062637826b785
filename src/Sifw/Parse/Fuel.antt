-- ===== src/Sifw/Parse/Fuel.antt =====
-- The parser's fuel is enough for every text, and what it builds is in order.
use io_tware.Common.{
  ℕ, zero, suc, ◌+◌, ◌*◌, ◌<◌, ◌≤◌, Bool, true, false, ◌||◌, Option, none, some, [], ◌∷◌, ◌++◌,
  length, arith, ◌==◌,
}
use io_tware.Sifw.Text.{Text, is_space, is_token, lbrace, rbrace, lbrack, rbrack, semicolon, comma}
use io_tware.Sifw.Object.{
  string, Items, no_items, item, Fields, no_fields, delete_fields, LwMessage,
}
use io_tware.Sifw.Parse.{
  ok, ◌>>=◌, advance, starts, key_scan, as_dict, as_array, store, ArrayMode, openable, closed,
  in_value, dict_loop, kvo_parsing, array_start, array_loop, item_refusals, MessageMode,
  header_openable, body_openable, neither, enough, message_loop, finish, empty_message,
  parse_message, message_refusals,
}
use io_tware.Sifw.Parse.Ends.{
  TidyItems, TidyFields, Ends, LeavesDict, LeavesArray, LeavesKvo, if-either, Ends-bind,
  Ends-advance, key_scan-KeyEnds, as_dict-Ends, as_array-Ends, LeavesDict-later, LeavesArray-later,
}
use io_tware.Sifw.Parse.Follow.{entry-Ends, scanned-Ends, item-Ends}

mutual
  unfolding dict_loop

  dict_loop-Ends :
      (f : ℕ) (p : Text) (fs : Fields)
      → 3 * length p + 3 ≤ f
      → TidyFields fs
      → Ends (LeavesDict (length p)) (dict_loop f p fs)
  dict_loop-Ends zero p fs b h = omega (arith, b)
  dict_loop-Ends (suc f) [] fs b h = (omega arith, h)
  dict_loop-Ends (suc f) (c ∷ p) fs b h =
      let n = length (c ∷ p) in
      let P = Ends (LeavesDict n) in
      let next =
        LeavesDict-later (length p) n (dict_loop f p fs) (omega arith)
          (dict_loop-Ends f p fs (omega arith) h) in
      let stop : LeavesDict n (true, fs, c ∷ p) = (omega arith, h) in
      let entry =
        Ends-bind (LeavesKvo n) (LeavesDict n) (kvo_parsing f (c ∷ p))
          (λ r. elim r.0 [
            | none ↦ ok (false, delete_fields fs, r.1)
            | some e ↦ elim (starts rbrace r.1) [
              | true ↦ ok (true, store e fs, r.1)
              | false ↦ do p'' ← advance r.1; dict_loop f p'' (store e fs)
            ]
          ])
          (kvo_parsing-Ends f (c ∷ p) (omega arith))
          (entry-Ends f n fs h (λ p' gs l hg. dict_loop-Ends f p' gs (omega arith) hg)) in
      if-either P (is_space c) next
        (if-either P (c == rbrace) stop (if-either P (c == semicolon) next entry))

  kvo_parsing-Ends :
      (f : ℕ) (p : Text) → 3 * length p + 2 ≤ f → Ends (LeavesKvo (length p)) (kvo_parsing f p)
  kvo_parsing-Ends zero p b = omega (arith, b)
  kvo_parsing-Ends (suc f) p b =
      scanned-Ends f (length p) (key_scan none p) (key_scan-KeyEnds none p)
        (λ r l. dict_loop-Ends f r no_fields (omega arith) tt)
        (λ r l. array_start-Ends f r (omega arith))

  array_start-Ends :
      (f : ℕ) (p : Text) → 3 * length p + 2 ≤ f → Ends (LeavesArray (length p)) (array_start f p)
  array_start-Ends zero p b = omega (arith, b)
  array_start-Ends (suc f) p b =
      let stop : LeavesArray (length p) (true, no_items, p) = (omega arith, tt) in
      if-either (Ends (LeavesArray (length p))) (starts rbrack p) stop
        (array_loop-Ends f openable p no_items (omega arith) tt)

  array_loop-Ends :
      (f : ℕ) (mode : ArrayMode) (p : Text) (xs : Items)
      → 3 * length p + 1 ≤ f
      → TidyItems xs
      → Ends (LeavesArray (length p)) (array_loop f mode p xs)
  array_loop-Ends zero mode p xs b h = omega (arith, b)
  array_loop-Ends (suc f) openable [] xs b h = (omega arith, h)
  array_loop-Ends (suc f) closed [] xs b h = (omega arith, h)
  array_loop-Ends (suc f) (in_value acc) [] xs b h = (omega arith, h)
  array_loop-Ends (suc f) openable (c ∷ p) xs b h =
      let n = length (c ∷ p) in
      let P = Ends (LeavesArray n) in
      let refuse : LeavesArray n (false, xs, c ∷ p) = (omega arith, h) in
      let skip =
        LeavesArray-later (length p) n (array_loop f openable p xs) (omega arith)
          (array_loop-Ends f openable p xs (omega arith) h) in
      let start =
        LeavesArray-later (length p) n (array_loop f (in_value (c ∷ [])) p xs) (omega arith)
          (array_loop-Ends f (in_value (c ∷ [])) p xs (omega arith) h) in
      let sub_dict =
        item-Ends f n xs (as_dict (dict_loop f p no_fields))
          (as_dict-Ends n (dict_loop f p no_fields) (
            LeavesDict-later (length p) n (dict_loop f p no_fields) (omega arith)
              (dict_loop-Ends f p no_fields (omega arith) tt)))
          h (λ p' ys l hy. array_loop-Ends f closed p' ys (omega arith) hy) in
      let sub_array =
        item-Ends f n xs (as_array (array_start f p))
          (as_array-Ends n (array_start f p) (
            LeavesArray-later (length p) n (array_start f p) (omega arith)
              (array_start-Ends f p (omega arith))))
          h (λ p' ys l hy. array_loop-Ends f closed p' ys (omega arith) hy) in
      if-either P (is_space c) skip (
        if-either P (c == comma || c == rbrack) refuse (
          if-either P (c == lbrace) sub_dict (
            if-either P (c == lbrack) sub_array
              (if-either P (is_token c item_refusals) refuse start))))
  array_loop-Ends (suc f) closed (c ∷ p) xs b h =
      let n = length (c ∷ p) in
      let P = Ends (LeavesArray n) in
      let done : LeavesArray n (true, xs, c ∷ p) = (omega arith, h) in
      let skip =
        LeavesArray-later (length p) n (array_loop f closed p xs) (omega arith)
          (array_loop-Ends f closed p xs (omega arith) h) in
      let open_again =
        LeavesArray-later (length p) n (array_loop f openable p xs) (omega arith)
          (array_loop-Ends f openable p xs (omega arith) h) in
      if-either P (is_space c) skip
        (if-either P (c == comma) open_again (if-either P (c == rbrack) done skip))
  array_loop-Ends (suc f) (in_value acc) (c ∷ p) xs b h =
      let n = length (c ∷ p) in
      let P = Ends (LeavesArray n) in
      let ys = item (string (some acc)) xs in
      let stop : LeavesArray n (true, ys, c ∷ p) = (omega arith, (tt, h)) in
      let more =
        LeavesArray-later (length p) n (array_loop f (in_value (acc ++ (c ∷ []))) p xs)
          (omega arith) (array_loop-Ends f (in_value (acc ++ (c ∷ []))) p xs (omega arith) h) in
      let done =
        LeavesArray-later (length p) n (array_loop f openable p ys) (omega arith)
          (array_loop-Ends f openable p ys (omega arith) (tt, h)) in
      if-either P (is_space c) more
        (if-either P (c == comma) done (if-either P (c == rbrack) stop more))

abbrev pub TidyMessage : LwMessage → Type 0
TidyMessage msg = TidyFields msg.header × TidyFields msg.body

abbrev TidyResult : Bool × LwMessage → Type 0
TidyResult r = TidyMessage r.1

dict-enough :
    (p : Text) (fs : Fields)
    → TidyFields fs
    → Ends (LeavesDict (length p)) (dict_loop (enough p) p fs)
dict-enough p fs h = dict_loop-Ends (enough p) p fs (omega arith) h

mutual
  unfolding message_loop

  message_loop-Ends :
      (f : ℕ) (mode : MessageMode) (flag : Bool) (msg : LwMessage) (p : Text)
      → length p < f
      → TidyMessage msg
      → Ends TidyResult (message_loop f mode flag msg p)
  message_loop-Ends zero mode flag msg p b h = omega (arith, b)
  message_loop-Ends (suc f) mode flag msg [] b h = h
  message_loop-Ends (suc f) header_openable flag msg (c ∷ p) b h =
      let P = Ends TidyResult in
      if-either P (is_space c) (message_loop-Ends f header_openable flag msg p (omega arith) h) (
        if-either P (is_token c message_refusals) h (
          if-either P (c == lbrace)
            (Ends-bind (LeavesDict (length p)) TidyResult (dict_loop (enough p) p msg.header)
              (λ r. do
                p'' ← advance r.2
                message_loop f body_openable true (record msg { header = r.1 }) p'')
              (dict-enough p msg.header h.0)
              (λ r hr.
                Ends-advance TidyResult r.2 (length p)
                  (message_loop f body_openable true (record msg { header = r.1 })) hr.0
                  (λ p'' l.
                    message_loop-Ends f body_openable true (record msg { header = r.1 }) p''
                      (omega arith) (hr.1, h.1))))
            h))
  message_loop-Ends (suc f) body_openable flag msg (c ∷ p) b h =
      let P = Ends TidyResult in
      if-either P (is_space c) (message_loop-Ends f body_openable flag msg p (omega arith) h) (
        if-either P (is_token c message_refusals) h (
          if-either P (c == lbrace)
            (Ends-bind (LeavesDict (length p)) TidyResult (dict_loop (enough p) p msg.body)
              (λ r. do
                p'' ← advance r.2
                message_loop f neither true (record msg { body = r.1 }) p'')
              (dict-enough p msg.body h.1)
              (λ r hr.
                Ends-advance TidyResult r.2 (length p)
                  (message_loop f neither true (record msg { body = r.1 })) hr.0
                  (λ p'' l.
                    message_loop-Ends f neither true (record msg { body = r.1 }) p'' (omega arith)
                      (h.0, hr.1))))
            h))
  message_loop-Ends (suc f) neither flag msg (c ∷ p) b h =
      let P = Ends TidyResult in
      if-either P (is_space c) (message_loop-Ends f neither flag msg p (omega arith) h)
        (if-either P (is_token c message_refusals) h (if-either P (c == lbrace) h h))

-- What a parsed message is like.
abbrev pub TidyParsed : Option LwMessage → Type 0
TidyParsed none = Unit
TidyParsed (some msg) = TidyMessage msg

finish-Tidy : (r : Bool × LwMessage) → TidyResult r → TidyParsed (finish r)
unfolding finish
finish-Tidy (true, msg) h = h
finish-Tidy (false, msg) h = tt

-- On every text the parser's fuel is enough: it ends, with NULL, a message, or a step behind the
-- text's end. In a message that it returns no dictionary, at any depth, holds a key twice.
pub parse_message-Ends : (p : Text) → Ends TidyParsed (parse_message p)
unfolding parse_message
parse_message-Ends [] = tt
parse_message-Ends (c ∷ p) =
    Ends-bind TidyResult TidyParsed
      (message_loop (length p + 2) header_openable false empty_message (c ∷ p)) (λ r. ok (finish r))
      (message_loop-Ends (length p + 2) header_openable false empty_message (c ∷ p) (omega arith)
        (tt, tt))
      finish-Tidy
