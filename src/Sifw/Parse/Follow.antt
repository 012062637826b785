-- ===== src/Sifw/Parse/Follow.antt =====
-- What a loop of the parser does with the result of the parser that it called.
use io_tware.Common.{
  ℕ, ◌+◌, ◌<◌, ◌≤◌, true, false, Bool-cases, inl, inr, none, some, [], ◌∷◌, length, arith,
  if◌then◌else◌, ◌==◌,
}
use io_tware.Sifw.Text.{Text, is_token, lbrace, rbrace, lbrack}
use io_tware.Sifw.Object.{string, Items, Fields, no_fields, delete_fields, add_item}
use io_tware.Sifw.Parse.{
  Run, ok, ◌>>=◌, advance, starts, Scan, ended, refused, found, value_scan, skip_spaces, KvoResult,
  ObjectResult, text_kvo, object_kvo, as_dict, as_array, store, closed, dict_loop, array_start,
  array_loop, first_refusals,
}
use io_tware.Sifw.Parse.Ends.{
  TidyItems, TidyFields, Ends, LeavesDict, LeavesArray, LeavesObject, LeavesKvo, if-either,
  Ends-bind, Ends-advance, KeyEnds, ValueEnds-later, value_scan-ValueEnds, skip_spaces-le,
  as_dict-Ends, as_array-Ends, object_kvo-Ends, text_kvo-Ends, store-Tidy, delete_fields-Tidy,
  add_item-Tidy, LeavesDict-later, LeavesArray-later,
}

-- What follows the parser of an entry, of a key and of an item.
pub entry-Ends :
    (f n : ℕ) (fs : Fields)
    → TidyFields fs
    → ((p : Text) (gs : Fields)
        → length p < n
        → TidyFields gs
        → Ends (LeavesDict (length p)) (dict_loop f p gs))
    → (r : KvoResult) → LeavesKvo n r
    → Ends (LeavesDict n) (elim r.0 [
      | none ↦ ok (false, delete_fields fs, r.1)
      | some e ↦ elim (starts rbrace r.1) [
        | true ↦ ok (true, store e fs, r.1)
        | false ↦ do p'' ← advance r.1; dict_loop f p'' (store e fs)
      ]
    ])
entry-Ends f n fs h loop (none, p) hr = (hr.0, delete_fields-Tidy fs h)
entry-Ends f n fs h loop (some e, p) hr =
    let tidy = store-Tidy e fs hr.1 h in
    elim (Bool-cases (starts rbrace p)) [
      | inl q ↦ rw q (hr.0, tidy)
      | inr q ↦ rw q (
          Ends-advance (LeavesDict n) p n (λ p''. dict_loop f p'' (store e fs)) hr.0
            (λ p'' l.
              LeavesDict-later (length p'') n (dict_loop f p'' (store e fs)) (omega arith)
                (loop p'' (store e fs) l tidy)))
    ]

pub key-Ends :
    (f n : ℕ) (key q : Text)
    → length q + 1 ≤ n
    → ((r : Text) → length r + 1 < n → Ends (LeavesDict (length r)) (dict_loop f r no_fields))
    → ((r : Text) → length r + 1 < n → Ends (LeavesArray (length r)) (array_start f r))
    → Ends (LeavesKvo n) (elim q [
      | [] ↦ ok (text_kvo key ended)
      | c ∷ r ↦
          if c == lbrace
          then object_kvo key (as_dict (dict_loop f r no_fields))
          else if c == lbrack
          then object_kvo key (as_array (array_start f r))
          else if is_token c first_refusals
          then ok (none, c ∷ r)
          else ok (text_kvo key (value_scan (c ∷ []) r))
    ])
key-Ends f n key [] l loop start = text_kvo-Ends n key ended tt
key-Ends f n key (c ∷ r) l loop start =
    let P = Ends (LeavesKvo n) in
    let in_dict = object_kvo-Ends n key (as_dict (dict_loop f r no_fields)) (
      as_dict-Ends n (dict_loop f r no_fields) (
        LeavesDict-later (length r) n (dict_loop f r no_fields) (omega arith)
          (loop r (omega arith)))) in
    let in_array = object_kvo-Ends n key (as_array (array_start f r)) (
      as_array-Ends n (array_start f r)
        (LeavesArray-later (length r) n (array_start f r) (omega arith) (start r (omega arith)))) in
    let stop : LeavesKvo n (none, c ∷ r) = (omega arith, tt) in
    let text = text_kvo-Ends n key (value_scan (c ∷ []) r) (
      ValueEnds-later (length r) n (value_scan (c ∷ []) r) (omega arith)
        (value_scan-ValueEnds (c ∷ []) r)) in
    if-either P (c == lbrace) in_dict
      (if-either P (c == lbrack) in_array (if-either P (is_token c first_refusals) stop text))

pub scanned-Ends :
    (f n : ℕ) (s : Scan)
    → KeyEnds n s
    → ((r : Text) → length r + 1 < n → Ends (LeavesDict (length r)) (dict_loop f r no_fields))
    → ((r : Text) → length r + 1 < n → Ends (LeavesArray (length r)) (array_start f r))
    → Ends (LeavesKvo n) (elim s [
      | ended ↦ ok (some (record { key = none; value = string none }), [])
      | refused p' ↦ ok (none, p')
      | found key p' ↦ elim (skip_spaces p') [
        | [] ↦ ok (text_kvo key ended)
        | c ∷ r ↦
            if c == lbrace
            then object_kvo key (as_dict (dict_loop f r no_fields))
            else if c == lbrack
            then object_kvo key (as_array (array_start f r))
            else if is_token c first_refusals
            then ok (none, c ∷ r)
            else ok (text_kvo key (value_scan (c ∷ []) r))
      ]
    ])
scanned-Ends f n ended h loop start = (omega arith, tt)
scanned-Ends f n (refused p) h loop start = (h, tt)
scanned-Ends f n (found key p) h loop start =
    key-Ends f n key (skip_spaces p) (omega (arith, skip_spaces-le p)) loop start

pub item-Ends :
    (f n : ℕ) (xs : Items) (r : Run ObjectResult)
    → Ends (LeavesObject n) r
    → TidyItems xs
    → ((p : Text) (ys : Items)
        → length p < n
        → TidyItems ys
        → Ends (LeavesArray (length p)) (array_loop f closed p ys))
    → Ends
        (LeavesArray n)
        (do (v, p') ← r; p'' ← advance p'; array_loop f closed p'' (add_item xs v))
item-Ends f n xs r h hx loop =
    Ends-bind (LeavesObject n) (LeavesArray n) r
      (λ t. do p'' ← advance t.1; array_loop f closed p'' (add_item xs t.0)) h
      (λ t ht.
        Ends-advance (LeavesArray n) t.1 n (λ p''. array_loop f closed p'' (add_item xs t.0)) ht.0
          (λ p'' l.
            LeavesArray-later (length p'') n (array_loop f closed p'' (add_item xs t.0))
              (omega arith) (loop p'' (add_item xs t.0) l (add_item-Tidy xs t.0 hx ht.1))))
