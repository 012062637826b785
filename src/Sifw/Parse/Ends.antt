-- ===== src/Sifw/Parse/Ends.antt =====
-- When a run of the parser ends, and in which order its result is; the scans, and the ends of the
-- functions.
use io_tware.Common.{
  ℕ, zero, suc, ◌<◌, ◌≤◌, Bool, true, false, Bool-cases, inl, inr, Option, none, some, [], ◌∷◌,
  ◌++◌, length, arith, if◌then◌else◌, ◌==◌,
}
use io_tware.Sifw.Text.{Text, text_eq, is_space, is_token, equals}
use io_tware.Sifw.Object.{
  LwmObject, number, string, array, dict, Items, no_items, item, Fields, no_fields, field,
  field_num, drop_fields, delete_fields, delete_by_key, set_object, add_item,
}
use io_tware.Sifw.Wire.{Absent}
use io_tware.Sifw.Dictionary.{Absent-delete, delete-Absent, Distinct}
use io_tware.Sifw.Parse.{
  Run, ok, undefined, out_of_fuel, ◌>>=◌, advance, Scan, ended, refused, found, key_end, key_scan,
  value_scan, skip_spaces, Kvo, KvoResult, ObjectResult, text_kvo, object_kvo, as_dict, as_array,
  store, extend, begin, key_stops, value_refusals, value_stops,
}

-- No dictionary in the object holds a key twice.
abbrev mutual
  pub Tidy : LwmObject → Type 0
  Tidy (number n) = Unit
  Tidy (string s) = Unit
  Tidy (array xs) = TidyItems xs
  Tidy (dict fs) = TidyFields fs

  pub TidyItems : Items → Type 0
  TidyItems no_items = Unit
  TidyItems (item v xs) = Tidy v × TidyItems xs

  pub TidyFields : Fields → Type 0
  TidyFields no_fields = Unit
  TidyFields (field k v fs) = Absent k fs × Tidy v × TidyFields fs

-- A run that does not end for want of fuel, and whose result is as `P` says.
abbrev pub Ends : {A : Type 0} → (A → Type 0) → Run A → Type 0
Ends P (ok a) = P a
Ends P undefined = Unit
Ends P out_of_fuel = ⊥

abbrev pub LeavesDict : ℕ → Bool × Fields × Text → Type 0
LeavesDict n r = (length r.2 ≤ n) × TidyFields r.1

abbrev pub LeavesArray : ℕ → Bool × Items × Text → Type 0
LeavesArray n r = (length r.2 ≤ n) × TidyItems r.1

abbrev pub TidyOption : Option LwmObject → Type 0
TidyOption none = Unit
TidyOption (some v) = Tidy v

abbrev pub LeavesObject : ℕ → ObjectResult → Type 0
LeavesObject n r = (length r.1 ≤ n) × TidyOption r.0

abbrev pub TidyKvo : Option Kvo → Type 0
TidyKvo none = Unit
TidyKvo (some e) = Tidy e.value

abbrev pub LeavesKvo : ℕ → KvoResult → Type 0
LeavesKvo n r = (length r.1 ≤ n) × TidyKvo r.0

pub if-either :
    {A : Type 0} {x y : A} (P : A → Type 0) (b : Bool) → P x → P y → P (if b then x else y)
if-either P true p q = p
if-either P false p q = q

pub Ends-bind :
    {A B : Type 0} (P : A → Type 0) (Q : B → Type 0) (r : Run A) (g : A → Run B)
    → Ends P r
    → ((a : A) → P a → Ends Q (g a))
    → Ends Q (r >>= g)
Ends-bind P Q (ok a) g h k = k a h
Ends-bind P Q undefined g h k = tt
Ends-bind P Q out_of_fuel g h k = elim h [ ]

pub Ends-advance :
    {B : Type 0} (Q : B → Type 0) (p : Text) (n : ℕ) (g : Text → Run B)
    → length p ≤ n
    → ((p' : Text) → length p' < n → Ends Q (g p'))
    → Ends Q (advance p >>= g)
unfolding advance
Ends-advance Q [] n g h k = tt
Ends-advance Q (c ∷ p) n g h k = k p (omega arith)

-- The scans only move forward.
abbrev pub KeyEnds : ℕ → Scan → Type 0
KeyEnds n ended = Unit
KeyEnds n (refused p) = length p ≤ n
KeyEnds n (found key p) = length p < n

abbrev pub ValueEnds : ℕ → Scan → Type 0
ValueEnds n ended = Unit
ValueEnds n (refused p) = length p ≤ n
ValueEnds n (found value p) = length p ≤ n

pub KeyEnds-later : (n : ℕ) (s : Scan) → KeyEnds n s → KeyEnds (suc n) s
KeyEnds-later n ended h = tt
KeyEnds-later n (refused p) h = omega arith
KeyEnds-later n (found key p) h = omega arith

pub ValueEnds-later : (m n : ℕ) (s : Scan) → m ≤ n → ValueEnds m s → ValueEnds n s
ValueEnds-later m n ended l h = tt
ValueEnds-later m n (refused p) l h = omega arith
ValueEnds-later m n (found value p) l h = omega arith

pub key_end-KeyEnds : (start : Option Text) (p : Text) → KeyEnds (suc (length p)) (key_end start p)
key_end-KeyEnds none p = omega arith
key_end-KeyEnds (some key) p = omega arith

pub key_scan-KeyEnds : (start : Option Text) (p : Text) → KeyEnds (length p) (key_scan start p)
unfolding key_scan
key_scan-KeyEnds start [] = tt
key_scan-KeyEnds start (c ∷ p) =
    let next = if is_space c then extend start c else begin start c in
    let rest = KeyEnds-later (length p) (key_scan next p) (key_scan-KeyEnds next p) in
    let here : suc (length p) ≤ suc (length p) = omega arith in
    if-either (KeyEnds (suc (length p))) (is_space c) rest (
      if-either (KeyEnds (suc (length p))) (is_token c key_stops) here
        (if-either (KeyEnds (suc (length p))) (c == equals) (key_end-KeyEnds start p) rest))

pub value_scan-ValueEnds : (acc p : Text) → ValueEnds (length p) (value_scan acc p)
unfolding value_scan
value_scan-ValueEnds acc [] = tt
value_scan-ValueEnds acc (c ∷ p) =
    let next = acc ++ (c ∷ []) in
    let rest =
      ValueEnds-later (length p) (suc (length p)) (value_scan next p) (omega arith)
        (value_scan-ValueEnds next p) in
    let here : suc (length p) ≤ suc (length p) = omega arith in
    if-either (ValueEnds (suc (length p))) (is_space c) rest (
      if-either (ValueEnds (suc (length p))) (is_token c value_refusals) here
        (if-either (ValueEnds (suc (length p))) (is_token c value_stops) here rest))

abbrev pub Within : ℕ → Text → Type 0
Within n p = length p ≤ n

pub skip_spaces-le : (p : Text) → length (skip_spaces p) ≤ length p
unfolding skip_spaces
skip_spaces-le [] = omega arith
skip_spaces-le (c ∷ p) =
    let later : length (skip_spaces p) ≤ suc (length p) = omega (arith, skip_spaces-le p) in
    let here : suc (length p) ≤ suc (length p) = omega arith in
    if-either (Within (suc (length p))) (is_space c) later here

-- What the ends of the functions make of it.
pub as_dict-Ends :
    (n : ℕ) (r : Run (Bool × Fields × Text))
    → Ends (LeavesDict n) r
    → Ends (LeavesObject n) (as_dict r)
unfolding as_dict
as_dict-Ends n (ok (true, fs, p)) h = h
as_dict-Ends n (ok (false, fs, p)) h = (h.0, tt)
as_dict-Ends n undefined h = tt
as_dict-Ends n out_of_fuel h = h

pub as_array-Ends :
    (n : ℕ) (r : Run (Bool × Items × Text))
    → Ends (LeavesArray n) r
    → Ends (LeavesObject n) (as_array r)
unfolding as_array
as_array-Ends n (ok (true, xs, p)) h = h
as_array-Ends n (ok (false, xs, p)) h = (h.0, tt)
as_array-Ends n undefined h = tt
as_array-Ends n out_of_fuel h = h

pub object_kvo-Ends :
    (n : ℕ) (key : Text) (r : Run ObjectResult)
    → Ends (LeavesObject n) r
    → Ends (LeavesKvo n) (object_kvo key r)
unfolding object_kvo
object_kvo-Ends n key (ok (none, p)) h = (h.0, tt)
object_kvo-Ends n key (ok (some v, p)) h = h
object_kvo-Ends n key undefined h = tt
object_kvo-Ends n key out_of_fuel h = h

pub text_kvo-Ends : (n : ℕ) (key : Text) (s : Scan) → ValueEnds n s → LeavesKvo n (text_kvo key s)
unfolding text_kvo
text_kvo-Ends n key ended h = (omega arith, tt)
text_kvo-Ends n key (refused p) h = (h, tt)
text_kvo-Ends n key (found value p) h = (h, tt)

pub Tidy-Distinct : (fs : Fields) → TidyFields fs → Distinct fs
Tidy-Distinct no_fields h = tt
Tidy-Distinct (field k v fs) h = (h.0, Tidy-Distinct fs h.2)

pub Tidy-delete : (fs : Fields) (key : Text) → TidyFields fs → TidyFields (delete_by_key fs key)
unfolding delete_by_key
Tidy-delete no_fields key h = tt
Tidy-delete (field k v fs) key h = elim (Bool-cases (text_eq k key)) [
  | inl e ↦ rw e h.2
  | inr e ↦ rw e (Absent-delete fs k key h.0, h.1, Tidy-delete fs key h.2)
]

Tidy-drop : (n : ℕ) (fs : Fields) → TidyFields fs → TidyFields (drop_fields n fs)
Tidy-drop zero fs h = h
Tidy-drop (suc n) no_fields h = h
Tidy-drop (suc n) (field k v fs) h = Tidy-drop n fs h.2

pub delete_fields-Tidy : (fs : Fields) → TidyFields fs → TidyFields (delete_fields fs)
unfolding delete_fields
delete_fields-Tidy fs h = Tidy-drop (field_num fs) fs h

pub store-Tidy : (e : Kvo) (fs : Fields) → Tidy e.value → TidyFields fs → TidyFields (store e fs)
unfolding store set_object
store-Tidy e fs h hs =
    elim e.key
      as (λ k.
        TidyFields (elim k [ none ↦ fs | some key ↦ field key e.value (delete_by_key fs key) ])) [
          | none ↦ hs
          | some key ↦ (delete-Absent fs key (Tidy-Distinct fs hs), h, Tidy-delete fs key hs)
        ]

pub add_item-Tidy :
    (xs : Items) (v : Option LwmObject) → TidyItems xs → TidyOption v → TidyItems (add_item xs v)
unfolding add_item
add_item-Tidy xs none h hv = h
add_item-Tidy xs (some v) h hv = (hv, h)

pub LeavesDict-later :
    (n m : ℕ) (r : Run (Bool × Fields × Text))
    → n ≤ m
    → Ends (LeavesDict n) r
    → Ends (LeavesDict m) r
LeavesDict-later n m (ok r) l h = (omega (arith, h.0), h.1)
LeavesDict-later n m undefined l h = tt
LeavesDict-later n m out_of_fuel l h = h

pub LeavesArray-later :
    (n m : ℕ) (r : Run (Bool × Items × Text))
    → n ≤ m
    → Ends (LeavesArray n) r
    → Ends (LeavesArray m) r
LeavesArray-later n m (ok r) l h = (omega (arith, h.0), h.1)
LeavesArray-later n m undefined l h = tt
LeavesArray-later n m out_of_fuel l h = h

pub LeavesObject-later :
    (n m : ℕ) (r : Run ObjectResult) → n ≤ m → Ends (LeavesObject n) r → Ends (LeavesObject m) r
LeavesObject-later n m (ok r) l h = (omega (arith, h.0), h.1)
LeavesObject-later n m undefined l h = tt
LeavesObject-later n m out_of_fuel l h = h
