-- ===== src/Sifw/Parse/Entries.antt =====
-- The parser's loops over a whole printed array or dictionary.
use io_tware.Common.{
  ℕ, zero, suc, ◌+◌, ◌-◌, ◌*◌, ◌<◌, ◌≤◌, ◌≡◌, refl, sym, subst, true, none, some, [], ◌∷◌, ◌++◌, ap,
  ◌∙◌, length, length-append, arith,
}
use io_tware.Sifw.Text.{Text, is_space, lbrace, rbrace, lbrack, rbrack, equals, semicolon, comma}
use io_tware.Sifw.Object.{
  LwmObject, number, string, array, dict, Items, no_items, item, Fields, no_fields, field,
  delete_by_key, set_object,
}
use io_tware.Sifw.Wire.{
  IsToken, Absent, items_to, more_items_to, fields_to, more_fields_to, mirror, mirror_items,
  mirror_fields, AreItems, items_end, items_cons, item_text, item_array, item_dict, value_text,
  value_array, AreFields, fields_end, fields_cons, items_to-le, fields_to-le,
}
use io_tware.Sifw.Parse.{ok, closed, dict_loop, array_loop}
use io_tware.Sifw.Parse.Steps.{
  array_loop-text, array_loop-array, array_loop-dict, array_start-items, dict_loop-fields,
  dict_loop-text, dict_loop-array,
}

-- No key of `fs` is in `acc`.
abbrev pub Fresh : Fields → Fields → Type 0
Fresh no_fields fs = Unit
Fresh (field k v acc) fs = Absent k fs × Fresh acc fs

Fresh-delete :
    (acc fs : Fields) (k : Text) (v : LwmObject)
    → Fresh acc (field k v fs)
    → delete_by_key acc k ≡ acc
unfolding delete_by_key
Fresh-delete no_fields fs k v h = refl
Fresh-delete (field k' v' acc) fs k v h = rw (h.0.0, Fresh-delete acc fs k v h.1)

Fresh-tail : (acc fs : Fields) (k : Text) (v : LwmObject) → Fresh acc (field k v fs) → Fresh acc fs
Fresh-tail no_fields fs k v h = h
Fresh-tail (field k' v' acc) fs k v h = (h.0.1, Fresh-tail acc fs k v h.1)

Fresh-set :
    (acc fs : Fields) (k : Text) (v w : LwmObject)
    → Fresh acc (field k v fs)
    → set_object acc k w ≡ field k w acc
unfolding set_object
Fresh-set acc fs k v w h = ap (field k w) (Fresh-delete acc fs k v h)

more_items_to-length :
    (xs : Items) (rest : Text) → length (more_items_to xs rest) ≤ suc (length (items_to xs rest))
unfolding items_to
more_items_to-length no_items rest = omega arith
more_items_to-length (item v xs) rest = omega arith

more_fields_to-length :
    (fs : Fields) (rest : Text) → length (more_fields_to fs rest) ≤ suc (length (fields_to fs rest))
unfolding fields_to
more_fields_to-length no_fields rest = omega arith
more_fields_to-length (field k v fs) rest = omega arith

token-length : (k : Text) → IsToken k → 0 < length k
token-length [] h = elim h [ ]
token-length (c ∷ k) h = omega arith

array_end :
    (acc : Items) (rest : Text) (f : ℕ)
    → 0 < f
    → array_loop f closed (rbrack ∷ rest) acc ≡ ok (true, acc, rbrack ∷ rest)
unfolding array_loop is_space
array_end acc rest zero b = absurd (omega arith)
array_end acc rest (suc f) b = refl

dict_end :
    (acc : Fields) (rest : Text) (f : ℕ)
    → 0 < f
    → dict_loop f (rbrace ∷ rest) acc ≡ ok (true, acc, rbrace ∷ rest)
unfolding dict_loop is_space
dict_end acc rest zero b = absurd (omega arith)
dict_end acc rest (suc f) b = refl

mutual
  unfolding more_items_to mirror

  array_entries :
      (xs : Items) (acc : Items) (rest : Text) (f : ℕ)
      → AreItems xs
      → 2 * length (more_items_to xs (rbrack ∷ rest)) < f
      → array_loop f closed (more_items_to xs (rbrack ∷ rest)) acc
        ≡ ok (true, mirror_items xs acc, rbrack ∷ rest)
  array_entries no_items acc rest f items_end b = array_end acc rest f (omega arith)
  array_entries (item (string (some [])) xs) acc rest f (items_cons (item_text hs) h) b =
      elim hs [ ]
  array_entries (item (string (some (c ∷ s))) xs) acc rest f (items_cons (item_text hs) h) b =
      let more = more_items_to xs (rbrack ∷ rest) in
      let l = length-append s more in
      let e : f ≡ suc (suc (length s + suc (f - length s - 3))) = omega (arith, l) in
      rw (e, array_loop-text c s rest xs acc (f - length s - 3) hs)
        (array_entries xs (item (string (some (c ∷ s))) acc) rest (suc (f - length s - 3)) h
          (omega (arith, l)))
  array_entries (item (array ys) xs) acc rest f (items_cons (item_array hy) h) b =
      let more = more_items_to xs (rbrack ∷ rest) in
      let l = items_to-le ys (rbrack ∷ more) in
      let e : f ≡ suc (suc (suc (f - 3))) = omega arith in
      let inner = array_start-items ys more (f - 3) hy (
        array_entries ys no_items more (suc (f - 3)) hy
          (omega (arith, more_items_to-length ys (rbrack ∷ more)))) in
      subst
        (λ n.
          array_loop n closed (comma ∷ lbrack ∷ items_to ys (rbrack ∷ more)) acc
          ≡ ok (true, mirror_items (item (array ys) xs) acc, rbrack ∷ rest))
        (sym e)
        (array_loop-array (items_to ys (rbrack ∷ more)) more (mirror_items ys no_items) acc
            (suc (f - 3)) inner
          ∙ array_entries xs (item (array (mirror_items ys no_items)) acc) rest (suc (f - 3)) h
              (omega (arith, l)))
  array_entries (item (dict fs) xs) acc rest f (items_cons (item_dict hf) h) b =
      let more = more_items_to xs (rbrack ∷ rest) in
      let l = fields_to-le fs (rbrace ∷ more) in
      let e : f ≡ suc (suc (suc (f - 3))) = omega arith in
      let inner =
        dict_loop-fields fs no_fields more (f - 3)
        ∙ dict_entries fs no_fields more (suc (suc (f - 3))) hf tt
            (omega (arith, more_fields_to-length fs (rbrace ∷ more))) in
      subst
        (λ n.
          array_loop n closed (comma ∷ lbrace ∷ fields_to fs (rbrace ∷ more)) acc
          ≡ ok (true, mirror_items (item (dict fs) xs) acc, rbrack ∷ rest))
        (sym e)
        (array_loop-dict (fields_to fs (rbrace ∷ more)) more (mirror_fields fs no_fields) acc
            (suc (f - 3)) inner
          ∙ array_entries xs (item (dict (mirror_fields fs no_fields)) acc) rest (suc (f - 3)) h
              (omega (arith, l)))
  array_entries (item (string none) xs) acc rest f (items_cons hv h) b = elim hv [ ]
  array_entries (item (number n) xs) acc rest f (items_cons hv h) b = elim hv [ ]

  dict_entries :
      (fs acc : Fields) (rest : Text) (f : ℕ)
      → AreFields fs
      → Fresh acc fs
      → 2 * length (more_fields_to fs (rbrace ∷ rest)) < f
      → dict_loop f (more_fields_to fs (rbrace ∷ rest)) acc
        ≡ ok (true, mirror_fields fs acc, rbrace ∷ rest)
  dict_entries no_fields acc rest f fields_end d b = dict_end acc rest f (omega arith)
  dict_entries (field k (string (some s)) fs) acc rest f (fields_cons hk (value_text hs) ab h) d b =
      let more = more_fields_to fs (rbrace ∷ rest) in
      let l = length-append k (equals ∷ (s ++ more)) in
      let l' = length-append s more in
      let e : f ≡ suc (suc (suc (f - 3))) = omega (arith, l, l') in
      subst
        (λ n.
          dict_loop n (semicolon ∷ (k ++ (equals ∷ (s ++ more)))) acc
          ≡ ok (true, mirror_fields (field k (string (some s)) fs) acc, rbrace ∷ rest))
        (sym e)
        (dict_loop-text k s rest fs acc (f - 3) hk hs
          ∙ ap (dict_loop (suc (suc (f - 3))) more)
              (Fresh-set acc fs k (string (some s)) (string (some s)) d)
          ∙ dict_entries fs (field k (string (some s)) acc) rest (suc (suc (f - 3))) h
              (ab, Fresh-tail acc fs k (string (some s)) d)
              (omega (arith, l, l', token-length k hk)))
  dict_entries (field k (array ys) fs) acc rest f (fields_cons hk (value_array hy) ab h) d b =
      let more = more_fields_to fs (rbrace ∷ rest) in
      let items = items_to ys (rbrack ∷ more) in
      let l = length-append k (equals ∷ lbrack ∷ items) in
      let l' = items_to-le ys (rbrack ∷ more) in
      let t = token-length k hk in
      let e : f ≡ suc (suc (suc (suc (f - 4)))) = omega (arith, l, l', t) in
      let inner = array_start-items ys more (f - 4) hy (
        array_entries ys no_items more (suc (f - 4)) hy
          (omega (arith, l, t, more_items_to-length ys (rbrack ∷ more)))) in
      let w = array (mirror_items ys no_items) in
      subst
        (λ n.
          dict_loop n (semicolon ∷ (k ++ (equals ∷ lbrack ∷ items))) acc
          ≡ ok (true, mirror_fields (field k (array ys) fs) acc, rbrace ∷ rest))
        (sym e)
        (dict_loop-array k items more (mirror_items ys no_items) acc (suc (f - 4)) hk inner
          ∙ ap (dict_loop (suc (suc (f - 4))) more) (Fresh-set acc fs k (array ys) w d)
          ∙ dict_entries fs (field k w acc) rest (suc (suc (f - 4))) h
              (ab, Fresh-tail acc fs k (array ys) d) (omega (arith, l, l', t)))
  dict_entries (field k (string none) fs) acc rest f (fields_cons hk hv ab h) d b = elim hv [ ]
  dict_entries (field k (number n) fs) acc rest f (fields_cons hk hv ab h) d b = elim hv [ ]
  dict_entries (field k (dict gs) fs) acc rest f (fields_cons hk hv ab h) d b = elim hv [ ]

-- The dictionary behind an opened brace.
pub dict_loop-printed :
    (fs : Fields) (rest : Text) (f : ℕ)
    → AreFields fs
    → 2 * length (fields_to fs (rbrace ∷ rest)) + 2 ≤ f
    → dict_loop f (fields_to fs (rbrace ∷ rest)) no_fields
      ≡ ok (true, mirror_fields fs no_fields, rbrace ∷ rest)
dict_loop-printed fs rest zero h b = absurd (omega arith)
dict_loop-printed fs rest (suc f) h b =
    dict_loop-fields fs no_fields rest f
    ∙ dict_entries fs no_fields rest (suc (suc f)) h tt
        (omega (arith, more_fields_to-length fs (rbrace ∷ rest)))
