-- ===== src/Sifw/Parse/Steps.antt =====
-- What the loops of the parser do with one entry of a printed array or dictionary.
use io_tware.Common.{
  ℕ, suc, ◌+◌, ◌≡◌, refl, Bool, true, false, none, some, [], ◌∷◌, ◌++◌, ◌∙◌, length,
}
use io_tware.Sifw.Text.{
  Text, is_space, is_graph, is_token, lbrace, rbrace, lbrack, rbrack, equals, semicolon, comma,
}
use io_tware.Sifw.Object.{
  LwmObject, number, string, array, dict, Items, no_items, item, Fields, no_fields, field,
  set_object, add_item,
}
use io_tware.Sifw.Wire.{
  IsToken, emit_to, items_to, more_items_to, fields_to, more_fields_to, mirror_items, AreItems,
  items_cons, IsItem, item_text, item_array, item_dict,
}
use io_tware.Sifw.Parse.{
  Run, ok, ◌>>=◌, advance, starts, skip_spaces, Kvo, text_kvo, object_kvo, as_dict, as_array, store,
  closed, in_value, dict_loop, kvo_parsing, array_start, array_loop, value_refusals, value_stops,
}
use io_tware.Sifw.Parse.Scans.{Plain-Passes, key_scan-token, value_scan-Plain, array_loop-Plain}

-- An array's loop takes an item that is a text.
flush :
    (s rest : Text) (xs ys : Items) (f : ℕ)
    → array_loop (suc f) (in_value s) (more_items_to xs (rbrack ∷ rest)) ys
      ≡ array_loop (suc f) closed (more_items_to xs (rbrack ∷ rest)) (item (string (some s)) ys)
unfolding array_loop more_items_to is_space
flush s rest no_items ys f = refl
flush s rest (item v xs) ys f = refl

pub array_loop-text :
    (c : ℕ) (s rest : Text) (xs ys : Items) (f : ℕ)
    → IsToken (c ∷ s)
    → array_loop
        (suc (suc (length s + suc f)))
        closed
        (comma ∷ c ∷ (s ++ more_items_to xs (rbrack ∷ rest)))
        ys
      ≡ array_loop
          (suc f)
          closed
          (more_items_to xs (rbrack ∷ rest))
          (item (string (some (c ∷ s))) ys)
unfolding array_loop is_space
array_loop-text c s rest xs ys f h =
    let p = Plain-Passes h.0 in
    rw
      (
        p.space,
        p.comma_no,
        p.rbrack_no,
        p.lbrace_no,
        p.lbrack_no,
        p.as_item,
        array_loop-Plain s (c ∷ []) (more_items_to xs (rbrack ∷ rest)) (suc f) ys h.1,
      )
      (flush (c ∷ s) rest xs ys f)

pub array_loop-array :
    (p rest : Text) (xs ys : Items) (f : ℕ)
    → array_start f p ≡ ok (true, xs, rbrack ∷ rest)
    → array_loop (suc (suc f)) closed (comma ∷ lbrack ∷ p) ys
      ≡ array_loop f closed rest (item (array xs) ys)
unfolding array_loop is_space as_array advance add_item
array_loop-array p rest xs ys f e = rw e

pub array_loop-dict :
    (p rest : Text) (fs : Fields) (ys : Items) (f : ℕ)
    → dict_loop f p no_fields ≡ ok (true, fs, rbrace ∷ rest)
    → array_loop (suc (suc f)) closed (comma ∷ lbrace ∷ p) ys
      ≡ array_loop f closed rest (item (dict fs) ys)
unfolding array_loop is_space as_dict advance add_item
array_loop-dict p rest fs ys f e = rw e

-- An array is taken from its bracket on.
pub starts-item : (v : LwmObject) (rest : Text) → IsItem v → starts rbrack (emit_to v rest) ≡ false
unfolding emit_to starts
starts-item (number _) rest h = elim h [ ]
starts-item (string none) rest h = elim h [ ]
starts-item (string (some [])) rest (item_text h) = elim h [ ]
starts-item (string (some (c ∷ s))) rest (item_text h) = (Plain-Passes h.0).rbrack_no
starts-item (array xs) rest (item_array h) = refl
starts-item (dict fs) rest (item_dict h) = refl

pub array_start-items :
    (xs : Items) (rest : Text) (f : ℕ)
    → AreItems xs
    → array_loop (suc f) closed (more_items_to xs (rbrack ∷ rest)) no_items
      ≡ ok (true, mirror_items xs no_items, rbrack ∷ rest)
    → array_start (suc f) (items_to xs (rbrack ∷ rest))
      ≡ ok (true, mirror_items xs no_items, rbrack ∷ rest)
unfolding array_start items_to is_space starts mirror_items
array_start-items no_items rest f h e = refl
array_start-items (item v xs) rest f (items_cons hv h) e =
    rw (starts-item v (more_items_to xs (rbrack ∷ rest)) hv) e

-- A dictionary is taken from its brace on.
pub dict_loop-fields :
    (fs acc : Fields) (rest : Text) (f : ℕ)
    → dict_loop (suc f) (fields_to fs (rbrace ∷ rest)) acc
      ≡ dict_loop (suc (suc f)) (more_fields_to fs (rbrace ∷ rest)) acc
unfolding dict_loop fields_to is_space
dict_loop-fields no_fields acc rest f = refl
dict_loop-fields (field k v fs) acc rest f = refl

-- A key and its value.
kvo_parsing-text :
    (k s rest : Text) (f stop : ℕ)
    → IsToken k
    → IsToken s
    → is_space stop ≡ false
    → is_token stop value_refusals ≡ false
    → is_token stop value_stops ≡ true
    → kvo_parsing (suc f) (k ++ (equals ∷ (s ++ (stop ∷ rest))))
      ≡ ok (some (record { key = some k; value = string (some s) }), stop ∷ rest)
unfolding kvo_parsing skip_spaces text_kvo
kvo_parsing-text k [] rest f stop hk hs a b d = elim hs [ ]
kvo_parsing-text k (c ∷ s) rest f stop hk hs a b d =
    let p = Plain-Passes hs.0 in
    rw (
      kvo_parsing,
      key_scan-token k (c ∷ (s ++ (stop ∷ rest))) hk,
      p.space,
      p.lbrace_no,
      p.lbrack_no,
      p.as_first,
      value_scan-Plain s (c ∷ []) rest stop a b d hs.1,
    )

kvo_parsing-array :
    (k p rest : Text) (xs : Items) (f : ℕ)
    → IsToken k
    → array_start f p ≡ ok (true, xs, rbrack ∷ rest)
    → kvo_parsing (suc f) (k ++ (equals ∷ lbrack ∷ p))
      ≡ ok (some (record { key = some k; value = array xs }), rbrack ∷ rest)
unfolding kvo_parsing skip_spaces object_kvo as_array is_space
kvo_parsing-array k p rest xs f hk e = rw (kvo_parsing, key_scan-token k (lbrack ∷ p) hk, e)

-- A dictionary's loop takes an entry.
abbrev behind : ℕ → Text → Fields → Run (Bool × Fields × Text)
behind f p acc = elim (starts rbrace p) [
  | true ↦ ok (true, acc, p)
  | false ↦ do p' ← advance p; dict_loop f p' acc
]

dict_loop-entry :
    (k p rest : Text) (e : Kvo) (acc : Fields) (f : ℕ)
    → IsToken k
    → kvo_parsing f (k ++ p) ≡ ok (some e, rest)
    → dict_loop (suc (suc f)) (semicolon ∷ (k ++ p)) acc ≡ behind f rest (store e acc)
unfolding dict_loop is_space
dict_loop-entry [] p rest e acc f hk q = elim hk [ ]
dict_loop-entry (c ∷ k) p rest e acc f hk q =
    let ps = Plain-Passes hk.0 in rw (ps.space, ps.rbrace_no, ps.semicolon_no, q)

behind-fields :
    (fs acc : Fields) (rest : Text) (f : ℕ)
    → behind f (more_fields_to fs (rbrace ∷ rest)) acc
      ≡ dict_loop (suc f) (more_fields_to fs (rbrace ∷ rest)) acc
unfolding dict_loop more_fields_to starts advance is_space
behind-fields no_fields acc rest f = refl
behind-fields (field k v fs) acc rest f = refl

pub dict_loop-array :
    (k p rest : Text) (xs : Items) (acc : Fields) (f : ℕ)
    → IsToken k
    → array_start f p ≡ ok (true, xs, rbrack ∷ rest)
    → dict_loop (suc (suc (suc f))) (semicolon ∷ (k ++ (equals ∷ lbrack ∷ p))) acc
      ≡ dict_loop (suc f) rest (set_object acc k (array xs))
unfolding store advance starts
dict_loop-array k p rest xs acc f hk e =
    dict_loop-entry k (equals ∷ lbrack ∷ p) (rbrack ∷ rest)
      (record { key = some k; value = array xs }) acc (suc f) hk
      (kvo_parsing-array k p rest xs f hk e)

semicolon-scan :
    (is_space semicolon ≡ false)
    × (is_token semicolon value_refusals ≡ false)
    × (is_token semicolon value_stops ≡ true)
unfolding is_space is_token is_graph
semicolon-scan = (refl, refl, refl)

rbrace-scan :
    (is_space rbrace ≡ false)
    × (is_token rbrace value_refusals ≡ false)
    × (is_token rbrace value_stops ≡ true)
unfolding is_space is_token is_graph
rbrace-scan = (refl, refl, refl)

kvo_parsing-fields :
    (k s rest : Text) (fs : Fields) (f : ℕ)
    → IsToken k
    → IsToken s
    → kvo_parsing (suc f) (k ++ (equals ∷ (s ++ more_fields_to fs (rbrace ∷ rest))))
      ≡ ok (
        some (record { key = some k; value = string (some s) }),
        more_fields_to fs (rbrace ∷ rest),
      )
unfolding more_fields_to
kvo_parsing-fields k s rest no_fields f hk hs =
    let q = rbrace-scan in kvo_parsing-text k s rest f rbrace hk hs q.0 q.1 q.2
kvo_parsing-fields k s rest (field k' v fs) f hk hs =
    let q = semicolon-scan in
    kvo_parsing-text k s (fields_to (field k' v fs) (rbrace ∷ rest)) f semicolon hk hs q.0 q.1 q.2

pub dict_loop-text :
    (k s rest : Text) (fs acc : Fields) (f : ℕ)
    → IsToken k
    → IsToken s
    → dict_loop
        (suc (suc (suc f)))
        (semicolon ∷ (k ++ (equals ∷ (s ++ more_fields_to fs (rbrace ∷ rest)))))
        acc
      ≡ dict_loop
          (suc (suc f))
          (more_fields_to fs (rbrace ∷ rest))
          (set_object acc k (string (some s)))
unfolding store
dict_loop-text k s rest fs acc f hk hs =
    dict_loop-entry k (equals ∷ (s ++ more_fields_to fs (rbrace ∷ rest)))
      (more_fields_to fs (rbrace ∷ rest)) (record { key = some k; value = string (some s) }) acc
      (suc f) hk (kvo_parsing-fields k s rest fs f hk hs)
    ∙ behind-fields fs (set_object acc k (string (some s))) rest (suc f)
