-- ===== src/Sifw/Parse/Scans.antt =====
-- The scans of the parser over plain characters.
use io_tware.Common.{
  ℕ, suc, ◌+◌, ◌≡◌, refl, true, false, none, some, [], ◌∷◌, ◌++◌, append_assoc, append-nil, ap, All,
  ◌==◌, length, arith, le→leb, lt→leb_false, ne→==_false,
}
use io_tware.Sifw.Text.{
  Text, is_space, is_graph, is_token, lbrace, rbrace, lbrack, rbrack, equals, semicolon, comma,
}
use io_tware.Sifw.Object.{Items}
use io_tware.Sifw.Wire.{Plain, IsToken}
use io_tware.Sifw.Parse.{
  key_scan, key_stops, value_scan, value_refusals, value_stops, first_refusals, item_refusals,
  found, array_loop, in_value,
}

-- What each test of the parser says of a plain character.
pub record Passes (c : ℕ) : Type 0 where
  pub space : is_space c ≡ false
  pub in_key : is_token c key_stops ≡ false
  pub in_value_refusals : is_token c value_refusals ≡ false
  pub in_value_stops : is_token c value_stops ≡ false
  pub as_first : is_token c first_refusals ≡ false
  pub as_item : is_token c item_refusals ≡ false
  pub lbrace_no : (c == lbrace) ≡ false
  pub rbrace_no : (c == rbrace) ≡ false
  pub lbrack_no : (c == lbrack) ≡ false
  pub rbrack_no : (c == rbrack) ≡ false
  pub equals_no : (c == equals) ≡ false
  pub semicolon_no : (c == semicolon) ≡ false
  pub comma_no : (c == comma) ≡ false

Plain-graph : {c : ℕ} → Plain c → is_graph c ≡ true
unfolding is_graph
Plain-graph {c} p = rw (le→leb 33 c p.low, le→leb c 126 p.high)

Plain-space : {c : ℕ} → Plain c → is_space c ≡ false
unfolding is_space
Plain-space {c} p =
    rw (ne→==_false c 32 (omega arith), le→leb 9 c (omega arith), lt→leb_false c 13 (omega arith))

pub Plain-Passes : {c : ℕ} → Plain c → Passes c
unfolding is_token
Plain-Passes {c} p =
    let graph = Plain-graph p in
    let a = ne→==_false c lbrace p.not_lbrace in
    let b = ne→==_false c rbrace p.not_rbrace in
    let d = ne→==_false c lbrack p.not_lbrack in
    let e = ne→==_false c rbrack p.not_rbrack in
    let f = ne→==_false c equals p.not_equals in
    let g = ne→==_false c semicolon p.not_semicolon in
    let h = ne→==_false c comma p.not_comma in
    record {
      space = Plain-space p;
      in_key = rw (a, graph, b, d, e, g, h);
      in_value_refusals = rw (a, graph, d, f, h);
      in_value_stops = rw (e, graph, b, g);
      as_first = rw (e, graph, b, g, f, h);
      as_item = rw (b, graph, g, f);
      lbrace_no = a;
      rbrace_no = b;
      lbrack_no = d;
      rbrack_no = e;
      equals_no = f;
      semicolon_no = g;
      comma_no = h;
    }

equals-space : is_space equals ≡ false
unfolding is_space
equals-space = refl

equals-key_stops : is_token equals key_stops ≡ false
unfolding is_token is_graph
equals-key_stops = refl

-- A key is read up to its `=`.
key_scan-Plain :
    (s acc rest : Text)
    → All Plain s
    → key_scan (some acc) (s ++ (equals ∷ rest)) ≡ found (acc ++ s) rest
unfolding key_scan
key_scan-Plain [] acc rest h = rw (equals-space, equals-key_stops, append-nil acc)
key_scan-Plain (c ∷ s) acc rest h =
    let p = Plain-Passes h.0 in
    rw (p.space, p.in_key, p.equals_no, key_scan-Plain s (acc ++ (c ∷ [])) rest h.1)
      (ap (λ k. found k rest) (append_assoc acc (c ∷ []) s))

pub key_scan-token :
    (s rest : Text) → IsToken s → key_scan none (s ++ (equals ∷ rest)) ≡ found s rest
unfolding key_scan
key_scan-token [] rest h = elim h [ ]
key_scan-token (c ∷ s) rest h =
    let p = Plain-Passes h.0 in
    rw (p.space, p.in_key, p.equals_no, key_scan-Plain s (c ∷ []) rest h.1)

-- A value is read up to a character that stops it.
pub value_scan-Plain :
    (s acc rest : Text) (stop : ℕ)
    → is_space stop ≡ false
    → is_token stop value_refusals ≡ false
    → is_token stop value_stops ≡ true
    → All Plain s
    → value_scan acc (s ++ (stop ∷ rest)) ≡ found (acc ++ s) (stop ∷ rest)
unfolding value_scan
value_scan-Plain [] acc rest stop a b d h = rw (a, b, d, append-nil acc)
value_scan-Plain (c ∷ s) acc rest stop a b d h =
    let p = Plain-Passes h.0 in
    rw
      (
        p.space,
        p.in_value_refusals,
        p.in_value_stops,
        value_scan-Plain s (acc ++ (c ∷ [])) rest stop a b d h.1,
      )
      (ap (λ k. found k (stop ∷ rest)) (append_assoc acc (c ∷ []) s))

-- The array loop takes the characters of a value, a unit of fuel each.
pub array_loop-Plain :
    (s acc rest : Text) (f : ℕ) (xs : Items)
    → All Plain s
    → array_loop (length s + f) (in_value acc) (s ++ rest) xs
      ≡ array_loop f (in_value (acc ++ s)) rest xs
unfolding array_loop
array_loop-Plain [] acc rest f xs h = let e : 0 + f ≡ f = omega arith in rw (e, append-nil acc)
array_loop-Plain (c ∷ s) acc rest f xs h =
    let p = Plain-Passes h.0 in
    let e : suc (length s) + f ≡ suc (length s + f) = omega arith in
    rw (
      e,
      p.space,
      p.comma_no,
      p.rbrack_no,
      array_loop-Plain s (acc ++ (c ∷ [])) rest f xs h.1,
      append_assoc acc (c ∷ []) s,
    )
