-- ===== src/Sifw/Faults.antt =====
-- Where the text form and its parser do not carry a message.
use io_tware.Common.{
  ℕ, suc, ◌+◌, ◌*◌, ◌/◌, ◌%◌, ◌<◌, ◌≤◌, ◌≡◌, refl, true, false, none, some, [], ◌∷◌, ◌++◌, length,
  length-append, arith, if◌then◌else◌, ltb, lt→ltb, All, ◌⊎◌, inl, inr, ne→==_false, Bool,
}
use io_tware.Sifw.Text.{Text, is_space, is_graph, is_token, lbrace, rbrace, equals, semicolon}
use io_tware.Sifw.Numbers.{sent_value, serialize_number-value}
use io_tware.Sifw.Object.{
  uint8, uint16, uint32, string, dict, Fields, no_fields, field, delete_by_key,
}
use io_tware.Sifw.Wire.{Plain, IsToken, AreFields, fields_to, mirror_fields}
use io_tware.Sifw.Parse.{
  Run, ok, undefined, ◌>>=◌, Kvo, starts, advance, store, ended, value_scan, skip_spaces, text_kvo,
  object_kvo, as_dict, dict_loop, kvo_parsing, message_loop, finish, parse_message, enough,
  message_refusals,
}
use io_tware.Sifw.Parse.Scans.{Plain-Passes, key_scan-token}
use io_tware.Sifw.Parse.Entries.{dict_loop-printed}
use io_tware.Sifw.Serialize.{serialize_number, snprintf, decimal, digits_loop}

-- A text that ends within a value.
value_scan-ended : (s acc : Text) → All Plain s → value_scan acc s ≡ ended
unfolding value_scan
value_scan-ended [] acc h = refl
value_scan-ended (c ∷ s) acc h =
    let p = Plain-Passes h.0 in
    rw (p.space, p.in_value_refusals, p.in_value_stops, value_scan-ended s (acc ++ (c ∷ [])) h.1)

kvo_parsing-ended :
    (k s : Text) (f : ℕ)
    → IsToken k
    → IsToken s
    → kvo_parsing (suc f) (k ++ (equals ∷ s))
      ≡ ok (some (record { key = some k; value = string none }), [])
unfolding kvo_parsing skip_spaces text_kvo
kvo_parsing-ended k [] f hk hs = elim hs [ ]
kvo_parsing-ended k (c ∷ s) f hk hs =
    let p = Plain-Passes hs.0 in
    rw (
      kvo_parsing,
      key_scan-token k (c ∷ s) hk,
      p.space,
      p.lbrace_no,
      p.lbrack_no,
      p.as_first,
      value_scan-ended s (c ∷ []) hs.1,
    )

kvo_parsing-dict :
    (k p rest : Text) (fs : Fields) (f : ℕ)
    → IsToken k
    → dict_loop f p no_fields ≡ ok (true, fs, rest)
    → kvo_parsing (suc f) (k ++ (equals ∷ lbrace ∷ p))
      ≡ ok (some (record { key = some k; value = dict fs }), rest)
unfolding kvo_parsing skip_spaces object_kvo as_dict is_space
kvo_parsing-dict k p rest fs f hk e = rw (kvo_parsing, key_scan-token k (lbrace ∷ p) hk, e)

abbrev behind : ℕ → Text → Fields → Run (Bool × Fields × Text)
behind f p acc = elim (starts rbrace p) [
  | true ↦ ok (true, acc, p)
  | false ↦ do p' ← advance p; dict_loop f p' acc
]

dict_loop-first :
    (k p rest : Text) (e : Kvo) (f : ℕ)
    → IsToken k
    → kvo_parsing f (k ++ p) ≡ ok (some e, rest)
    → dict_loop (suc f) (k ++ p) no_fields ≡ behind f rest (store e no_fields)
unfolding dict_loop
dict_loop-first [] p rest e f hk q = elim hk [ ]
dict_loop-first (c ∷ k) p rest e f hk q =
    let ps = Plain-Passes hk.0 in rw (ps.space, ps.rbrace_no, ps.semicolon_no, q)

lbrace-message : (is_space lbrace ≡ false) × (is_token lbrace message_refusals ≡ false)
unfolding is_space is_token is_graph
lbrace-message = (refl, refl)

-- A message whose text ends within the value of its first key, without the closing brace: the
-- parser steps behind the text's end.
pub parse-unterminated :
    (k s : Text) → IsToken k → IsToken s → parse_message (lbrace ∷ (k ++ (equals ∷ s))) ≡ undefined
unfolding parse_message message_loop starts advance
parse-unterminated k s hk hs =
    let p = k ++ (equals ∷ s) in
    let e : length p + 2 ≡ suc (suc (length p)) = omega arith in
    let e' : enough p ≡ suc (suc (4 * length p + 2)) = omega arith in
    rw (
      e,
      lbrace-message.0,
      lbrace-message.1,
      e',
      dict_loop-first k (equals ∷ s) [] (record { key = some k; value = string none })
          (suc (4 * length p + 2)) hk (kvo_parsing-ended k s (4 * length p + 2) hk hs),
    )

separator :
    (stop : ℕ)
    → (stop ≡ semicolon) ⊎ (stop ≡ rbrace)
    → (is_space stop ≡ false) × (is_token stop message_refusals ≡ true)
unfolding is_space is_token is_graph
separator stop (inl e) = rw e (refl, refl)
separator stop (inr e) = rw e (refl, refl)

-- A header whose first value is a dictionary, followed by a further entry or by the header's end:
-- the inner brace ends the header, and what stands behind it is dropped, the body included.
pub parse-nested :
    (k rest : Text) (fs : Fields) (stop : ℕ)
    → IsToken k
    → AreFields fs
    → (stop ≡ semicolon) ⊎ (stop ≡ rbrace)
    → parse_message (lbrace ∷ (k ++ (equals ∷ lbrace ∷ fields_to fs (rbrace ∷ stop ∷ rest))))
      ≡ ok (
          some (record {
            header = field k (dict (mirror_fields fs no_fields)) no_fields;
            body = no_fields;
          }))
unfolding parse_message message_loop starts advance finish store delete_by_key
parse-nested k rest fs stop hk hf hs =
    let inner = fields_to fs (rbrace ∷ stop ∷ rest) in
    let p = k ++ (equals ∷ lbrace ∷ inner) in
    let l = length-append k (equals ∷ lbrace ∷ inner) in
    let e : length p + 2 ≡ suc (suc (length p)) = omega arith in
    let e' : enough p ≡ suc (suc (4 * length p + 2)) = omega arith in
    let q = separator stop hs in
    rw (
      e,
      lbrace-message.0,
      lbrace-message.1,
      e',
      dict_loop-first k (equals ∷ lbrace ∷ inner) (rbrace ∷ stop ∷ rest)
          (record { key = some k; value = dict (mirror_fields fs no_fields) })
          (suc (4 * length p + 2)) hk
          (kvo_parsing-dict k inner (rbrace ∷ stop ∷ rest) (mirror_fields fs no_fields)
            (4 * length p + 2) hk
            (dict_loop-printed fs (stop ∷ rest) (4 * length p + 2) hf (omega (arith, l)))),
      q.0,
      q.1,
    )

decimal-1 : (n : ℕ) → n < 10 → decimal n ≡ (48 + n % 10) ∷ []
unfolding decimal digits_loop
decimal-1 n h = let e : n / 10 ≡ 0 = omega arith in rw e

decimal-2 : (n : ℕ) → 9 < n → n < 100 → decimal n ≡ (48 + n / 10 % 10) ∷ (48 + n % 10) ∷ []
unfolding decimal digits_loop
decimal-2 n l h =
    let e : n / 10 / 10 ≡ 0 = omega arith in rw (ne→==_false (n / 10) 0 (omega arith), e)

decimal-3 :
    (n : ℕ)
    → 99 < n
    → n < 1000
    → decimal n ≡ (48 + n / 10 / 10 % 10) ∷ (48 + n / 10 % 10) ∷ (48 + n % 10) ∷ []
unfolding decimal digits_loop
decimal-3 n l h =
    let e : n / 10 / 10 / 10 ≡ 0 = omega arith in
    rw (ne→==_false (n / 10) 0 (omega arith), ne→==_false (n / 10 / 10) 0 (omega arith), e)

ltb-ge : (a b : ℕ) → b ≤ a → ltb a b ≡ false
ltb-ge a b h = ground arith

three-ways : (n : ℕ) → (n < 10) ⊎ ((9 < n) × (n < 100)) ⊎ (99 < n)
three-ways n = ground arith

serialize_number-uint8 :
    (n : ℕ)
    → n < 256
    → serialize_number (uint8 n) ≡ some (decimal (if ltb n 100 then n else n / 10))
unfolding serialize_number snprintf
serialize_number-uint8 n h = elim (three-ways n) [
  | inl l ↦ rw (lt→ltb n 100 (omega arith), decimal-1 n l)
  | inr (inl l) ↦ rw (lt→ltb n 100 l.1, decimal-2 n l.0 l.1)
  | inr (inr l) ↦ rw (
    ltb-ge n 100 (omega arith),
    decimal-3 n l (omega arith),
    decimal-2 (n / 10) (omega arith) (omega arith),
  )
]

-- Unsigned numbers that leave room for the NUL in the size given to snprintf, which are those of two
-- digits in 8 bits, four in 16 and nine in 32, are sent as the digits that stand for them. An
-- unsigned 8-bit number of three digits is sent without the last one.
pub serialize_number-unsigned :
    (a b c n : ℕ)
    → a < 100
    → b < 10000
    → c < 1000000000
    → n < 256
    → ((sent_value (serialize_number (uint8 a)) ≡ some a)
        × (sent_value (serialize_number (uint16 b)) ≡ some b)
        × (sent_value (serialize_number (uint32 c)) ≡ some c))
      × (serialize_number (uint8 n) ≡ some (decimal (if ltb n 100 then n else n / 10)))
serialize_number-unsigned a b c n ha hb hc hn =
    (serialize_number-value a b c ha hb hc, serialize_number-uint8 n hn)
