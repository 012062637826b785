-- ===== src/Sifw/Reception/Sent.antt =====
-- A message that is serialised and sent, as it arrives in the round of reception.
use io_tware.Common.{
  ◌<◌, ltb, length, ◌≡◌, refl, ap, ap₂, ◌∙◌, Bool, true, false, Bool-cases, inl, inr, Option, none,
  some, ◌∷◌, if◌then◌else◌, subst, arith,
}
use io_tware.Sifw.Text.{Text, text_eq}
use io_tware.Sifw.Key
use io_tware.Sifw.Object.{LwmObject, Fields, no_fields, field, fields_length, get_object, LwMessage}
use io_tware.Sifw.Dictionary.{text_eq→≡, text_eq_refl}
use io_tware.Sifw.Wire.{Absent, AreFields, fields_cons, mirror, mirror_fields}
use io_tware.Sifw.Serialize.{serialize_message}
use io_tware.Sifw.Parse.{Run, ok, undefined, ◌>>=◌, parse_message}
use io_tware.Sifw.Parse.RoundTrip.{mirror_message, parse-serialize}
use io_tware.Sifw.Reception.{Reception, is_response, route, receive}

abbrev mirrored : Option LwmObject → Option LwmObject
mirrored none = none
mirrored (some v) = some (mirror v)

-- What is found in the entries of two lists, the first one's first.
abbrev either : Option LwmObject → Option LwmObject → Option LwmObject
either none o = o
either (some v) o = some v

text_eq-false : (s t : Text) → text_eq s t ≡ false → text_eq t s ≡ false
text_eq-false s t h = elim (Bool-cases (text_eq t s)) [
  | inl e ↦
      let same : text_eq s t ≡ true = ap (λ x. text_eq s x) (text_eq→≡ t s e) ∙ text_eq_refl s in
      absurd (true_or_false (text_eq s t) same h)
  | inr e ↦ e
]
  where
    true_or_false : (b : Bool) → b ≡ true → b ≡ false → ⊥
    true_or_false b e f = ground arith

either-none : (o : Option LwmObject) → either o none ≡ o
either-none none = refl
either-none (some v) = refl

get-Absent : (fs : Fields) (k : Text) → Absent k fs → get_object fs k ≡ none
unfolding get_object
get-Absent no_fields k h = refl
get-Absent (field k' v fs) k h = rw (text_eq-false k k' h.0) (get-Absent fs k h.1)

-- Turning a dictionary round leaves what is found in it.
get-mirror_fields :
    (fs acc : Fields) (k : Text)
    → AreFields fs
    → get_object (mirror_fields fs acc) k ≡ either (mirrored (get_object fs k)) (get_object acc k)
unfolding get_object mirror_fields
get-mirror_fields no_fields acc k h = refl
get-mirror_fields (field k' v fs) acc k (fields_cons token value absent rest) =
    elim (Bool-cases (text_eq k' k)) [
      | inl e ↦
          let none_left : get_object fs k ≡ none =
            get-Absent fs k (subst (λ x. Absent x fs) (text_eq→≡ k' k e) absent) in
          get-mirror_fields fs (field k' (mirror v) acc) k rest
          ∙ ap
              (λ o.
                either (mirrored o) (if text_eq k' k then some (mirror v) else get_object acc k))
              none_left
          ∙ rw e refl
      | inr e ↦ get-mirror_fields fs (field k' (mirror v) acc) k rest ∙ rw e refl
    ]

is_response-mirrored :
    (a b : Option LwmObject) → is_response (mirrored a) (mirrored b) ≡ is_response a b
is_response-mirrored none b = refl
is_response-mirrored (some a) none = refl
is_response-mirrored (some a) (some b) = refl

routed :
    (b : Bool) (registered taken : Bool) (msg : LwMessage) (r : Reception)
    → is_response (get_object msg.header Key.dri) (get_object msg.header Key.rsc) ≡ b
    → route registered taken msg r ≡ (
        if b
        then record r { responses = msg ∷ r.responses }
        else if registered
        then (if taken then record r { requests = msg ∷ r.requests } else r)
        else r)
unfolding route
routed b registered taken msg r e =
    ap
      (λ c.
        if c
        then record r { responses = msg ∷ r.responses }
        else if registered
        then (if taken then record r { requests = msg ∷ r.requests } else r)
        else r)
      e

mirrored-response :
    (msg : LwMessage)
    → AreFields msg.header
    → is_response
        (get_object (mirror_message msg).header Key.dri)
        (get_object (mirror_message msg).header Key.rsc)
      ≡ is_response (get_object msg.header Key.dri) (get_object msg.header Key.rsc)
unfolding mirror_message get_object
mirrored-response msg h =
    ap₂ is_response (get-mirror_header msg.header Key.dri h)
      (get-mirror_header msg.header Key.rsc h)
    ∙ is_response-mirrored (get_object msg.header Key.dri) (get_object msg.header Key.rsc)
  where
    get-mirror_header :
        (fs : Fields) (k : Text)
        → AreFields fs
        → get_object (mirror_fields fs no_fields) k ≡ mirrored (get_object fs k)
    get-mirror_header fs k h' =
        get-mirror_fields fs no_fields k h' ∙ either-none (mirrored (get_object fs k))

-- A message of the kind that the text form carries, with fewer than 256 entries in its body,
-- serialised and then received: where its text has 128 characters or more, the parser reads behind
-- the buffer. Where it is shorter, the message arrives with its lists turned round, and reaches the
-- responses where its own header has a dri and an rsc, else the dispatcher's queue where the device
-- is registered and the queue takes it, and is dropped otherwise.
pub receive-serialize :
    (registered taken : Bool) (msg : LwMessage) (r : Reception)
    → AreFields msg.header
    → AreFields msg.body
    → fields_length msg.body < 256
    → receive registered taken (serialize_message msg) r ≡ (
        if ltb (length (serialize_message msg)) 128
        then ok (
            if is_response (get_object msg.header Key.dri) (get_object msg.header Key.rsc)
            then record r { responses = mirror_message msg ∷ r.responses }
            else if registered
            then (if taken then record r { requests = mirror_message msg ∷ r.requests } else r)
            else r)
        else undefined)
unfolding receive
receive-serialize registered taken msg r h h' few =
    by_size (ltb (length (serialize_message msg)) 128)
  where
    next : Option LwMessage → Run Reception
    next parsed = ok (elim parsed [ none ↦ r | some m ↦ route registered taken m r ])

    routed_one : Reception
    routed_one =
        if is_response (get_object msg.header Key.dri) (get_object msg.header Key.rsc)
        then record r { responses = mirror_message msg ∷ r.responses }
        else if registered
        then (if taken then record r { requests = mirror_message msg ∷ r.requests } else r)
        else r

    by_size :
        (fits : Bool)
        → ((if fits then ok (serialize_message msg) else undefined) >>= λ arrived.
            parse_message arrived >>= next)
          ≡ (if fits then ok routed_one else undefined)
    by_size false = refl
    by_size true =
        ap (λ p. p >>= next) (parse-serialize msg h h' few)
        ∙ ap ok (
            routed (is_response (get_object msg.header Key.dri) (get_object msg.header Key.rsc))
              registered taken (mirror_message msg) r (mirrored-response msg h))
