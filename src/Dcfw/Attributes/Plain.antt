-- ===== src/Dcfw/Attributes/Plain.antt =====
-- Lists of attributes without values: what is written, and what is read back.
use io_tware.Common.{
  ℕ, zero, suc, ◌+◌, ◌<◌, ◌≡◌, refl, List, [], ◌∷◌, ◌++◌, map, Bytes, write-next, read_one,
  read-undefined, zeros, length, length-map, take-length, All, ok, undefined, lt→ltb, le→leb, arith,
}
use io_tware.Dcfw.Attributes.{
  CmAttributePayload, attribute_byte, load_attribute, attributes_serialize, attributes_parse_loop,
}

abbrev pub AttributeFits : CmAttributePayload → Type 0
AttributeFits a = (a.attribute_id < 64) × (a.value_length < 4)

load_attribute-byte :
    (a : CmAttributePayload) → AttributeFits a → load_attribute (attribute_byte a) ≡ a
load_attribute-byte a f = ground arith

abbrev pub attributes_image : List CmAttributePayload → Bytes
attributes_image = map attribute_byte

-- All elements of a non-empty array are written, in order and one byte each, behind what is there.
pub attributes_serialize-image :
    (xs : List CmAttributePayload) (off n k : ℕ) (pre : Bytes)
    → 0 < length xs
    → off ≡ length pre
    → n ≡ length xs + k
    → attributes_serialize xs (length xs) off (pre ++ zeros n)
      ≡ ok ((pre ++ attributes_image xs) ++ zeros k)
unfolding attributes_serialize
attributes_serialize-image xs off n k pre some e f =
    rw (lt→ltb 0 (length xs) some, le→leb (length xs) (length xs) (omega arith), take-length xs)
      (write-next off n k pre (attributes_image xs) e (omega (arith, length-map attribute_byte xs)))

pub attributes_parse_loop-image :
    (xs : List CmAttributePayload) (rest : Bytes)
    → All AttributeFits xs
    → attributes_parse_loop (length xs) (attributes_image xs ++ rest) ≡ ok xs
unfolding attributes_parse_loop
attributes_parse_loop-image [] rest h = refl
attributes_parse_loop-image (x ∷ xs) rest h = rw (
  read_one (attribute_byte x) (attributes_image xs ++ rest),
  attributes_parse_loop-image xs rest h.1,
  load_attribute-byte x h.0,
)

pub attributes_parse_loop-short :
    (rounds : ℕ) (pt : Bytes) → length pt < rounds → attributes_parse_loop rounds pt ≡ undefined
unfolding attributes_parse_loop
attributes_parse_loop-short zero pt h = absurd (omega arith)
attributes_parse_loop-short (suc rounds) [] h = rw (read-undefined 1 [] (omega arith))
attributes_parse_loop-short (suc rounds) (b ∷ pt) h =
    rw (read_one b pt, attributes_parse_loop-short rounds pt (omega arith))
