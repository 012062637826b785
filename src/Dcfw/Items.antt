-- ===== src/Dcfw/Items.antt =====
-- What a message with a list of items needs of their routines: the interface that
-- iw_fw_collabomsg_internal.c offers to the message files, once for plain attributes and once for
-- attributes with values.
use io_tware.Common.{
  ℕ, suc, ◌+◌, ◌*◌, ◌≤◌, ◌<◌, ◌≡◌, true, List, [], ◌∷◌, ◌++◌, append-nil, ap, ◌∙◌, Bytes, Calloc,
  zeros, length, length-map, length-append, All, Exec, ok, undefined, le→leb, lt→ltb, arith,
}
use io_tware.Dcfw.Attributes.{
  CmAttributePayload, CmAttributeValuePayload, attribute_byte, attributes_serialize_size,
  attributes_serialize, attributes_parse, attribute_values_serialize_size,
  attribute_values_serialize, attribute_values_parse, real_attr_count,
}
use io_tware.Dcfw.Attributes.Counts.{real_value_length-pos}
use io_tware.Dcfw.Attributes.Plain.{
  AttributeFits, attributes_image, attributes_serialize-image, attributes_parse_loop-image,
  attributes_parse_loop-short,
}
use io_tware.Dcfw.Attributes.Values.{
  ValueFits, values_image, values_size_loop-image, values_serialize_loop-image,
  values_parse_loop-image, values_parse_loop-short,
}

pub record ItemCodec (A : Type 0) : Type 1 where
  pub serialize_size : List A → ℕ → Exec ℕ
  pub serialize : List A → ℕ → ℕ → Bytes → Exec Bytes
  pub parse : Calloc → ℕ → Bytes → ℕ → ℕ → Exec (List A)
  pub Fits : A → Type 0
  pub image : List A → Bytes
  pub image_bound : (xs : List A) → All Fits xs → length (image xs) ≤ 9 * length xs
  pub serialize_size_lem :
      (xs : List A)
      → All Fits xs
      → length xs ≤ 4
      → serialize_size xs (length xs) ≡ ok (length (image xs))
  pub serialize_lem :
      (xs : List A) (off n k : ℕ) (pre : Bytes)
      → All Fits xs
      → 0 < length xs
      → length xs ≤ 4
      → off ≡ length pre
      → n ≡ length (image xs) + k
      → serialize xs (length xs) off (pre ++ zeros n) ≡ ok ((pre ++ image xs) ++ zeros k)
  pub parse_lem :
      (calloc : Calloc) (k : ℕ) (xs : List A) (count : ℕ)
      → ((i n : ℕ) → calloc i n ≡ true)
      → All Fits xs
      → count < 4
      → length xs ≡ suc count
      → parse calloc k (image xs) (length (image xs)) count ≡ ok xs
  pub parse_short :
      (calloc : Calloc) (k : ℕ) (bs : Bytes) (count : ℕ)
      → ((i n : ℕ) → calloc i n ≡ true)
      → count < 4
      → 1 ≤ length bs
      → length bs ≤ count
      → parse calloc k bs (length bs) count ≡ undefined

real-count : (count : ℕ) → count < 4 → real_attr_count count ≡ suc count
unfolding real_attr_count
real-count count h = omega arith

pub plain_size :
    (xs : List CmAttributePayload)
    → length xs ≤ 4
    → ok (attributes_serialize_size (length xs)) ≡ ok (length (attributes_image xs))
unfolding attributes_serialize_size
plain_size xs h = ap ok (omega (arith, length-map attribute_byte xs))

pub plain_parse :
    (calloc : Calloc) (k : ℕ) (xs : List CmAttributePayload) (count : ℕ)
    → ((i n : ℕ) → calloc i n ≡ true)
    → All AttributeFits xs
    → count < 4
    → length xs ≡ suc count
    → attributes_parse calloc k (attributes_image xs) (length (attributes_image xs)) count ≡ ok xs
unfolding attributes_parse
plain_parse calloc k xs count c h lt e =
    rw
      (
        le→leb 1 (length (attributes_image xs)) (omega (arith, length-map attribute_byte xs)),
        c k (real_attr_count count),
        real-count count lt,
        ← e,
      )
      (rw (append-nil (attributes_image xs)) at (attributes_parse_loop-image xs [] h))

pub plain_short :
    (calloc : Calloc) (k : ℕ) (bs : Bytes) (count : ℕ)
    → ((i n : ℕ) → calloc i n ≡ true)
    → count < 4
    → 1 ≤ length bs
    → length bs ≤ count
    → attributes_parse calloc k bs (length bs) count ≡ undefined
unfolding attributes_parse
plain_short calloc k bs count c lt some few =
    rw (le→leb 1 (length bs) some, c k (real_attr_count count), real-count count lt)
      (attributes_parse_loop-short (suc count) bs (omega arith))

pub plain_bound :
    (xs : List CmAttributePayload)
    → All AttributeFits xs
    → length (attributes_image xs) ≤ 9 * length xs
plain_bound xs h = omega (arith, length-map attribute_byte xs)

-- `cm_attributes_*`
abbrev pub plain_codec : ItemCodec CmAttributePayload
plain_codec = record {
  serialize_size = λ xs count. ok (attributes_serialize_size count);
  serialize = attributes_serialize;
  parse = attributes_parse;
  Fits = AttributeFits;
  image = attributes_image;
  image_bound = plain_bound;
  serialize_size_lem = λ xs h. plain_size xs;
  serialize_lem = λ xs off n k pre h some few e f.
      attributes_serialize-image xs off n k pre some e
        (f ∙ ap (λ m. m + k) (length-map attribute_byte xs));
  parse_lem = plain_parse;
  parse_short = plain_short;
}

pub values_bound :
    (xs : List CmAttributeValuePayload)
    → All ValueFits xs
    → length (values_image xs) ≤ 9 * length xs
values_bound [] h = omega arith
values_bound (v ∷ xs) h = omega (
  arith,
  length-append v.values (values_image xs),
  values_bound xs h.1,
  real_value_length-pos v.value_length,
)

pub values_size :
    (xs : List CmAttributeValuePayload)
    → All ValueFits xs
    → length xs ≤ 4
    → attribute_values_serialize_size xs (length xs) ≡ ok (length (values_image xs))
unfolding attribute_values_serialize_size
values_size xs h few =
    let (n, e, total) = values_size_loop-image xs 0 h (omega (arith, values_bound xs h)) in
    rw e (ap ok (omega (arith, values_bound xs h)))

pub values_serialize :
    (xs : List CmAttributeValuePayload) (off n k : ℕ) (pre : Bytes)
    → All ValueFits xs
    → 0 < length xs
    → length xs ≤ 4
    → off ≡ length pre
    → n ≡ length (values_image xs) + k
    → attribute_values_serialize xs (length xs) off (pre ++ zeros n)
      ≡ ok ((pre ++ values_image xs) ++ zeros k)
unfolding attribute_values_serialize
values_serialize xs off n k pre h some few e f =
    rw (lt→ltb 0 (length xs) some, values_size xs h few)
      (values_serialize_loop-image xs off n k pre h e f)

values_nonempty : (xs : List CmAttributeValuePayload) → 0 < length xs → 1 ≤ length (values_image xs)
values_nonempty [] h = absurd (omega arith)
values_nonempty (v ∷ xs) h = omega arith

pub values_parse :
    (calloc : Calloc) (k : ℕ) (xs : List CmAttributeValuePayload) (count : ℕ)
    → ((i n : ℕ) → calloc i n ≡ true)
    → All ValueFits xs
    → count < 4
    → length xs ≡ suc count
    → attribute_values_parse calloc k (values_image xs) (length (values_image xs)) count ≡ ok xs
unfolding attribute_values_parse
values_parse calloc k xs count c h lt e =
    rw
      (
        le→leb 1 (length (values_image xs)) (omega (arith, values_nonempty xs)),
        c k (real_attr_count count * 5),
        real-count count lt,
        ← e,
      )
      (rw (append-nil (values_image xs)) at (values_parse_loop-image xs calloc (k + 1) [] c h))

pub values_short :
    (calloc : Calloc) (k : ℕ) (bs : Bytes) (count : ℕ)
    → ((i n : ℕ) → calloc i n ≡ true)
    → count < 4
    → 1 ≤ length bs
    → length bs ≤ count
    → attribute_values_parse calloc k bs (length bs) count ≡ undefined
unfolding attribute_values_parse
values_short calloc k bs count c lt some few =
    rw (le→leb 1 (length bs) some, c k (real_attr_count count * 5), real-count count lt)
      (values_parse_loop-short (suc count) calloc (k + 1) bs (omega arith))

-- `cm_attribute_values_*`
abbrev pub values_codec : ItemCodec CmAttributeValuePayload
values_codec = record {
  serialize_size = attribute_values_serialize_size;
  serialize = attribute_values_serialize;
  parse = attribute_values_parse;
  Fits = ValueFits;
  image = values_image;
  image_bound = values_bound;
  serialize_size_lem = values_size;
  serialize_lem = values_serialize;
  parse_lem = values_parse;
  parse_short = values_short;
}
