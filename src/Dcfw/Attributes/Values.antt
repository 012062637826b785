-- ===== src/Dcfw/Attributes/Values.antt =====
-- Lists of attributes with values: what is written, and what is read back.
use io_tware.Common.{
  ℕ, zero, suc, ◌+◌, ◌/◌, ◌%◌, ◌^◌, ◌<◌, ◌≡◌, refl, ap, ◌∙◌, true, List, [], ◌∷◌, ◌++◌, Bytes,
  Calloc, write-next, read_one, read_all, read-append, read-undefined, read-cases, zeros, length,
  length-append, append_assoc, append-nil, All, ok, undefined, Bool-cases, inl, inr, arith,
}
use io_tware.Dcfw.Attributes.{
  CmAttributeValuePayload, value_byte, load_value, real_value_length, values_size_loop,
  values_serialize_loop, values_parse_loop, size_t,
}

abbrev pub ValueFits : CmAttributeValuePayload → Type 0
ValueFits v =
    (v.attribute_id < 64)
    × (v.value_length < 4)
    × (length v.values ≡ real_value_length v.value_length)

value_byte-length :
    (v : CmAttributeValuePayload) → ValueFits v → value_byte v / 64 % 4 ≡ v.value_length
value_byte-length v f = omega arith

load_value-byte :
    (v : CmAttributeValuePayload) → ValueFits v → load_value (value_byte v) v.values ≡ v
load_value-byte v f = ground arith

-- The byte of each element, followed by its values.
abbrev pub values_image : List CmAttributeValuePayload → Bytes
values_image [] = []
values_image (v ∷ vs) = value_byte v ∷ (v.values ++ values_image vs)

-- The lengths are counted without overflow.
pub values_size_loop-image :
    (xs : List CmAttributeValuePayload) (size : ℕ)
    → All ValueFits xs
    → size + length (values_image xs) < 2 ^ 32
    → (n : ℕ) × (values_size_loop xs (length xs) size ≡ ok n)
      × (n + length xs ≡ size + length (values_image xs))
unfolding values_size_loop
values_size_loop-image [] size h k = (size, refl, omega arith)
values_size_loop-image (v ∷ xs) size h k =
    let total = length-append v.values (values_image xs) in
    let same : size_t (size + real_value_length v.value_length) ≡ size + length v.values =
      omega arith in
    let (n, e, s) = values_size_loop-image xs (size + length v.values) h.1 (omega arith) in
    (n, ap (values_size_loop xs (length xs)) same ∙ e, omega arith)

pub values_serialize_loop-image :
    (xs : List CmAttributeValuePayload) (off n k : ℕ) (pre : Bytes)
    → All ValueFits xs
    → off ≡ length pre
    → n ≡ length (values_image xs) + k
    → values_serialize_loop xs (length xs) off (pre ++ zeros n)
      ≡ ok ((pre ++ values_image xs) ++ zeros k)
unfolding values_serialize_loop
values_serialize_loop-image [] off n k pre h e f =
    let same : n ≡ k = omega arith in rw (same, append-nil pre)
values_serialize_loop-image (v ∷ xs) off n k pre h e f =
    let total = length-append v.values (values_image xs) in
    let byte = value_byte v ∷ [] in
    let wrote = pre ++ byte in
    rw
      (
        write-next off n (length (v.values ++ values_image xs) + k) pre byte e (omega arith),
        read_all (real_value_length v.value_length) v.values (omega arith),
        write-next (off + 1) (length (v.values ++ values_image xs) + k)
            (length (values_image xs) + k) wrote v.values (omega (arith, length-append pre byte))
            (omega arith),
        values_serialize_loop-image xs (off + 1 + real_value_length v.value_length)
            (length (values_image xs) + k) k (wrote ++ v.values) h.1
            (omega (arith, length-append wrote v.values, length-append pre byte)) refl,
      )
      (simp append_assoc)

pub values_parse_loop-image :
    (xs : List CmAttributeValuePayload) (calloc : Calloc) (k : ℕ) (rest : Bytes)
    → ((i n : ℕ) → calloc i n ≡ true)
    → All ValueFits xs
    → values_parse_loop calloc k (length xs) (values_image xs ++ rest) ≡ ok xs
unfolding values_parse_loop
values_parse_loop-image [] calloc k rest c h = refl
values_parse_loop-image (v ∷ xs) calloc k rest c h = rw (
  read_one (value_byte v) ((v.values ++ values_image xs) ++ rest),
  c k (real_value_length (value_byte v / 64 % 4)),
  append_assoc v.values (values_image xs) rest,
  read-append (real_value_length (value_byte v / 64 % 4)) v.values (values_image xs ++ rest) long,
  values_parse_loop-image xs calloc (k + 1) rest c h.1,
  load_value-byte v h.0,
)
  where
    long : real_value_length (value_byte v / 64 % 4) ≡ length v.values
    long = rw (value_byte-length v h.0) (omega arith)

-- Every element takes a byte at least, whatever `calloc` does.
pub values_parse_loop-short :
    (rounds : ℕ) (calloc : Calloc) (k : ℕ) (pt : Bytes)
    → length pt < rounds
    → values_parse_loop calloc k rounds pt ≡ undefined
unfolding values_parse_loop
values_parse_loop-short zero calloc k pt h = absurd (omega arith)
values_parse_loop-short (suc rounds) calloc k [] h = rw (read-undefined 1 [] (omega arith))
values_parse_loop-short (suc rounds) calloc k (b ∷ pt) h =
    let size = real_value_length (b / 64 % 4) in
    elim (Bool-cases (calloc k size)) [
      | inl done ↦ elim (read-cases size pt) [
        | inl failed ↦ rw (read_one b pt, done, failed)
        | inr (vs, rest, e, le) ↦ rw (
          read_one b pt,
          done,
          e,
          values_parse_loop-short rounds calloc (k + 1) rest (omega arith),
        )
      ]
      | inr failed ↦
          rw (read_one b pt, failed, values_parse_loop-short rounds calloc (k + 1) pt (omega arith))
    ]
