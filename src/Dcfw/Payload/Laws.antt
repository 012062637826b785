-- ===== src/Dcfw/Payload/Laws.antt =====
-- Messages with a payload survive serialisation, which neither overflows its buffer nor leaves a
-- byte of it unwritten; and a payload cut short is read past its end.
use io_tware.Common.{
  ℕ, suc, ◌+◌, ◌-◌, ◌≤◌, ◌<◌, ◌≡◌, refl, sym, true, false, Option, some, [], ◌++◌, append-nil,
  append_assoc, ap, Bytes, Calloc, length, length-append, read-append, write-next, All, Exec, ok,
  undefined, le→leb, arith,
}
use io_tware.Dcfw.Layout.{Layout}
use io_tware.Dcfw.Items.{ItemCodec}
use io_tware.Dcfw.Fixed.{Serialized}
use io_tware.Dcfw.Payload.{
  Payload, serialized_size, fill, serialize_payload, msg_serialize, payload_parse_fields,
  payload_parse, msg_parse,
}

module _ {H P A : Type 0} (head : Layout H) (fields : Layout P) (attr_count : P → ℕ)
    (codec : ItemCodec A) where
  -- The bytes of a message: head, fields, items.
  abbrev pub msg_image : H → Payload P A → Bytes
  msg_image h p = head.image h ++ (fields.image p.fields ++ codec.image p.items)

  -- The counts agree, and every number fits its bit-field.
  abbrev pub MsgFits : H → Payload P A → Type 0
  MsgFits h p =
      head.Fits h
      × fields.Fits p.fields
      × All codec.Fits p.items
      × (length p.items ≡ suc (attr_count p.fields))
      × (attr_count p.fields < 4)

  module _ (small : head.size + fields.size ≤ 64) (h : H) (p : Payload P A) (fits : MsgFits h p)
      (calloc : Calloc) (heap : (i n : ℕ) → calloc i n ≡ true) where
    count : attr_count p.fields + 1 ≡ length p.items
    count = omega arith

    length-msg_image :
        length (msg_image h p) ≡ head.size + fields.size + length (codec.image p.items)
    length-msg_image = omega (
      arith,
      length-append (head.image h) (fields.image p.fields ++ codec.image p.items),
      length-append (fields.image p.fields) (codec.image p.items),
      head.length-image h,
      fields.length-image p.fields,
    )

    size-msg_image : serialized_size head fields attr_count codec p ≡ ok (length (msg_image h p))
    unfolding serialized_size
    size-msg_image =
        rw (count, codec.serialize_size_lem p.items fits.2 (omega arith))
          (ap ok (omega (arith, length-msg_image, codec.image_bound p.items fits.2)))

    fill-msg_image :
        fill head fields attr_count codec h p (length (msg_image h p)) ≡ ok (msg_image h p)
    unfolding fill
    fill-msg_image =
        let items = length (codec.image p.items) in
        rw
          (
            write-next 0 (length (msg_image h p)) (fields.size + items) [] (head.image h) refl
                (omega (arith, length-msg_image, head.length-image h)),
            write-next head.size (fields.size + items) items (head.image h) (fields.image p.fields)
                (omega (arith, head.length-image h)) (omega (arith, fields.length-image p.fields)),
            count,
            codec.serialize_lem p.items (head.size + fields.size) items 0
                (head.image h ++ fields.image p.fields) fits.2 (omega arith) (omega arith)
                (omega (
                  arith,
                  length-append (head.image h) (fields.image p.fields),
                  head.length-image h,
                  fields.length-image p.fields,
                ))
                (omega arith),
          )
          (simp (append_assoc, append-nil))

    -- The buffer has the reported size, and holds the message's bytes from end to end.
    pub msg_serialize-image :
        (no_memory : ℕ → Exec Serialized)
        → msg_serialize head fields attr_count codec no_memory calloc
            (record { head = h; payload = some p })
          ≡ ok (record { size = length (msg_image h p); buf = some (msg_image h p) })
    unfolding msg_serialize serialize_payload
    msg_serialize-image no_memory =
        rw (size-msg_image, heap 0 (length (msg_image h p)), fill-msg_image)

    -- Where `calloc` returns NULL, what is left is `no_memory`.
    pub msg_serialize-no_memory :
        (no_memory : ℕ → Exec Serialized) (full : Calloc)
        → full 0 (length (msg_image h p)) ≡ false
        → msg_serialize head fields attr_count codec no_memory full
            (record { head = h; payload = some p })
          ≡ no_memory (length (msg_image h p))
    unfolding msg_serialize serialize_payload
    msg_serialize-no_memory no_memory full e = rw (size-msg_image, e)

    abbrev pub body : Bytes
    body = fields.image p.fields ++ codec.image p.items

    pub length-body : length body ≡ fields.size + length (codec.image p.items)
    length-body = omega (
      arith,
      length-append (fields.image p.fields) (codec.image p.items),
      fields.length-image p.fields,
    )

    pub payload_parse_fields-image :
        payload_parse_fields head fields attr_count codec calloc body (length body) ≡ ok (some p)
    unfolding payload_parse_fields
    payload_parse_fields-image =
        let left : length body - fields.size ≡ length (codec.image p.items) =
          omega (arith, length-body) in
        rw (
          heap 0 (fields.size + 4),
          read-append fields.size (fields.image p.fields) (codec.image p.items)
              (sym (fields.length-image p.fields)),
          fields.load-image p.fields fits.1,
          left,
          codec.parse_lem calloc 1 p.items (attr_count p.fields) heap fits.2 fits.4 fits.3,
        )

    payload_parse-image :
        payload_parse head fields attr_count codec calloc body (length body) ≡ ok (some p)
    unfolding payload_parse
    payload_parse-image =
        rw (le→leb fields.size (length body) (omega (arith, length-body)))
          payload_parse_fields-image

    pub msg_parse-image_by :
        (parse_payload : Calloc → Bytes → ℕ → Exec (Option (Payload P A)))
        → parse_payload calloc body (length body) ≡ ok (some p)
        → msg_parse head fields attr_count codec parse_payload calloc
            (msg_image h p)
            (length (msg_image h p))
          ≡ ok (some (record { head = h; payload = some p }))
    unfolding msg_parse
    msg_parse-image_by parse_payload e =
        let left : length (msg_image h p) - head.size ≡ length body =
          omega (arith, length-msg_image, length-body) in
        rw (
          le→leb head.size (length (msg_image h p)) (omega (arith, length-msg_image)),
          read-append head.size (head.image h) body (sym (head.length-image h)),
          head.load-image h fits.0,
          left,
          e,
        )

    -- The message's bytes are parsed to the message.
    pub msg_parse-image :
        msg_parse head fields attr_count codec
          (payload_parse head fields attr_count codec)
          calloc
          (msg_image h p)
          (length (msg_image h p))
        ≡ ok (some (record { head = h; payload = some p }))
    msg_parse-image =
        msg_parse-image_by (payload_parse head fields attr_count codec) payload_parse-image

  -- The items of a payload that ends too early are read past the end of the message.
  pub msg_parse-short :
      (h : H) (f : P) (bs : Bytes) (calloc : Calloc)
      → ((i n : ℕ) → calloc i n ≡ true)
      → head.Fits h
      → fields.Fits f
      → attr_count f < 4
      → 1 ≤ length bs
      → length bs ≤ attr_count f
      → let msg = head.image h ++ (fields.image f ++ bs) in
        msg_parse head fields attr_count codec
          (payload_parse head fields attr_count codec)
          calloc
          msg
          (length msg)
        ≡ undefined
  unfolding msg_parse payload_parse payload_parse_fields
  msg_parse-short h f bs calloc heap hf ff lt nonempty few =
      let rest = fields.image f ++ bs in
      let msg = head.image h ++ rest in
      let total : length msg ≡ head.size + (fields.size + length bs) = omega (
        arith,
        length-append (head.image h) rest,
        length-append (fields.image f) bs,
        head.length-image h,
        fields.length-image f,
      ) in
      let after_head : length msg - head.size ≡ fields.size + length bs = omega arith in
      let after_fields : fields.size + length bs - fields.size ≡ length bs = omega arith in
      rw (
        le→leb head.size (length msg) (omega arith),
        read-append head.size (head.image h) rest (sym (head.length-image h)),
        after_head,
        le→leb fields.size (fields.size + length bs) (omega arith),
        heap 0 (fields.size + 4),
        read-append fields.size (fields.image f) bs (sym (fields.length-image f)),
        fields.load-image f ff,
        after_fields,
        codec.parse_short calloc 1 bs (attr_count f) heap lt nonempty few,
      )
