-- ===== src/Dcfw/Fixed/Laws.antt =====
-- Fixed-size structs survive serialisation, and parsed bytes are serialised again as they were.
use io_tware.Common.{
  ℕ, ◌<◌, ◌≡◌, sym, ap, ◌∙◌, some_inj, none, some, true, Bool-cases, inl, inr, Bytes, AreBytes,
  Calloc, length, take, leb, le→leb, leb→le, lt→leb_false, arith,
}
use io_tware.Dcfw.Layout.{Layout}
use io_tware.Dcfw.Fixed.{struct_serialize, struct_parse}

module _ {A : Type 0} (l : Layout A) where
  struct_parse-image : (a : A) → l.Fits a → struct_parse l (l.image a) l.size ≡ some a
  unfolding struct_parse
  struct_parse-image a f = rw (le→leb l.size l.size (omega arith)) (ap some (l.load-image a f))

  -- What `struct_serialize` returned has the size that it reported, and is parsed to the struct.
  pub struct_parse-serialize :
      (calloc : Calloc) (a : A) (bs : Bytes)
      → l.Fits a
      → (struct_serialize l calloc a).buf ≡ some bs
      → (length bs ≡ (struct_serialize l calloc a).size) × (struct_parse l bs (length bs) ≡ some a)
  unfolding struct_serialize
  struct_parse-serialize calloc a bs f e = elim (Bool-cases (calloc 0 l.size)) [
    | inl done ↦
        let image : l.image a ≡ bs = some_inj (rw done at e) in
        let long : length bs ≡ l.size = ap length (sym image) ∙ l.length-image a in
        (long, rw (long, ← image) (struct_parse-image a f))
    | inr failed ↦ absurd (cc (e, failed))
  ]

  -- What is parsed from bytes is serialised to the same bytes.
  pub struct_serialize-parse :
      (bs : Bytes) (calloc : Calloc) (a : A)
      → AreBytes bs
      → struct_parse l bs (length bs) ≡ some a
      → calloc 0 l.size ≡ true
      → (struct_serialize l calloc a).buf ≡ some (take l.size bs)
  unfolding struct_serialize struct_parse
  struct_serialize-parse bs calloc a h e c = elim (Bool-cases (leb l.size (length bs))) [
    | inl long ↦
        let loaded : l.load bs ≡ a = some_inj (rw long at e) in
        rw (c, ← loaded) (ap some (l.image-load bs h (leb→le l.size (length bs) long)))
    | inr short ↦ absurd (cc (e, short))
  ]

  pub struct_parse-short : (bs : Bytes) (size : ℕ) → size < l.size → struct_parse l bs size ≡ none
  unfolding struct_parse
  struct_parse-short bs size h = rw (lt→leb_false l.size size h)
