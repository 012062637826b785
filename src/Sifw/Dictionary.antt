-- ===== src/Sifw/Dictionary.antt =====
-- The dictionary of iw_fw_lwMsgUtils.c as a map with the keys of its nodes.
use io_tware.Common.{
  ℕ, ◌≡◌, refl, sym, ap, ap₂, Bool, true, false, Bool-cases, inl, inr, ◌&&◌, some, [], ◌∷◌, ◌==◌,
  if◌then◌else◌, arith, ==_refl,
}
use io_tware.Sifw.Text.{Text, text_eq}
use io_tware.Sifw.Object.{
  LwmObject, Fields, no_fields, field, get_object, delete_by_key, set_object,
}
use io_tware.Sifw.Wire.{Absent}

==→≡ : (a b : ℕ) → (a == b) ≡ true → a ≡ b
==→≡ a b h = ground arith

and-true : (x y : Bool) → (x && y) ≡ true → (x ≡ true) × (y ≡ true)
and-true true y h = (refl, h)
and-true false y h = ground arith

pub text_eq→≡ : (s t : Text) → text_eq s t ≡ true → s ≡ t
unfolding text_eq
text_eq→≡ [] [] h = refl
text_eq→≡ [] (b ∷ t) h = ground arith
text_eq→≡ (a ∷ s) [] h = ground arith
text_eq→≡ (a ∷ s) (b ∷ t) h =
    let both = and-true (a == b) (text_eq s t) h in
    ap₂ (λ x y. x ∷ y) (==→≡ a b both.0) (text_eq→≡ s t both.1)

pub text_eq_refl : (s : Text) → text_eq s s ≡ true
unfolding text_eq
text_eq_refl [] = refl
text_eq_refl (a ∷ s) = rw (==_refl a, text_eq_refl s)

-- The nodes have different keys.
abbrev pub Distinct : Fields → Type 0
Distinct no_fields = Unit
Distinct (field k v fs) = Absent k fs × Distinct fs

delete-other :
    (fs : Fields) (k k' : Text)
    → text_eq k k' ≡ false
    → get_object (delete_by_key fs k) k' ≡ get_object fs k'
unfolding get_object delete_by_key
delete-other no_fields k k' h = refl
delete-other (field k₁ v fs) k k' h = elim (Bool-cases (text_eq k₁ k)) [
  | inl e ↦ rw (e, ap (λ t. text_eq t k') (text_eq→≡ k₁ k e), h)
  | inr e ↦ rw (e, delete-other fs k k' h)
]

get-set :
    (fs : Fields) (k k' : Text) (v : LwmObject)
    → get_object (set_object fs k v) k' ≡ (if text_eq k k' then some v else get_object fs k')
unfolding get_object set_object
get-set fs k k' v = elim (Bool-cases (text_eq k k')) [
  | inl e ↦ rw e
  | inr e ↦ rw (e, delete-other fs k k' e)
]

pub Absent-delete : (fs : Fields) (j k : Text) → Absent j fs → Absent j (delete_by_key fs k)
unfolding delete_by_key
Absent-delete no_fields j k h = tt
Absent-delete (field k₁ v fs) j k h = elim (Bool-cases (text_eq k₁ k)) [
  | inl e ↦ rw e h.1
  | inr e ↦ rw e (h.0, Absent-delete fs j k h.1)
]

false-sym : (s t : Text) → text_eq s t ≡ false → text_eq t s ≡ false
false-sym s t h = elim (Bool-cases (text_eq t s)) [
  | inl e ↦ let q = text_eq→≡ t s e in cc
  | inr e ↦ e
]

-- The key that was deleted is gone, where the keys differ.
pub delete-Absent : (fs : Fields) (k : Text) → Distinct fs → Absent k (delete_by_key fs k)
unfolding delete_by_key
delete-Absent no_fields k h = tt
delete-Absent (field k₁ v fs) k h = elim (Bool-cases (text_eq k₁ k)) [
  | inl e ↦ rw (e, sym (text_eq→≡ k₁ k e)) h.0
  | inr e ↦ rw e (false-sym k₁ k e, delete-Absent fs k h.1)
]

pub delete-Distinct : (fs : Fields) (k : Text) → Distinct fs → Distinct (delete_by_key fs k)
unfolding delete_by_key
delete-Distinct no_fields k h = tt
delete-Distinct (field k₁ v fs) k h = elim (Bool-cases (text_eq k₁ k)) [
  | inl e ↦ rw e h.1
  | inr e ↦ rw e (Absent-delete fs k₁ k h.0, delete-Distinct fs k h.1)
]

set-Distinct : (fs : Fields) (k : Text) (v : LwmObject) → Distinct fs → Distinct (set_object fs k v)
unfolding set_object
set-Distinct fs k v h = (delete-Absent fs k h, delete-Distinct fs k h)

-- Setting a value in a dictionary whose keys differ is updating a map: what is looked up afterwards
-- is the value under its key, and what was there before under every other, and the keys still
-- differ.
pub set-map :
    (fs : Fields) (k k' : Text) (v : LwmObject)
    → Distinct fs
    → (get_object (set_object fs k v) k' ≡ (if text_eq k k' then some v else get_object fs k'))
      × Distinct (set_object fs k v)
set-map fs k k' v h = (get-set fs k k' v, set-Distinct fs k v h)
