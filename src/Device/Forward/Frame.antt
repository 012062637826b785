-- ===== src/Device/Forward/Frame.antt =====
-- What a call into a driver leaves of the table.
use io_tware.Common.{
  ℕ, zero, suc, ◌≡◌, ◌≢◌, ◌<◌, refl, ap, ◌∙◌, Bool, true, false, Option, none, some, List, [], ◌∷◌,
  Exec, ok, undefined, ◌>>=◌, ◌==◌, if◌then◌else◌, set, length, arith,
}
use io_tware.Oal.Fifo.{IwError, success, fail}
use io_tware.Device.Table.{DevInfo, Devices}
use io_tware.Device.Table.Registered.{length-set}
use io_tware.Device.Lookup.{device}
use io_tware.Device.Forward.{Driven, forward}

-- The code runs without undefined behaviour, to a result with a property.
abbrev pub Yields : {A : Type 0} → (A → Type 0) → Exec A → Type 0
Yields P (ok a) = P a
Yields P undefined = ⊥

pub Yields-bind :
    {A B : Type 0} (P : A → Type 0) (Q : B → Type 0) (x : Exec A) (f : A → Exec B)
    → Yields P x
    → ((a : A) → P a → Yields Q (f a))
    → Yields Q (x >>= f)
Yields-bind P Q (ok a) f h k = k a h
Yields-bind P Q undefined f h k = absurd h

pub Yields-if :
    {A : Type 0} (P : A → Type 0) (b : Bool) (x y : Exec A)
    → Yields P x
    → Yields P y
    → Yields P (if b then x else y)
Yields-if P true x y h k = h
Yields-if P false x y h k = k

pub Yields-both :
    {A : Type 0} (P : A → Type 0) (b : Bool) (x y : A)
    → P x
    → P y
    → Yields P (if b then ok x else ok y)
Yields-both P true x y h k = h
Yields-both P false x y h k = k

pub Yields-split :
    {A : Type 0} (P : A → Type 0) (b : Bool) (x y : Exec A)
    → (b ≡ true → Yields P x)
    → (b ≡ false → Yields P y)
    → Yields P (if b then x else y)
Yields-split P true x y h k = h refl
Yields-split P false x y h k = k refl

pub Yields-error :
    {A : Type 0} (P : A → Type 0) (e : IwError) (x y : Exec A)
    → Yields P x
    → Yields P y
    → Yields P (elim e [ fail ↦ x | success ↦ y ])
Yields-error P success x y h k = k
Yields-error P fail x y h k = h

-- Two tables that differ at most in the entry `dev_id`.
pub record SameBut (dev_id : ℕ) (si si' : Devices) : Type 0 where
  pub num : si'.dev_num ≡ si.dev_num
  pub room : length si'.dev ≡ length si.dev
  pub others : (i : ℕ) → i ≢ dev_id → device si'.dev i ≡ device si.dev i

pub SameBut-refl : (dev_id : ℕ) (si : Devices) → SameBut dev_id si si
SameBut-refl dev_id si = record { num = refl; room = refl; others = λ i n. refl }

pub SameBut-trans :
    (dev_id : ℕ) (a b c : Devices) → SameBut dev_id a b → SameBut dev_id b c → SameBut dev_id a c
SameBut-trans dev_id a b c h k = record {
  num = k.num ∙ h.num;
  room = k.room ∙ h.room;
  others = λ i n. k.others i n ∙ h.others i n;
}

device-set_other :
    (ds : List DevInfo) (i j : ℕ) (d : DevInfo) → j ≢ i → device (set ds i d) j ≡ device ds j
unfolding device
device-set_other [] i j d n = refl
device-set_other (e ∷ ds) zero zero d n = absurd (n refl)
device-set_other (e ∷ ds) zero (suc j) d n = refl
device-set_other (e ∷ ds) (suc i) zero d n = refl
device-set_other (e ∷ ds) (suc i) (suc j) d n = device-set_other ds i j d (λ q. n (ap suc q))

pub device-inside :
    (ds : List DevInfo) (i : ℕ) → i < length ds → (d : DevInfo) × (device ds i ≡ some d)
unfolding device
device-inside [] i h = absurd (omega arith)
device-inside (d ∷ ds) zero h = (d, refl)
device-inside (d ∷ ds) (suc i) h = device-inside ds i (omega arith)

set-SameBut :
    (si : Devices) (i : ℕ) (d : DevInfo) → SameBut i si (record si { dev = set si.dev i d })
set-SameBut si i d = record {
  num = refl;
  room = length-set si.dev i d;
  others = λ j n. device-set_other si.dev i j d n;
}

module _ {R W : Type 0} (si : Devices) (dev_id : ℕ) (w : W) where
  -- What a call returns, of which the table has only its own entry changed.
  abbrev pub Framed : R × Devices × W → Type 0
  Framed r = SameBut dev_id si r.1

  called-Framed :
      (otherwise : R) (d : DevInfo) (f : Option (Driven R W))
      → Yields Framed (elim f [
        | none ↦ ok (otherwise, si, w)
        | some call ↦
            let (r, d', w') = call d w in ok (r, record si { dev = set si.dev dev_id d' }, w')
      ])
  called-Framed otherwise d none = SameBut-refl dev_id si
  called-Framed otherwise d (some call) = set-SameBut si dev_id (call d w).1

  -- A call with an index within the table is defined, and leaves the other entries alone.
  pub forward-Framed :
      {F : Type 0} (tables : ℕ → F) (f : F → Option (Driven R W)) (otherwise : R)
      → dev_id < length si.dev
      → Yields Framed (forward tables f otherwise si dev_id w)
  unfolding forward
  forward-Framed tables f otherwise h =
      let (d, e) = device-inside si.dev dev_id h in
      rw (Yields, e)
        (Yields-if Framed (d.func == 0) (ok (otherwise, si, w)) _ (SameBut-refl dev_id si)
          (called-Framed otherwise d (f (tables d.func))))
