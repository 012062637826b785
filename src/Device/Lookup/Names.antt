-- ===== src/Device/Lookup/Names.antt =====
-- Finding a device by the name that it was registered with.
use io_tware.Common.{
  ℕ, zero, suc, ◌+◌, ◌-◌, ◌%◌, ◌≤◌, ◌<◌, ◌≡◌, ◌≢◌, refl, ap, ap₂, ◌∙◌, Bool, true, false, Option,
  none, some, List, [], ◌∷◌, ◌++◌, Bytes, Exec, ok, undefined, ◌>>=◌, if◌then◌else◌, length, set,
  zeros, ne→==_false, arith, append-nil, ==_refl, lt→ltb, ltb,
}
use io_tware.Oal.Fifo.{success}
use io_tware.Device.Strings.{same_string}
use io_tware.Device.Strings.Laws.{IsText, text_in, same_string_refl}
use io_tware.Device.Table.{
  DevInfo, Driver, Devices, max_dev, max_driver_name_len, register_with_driver,
}
use io_tware.Device.Table.Registered.{
  Valid, next_entry, registered_with, with_device, register-with_device,
}
use io_tware.Device.Lookup.{find_device, has_name, get_dev_id_by_name}

passed_over :
    (t : Exec Bool) (i : ℕ) (x : Exec (Option ℕ))
    → (t >>= λ b. if b then ok (some i) else x) ≡ ok none
    → (t ≡ ok false) × (x ≡ ok none)
passed_over (ok true) i x e = absurd (ground arith)
passed_over (ok false) i x e = (refl, e)
passed_over undefined i x e = absurd (ground arith)

-- A search that passed all entries goes on to one that is put behind them.
find_device-behind :
    (test : DevInfo → Exec Bool) (n : ℕ) (ds : List DevInfo) (i : ℕ) (d : DevInfo)
    → n < length ds
    → find_device test n ds i ≡ ok none
    → find_device test (suc n) (set ds n d) i
      ≡ (test d >>= λ b. if b then ok (some (i + n)) else ok none)
unfolding find_device
find_device-behind test n [] i d h e = absurd (omega arith)
find_device-behind test zero (e' ∷ ds) i d h e =
    let same : i ≡ i + 0 = omega arith in
    ap (λ k. test d >>= λ b. if b then ok (some k) else ok none) same
find_device-behind test (suc n) (e' ∷ ds) i d h e =
    let (missed, rest) = passed_over (test e') i (find_device test n ds (suc i)) e in
    let later : suc i + n ≡ i + suc n = omega arith in
    rw missed (
      find_device-behind test n ds (suc i) d (omega arith) rest
      ∙ ap (λ k. test d >>= λ b. if b then ok (some k) else ok none) later)

same_string-cut : (s rest : Bytes) → IsText s → same_string (text_in s rest) s ≡ undefined
unfolding same_string
same_string-cut [] rest t = refl
same_string-cut (zero ∷ s) rest t = absurd (t.0 refl)
same_string-cut (suc b ∷ s) rest t = rw (==_refl b) (same_string-cut s rest t.1)

same_string-padded :
    (s rest : Bytes) (k : ℕ)
    → IsText s
    → same_string (text_in s rest) (s ++ zeros k) ≡ (if ltb 0 k then ok true else undefined)
same_string-padded s rest zero t = rw (append-nil s) (same_string-cut s rest t)
same_string-padded s rest (suc k) t =
    let positive : ltb 0 (suc k) ≡ true = lt→ltb 0 (suc k) (omega arith) in
    rw positive (same_string_refl s rest (zeros k) t)

behind_if :
    (b : Bool) (n : ℕ)
    → ((if b then ok true else undefined) >>= λ c. if c then ok (some n) else ok none)
      ≡ (if b then ok (some n) else undefined)
behind_if true n = refl
behind_if false n = refl

has_name-registered :
    (type if_type if_num func : ℕ) (s rest : Bytes) (k : ℕ) (old : DevInfo)
    → IsText s
    → type ≢ 0
    → has_name (text_in s rest) (registered_with type (s ++ zeros k) if_type if_num func old)
      ≡ (if ltb 0 k then ok true else undefined)
unfolding has_name
has_name-registered type if_type if_num func s rest k old t nonzero =
    rw (ne→==_false type 0 nonzero) (same_string-padded s rest k t)

-- Where a valid table has room and no device of a name, a device of this name, a text of up to 20
-- bytes, and of a type other than 0 can be registered; a search for the name then finds it. With a
-- name of 20 bytes the search is undefined instead: the entry keeps no NUL.
pub register-find :
    (si : Devices) (type if_type if_num : ℕ) (s rest : Bytes) (driver : Driver)
    → Valid si
    → si.dev_num < max_dev
    → IsText s
    → length s ≤ max_driver_name_len
    → type ≢ 0
    → get_dev_id_by_name si (text_in s rest) ≡ ok none
    → (si' : Devices) × (register_with_driver si type (text_in s rest) if_type if_num driver
        ≡ ok (success, si'))
      × (get_dev_id_by_name si' (text_in s rest)
          ≡ (if ltb (length s) max_driver_name_len then ok (some si.dev_num) else undefined))
unfolding get_dev_id_by_name
register-find si type if_type if_num s rest driver v h t l nonzero missing =
    let k = max_driver_name_len - length s in
    let d = registered_with type (s ++ zeros k) if_type if_num driver.func (next_entry si) in
    let next : (si.dev_num + 1) % 256 ≡ suc si.dev_num = omega (arith, h) in
    let test = has_name (text_in s rest) in
    let first : 0 + si.dev_num ≡ si.dev_num = omega arith in
    let same : ltb 0 k ≡ ltb (length s) max_driver_name_len = ground arith in
    (
      with_device si d,
      register-with_device si type if_type if_num s rest k driver v h t (omega (arith, l)),
      ap (λ n. find_device test n (set si.dev si.dev_num d) 0) next
          ∙ find_device-behind test si.dev_num si.dev 0 d (omega (arith, v.room, h)) missing
          ∙ ap (λ r. r >>= λ b. if b then ok (some (0 + si.dev_num)) else ok none)
              (has_name-registered type if_type if_num driver.func s rest k (next_entry si) t
                nonzero)
          ∙ behind_if (ltb 0 k) (0 + si.dev_num)
          ∙ ap₂ (λ b n. if b then ok (some n) else undefined) same first,
    )
