-- ===== src/Device/Table/Registered.antt =====
-- The table as the sequence of the devices that are registered.
use io_tware.Common.{
  ℕ, zero, suc, ◌+◌, ◌-◌, ◌%◌, ◌≤◌, ◌<◌, ◌≡◌, refl, ap, ◌∙◌, ◌⊎◌, inl, inr, List, [], ◌∷◌, ◌++◌,
  Bytes, ok, get_or, set, length, take, zeros, lt→ltb, le→leb, lt→leb_false, arith,
}
use io_tware.Oal.Fifo.{success, fail}
use io_tware.Device.Strings.Laws.{IsText, text_in, strncpy-text_in}
use io_tware.Device.Table.{
  DevInfo, Driver, Devices, max_dev, max_driver_name_len, append_device, register_with_driver,
}

-- The table has room for MAX_SENSOR_DEV or MAX_NET_DEV devices, and no more are registered.
pub record Valid (si : Devices) : Type 0 where
  pub room : length si.dev ≡ max_dev
  pub within : si.dev_num ≤ max_dev

-- The devices that are registered, the first one first.
abbrev pub registered : Devices → List DevInfo
registered si = take si.dev_num si.dev

pub length-set : (ds : List DevInfo) (i : ℕ) (d : DevInfo) → length (set ds i d) ≡ length ds
length-set [] i d = refl
length-set (e ∷ ds) zero d = refl
length-set (e ∷ ds) (suc i) d = ap suc (length-set ds i d)

take-set :
    (ds : List DevInfo) (i : ℕ) (d : DevInfo)
    → i < length ds
    → take (suc i) (set ds i d) ≡ take i ds ++ (d ∷ [])
take-set [] i d h = absurd (omega arith)
take-set (e ∷ ds) zero d h = refl
take-set (e ∷ ds) (suc i) d h = ap (λ r. e ∷ r) (take-set ds i d (omega arith))

-- The entry that a registration leaves in place of `old`.
abbrev pub registered_with : ℕ → Bytes → ℕ → ℕ → ℕ → DevInfo → DevInfo
registered_with type name if_type if_num func old = record old {
  type = type;
  name = name;
  iface = if_type;
  iface_id = if_num;
  func = func;
}

-- The entry that the next registration overwrites.
abbrev pub next_entry : Devices → DevInfo
next_entry si =
    get_or si.dev si.dev_num
      (record { type = 0; iface = 0; iface_id = 0; dev_id = 0; name = []; func = 0 })

-- The table with another device.
abbrev pub with_device : Devices → DevInfo → Devices
with_device si d = record si { dev = set si.dev si.dev_num d; dev_num = (si.dev_num + 1) % 256 }

pub register-with_device :
    (si : Devices) (type if_type if_num : ℕ) (s rest : Bytes) (k : ℕ) (driver : Driver)
    → Valid si
    → si.dev_num < max_dev
    → IsText s
    → 20 ≡ length s + k
    → register_with_driver si type (text_in s rest) if_type if_num driver
      ≡ ok (
        success,
        with_device si
            (registered_with type (s ++ zeros k) if_type if_num driver.func (next_entry si)),
      )
unfolding register_with_driver append_device
register-with_device si type if_type if_num s rest k driver v h t e = rw (
  lt→leb_false max_dev si.dev_num h,
  strncpy-text_in 20 s rest k t e,
  lt→ltb si.dev_num (length si.dev) (omega (arith, v.room, h)),
)

pub with_device-Valid :
    (si : Devices) (d : DevInfo) → Valid si → si.dev_num < max_dev → Valid (with_device si d)
with_device-Valid si d v h = record {
  room = length-set si.dev si.dev_num d ∙ v.room;
  within = omega (arith, h);
}

pub with_device-registered :
    (si : Devices) (d : DevInfo)
    → Valid si
    → si.dev_num < max_dev
    → registered (with_device si d) ≡ registered si ++ (d ∷ [])
with_device-registered si d v h =
    let next : (si.dev_num + 1) % 256 ≡ suc si.dev_num = omega (arith, h) in
    ap (λ n. take n (set si.dev si.dev_num d)) next
    ∙ take-set si.dev si.dev_num d (omega (arith, v.room, h))

room_or_full : (n m : ℕ) → n ≤ m → (n < m) ⊎ (m ≤ n)
room_or_full n m h = ground arith

length-take : (n : ℕ) (ds : List DevInfo) → n ≤ length ds → length (take n ds) ≡ n
length-take zero ds h = refl
length-take (suc n) [] h = absurd (omega arith)
length-take (suc n) (d ∷ ds) h = ap suc (length-take n ds (omega arith))

-- Registering a device with its driver is appending to a sequence that holds five at most, on a
-- valid table and for a name that is a text of up to 20 bytes. Either it succeeds, the table stays
-- valid, and the registered devices are those before and the new one, with the name padded by
-- zeros; or there are five already, it fails, and the table stays as it is.
pub register-registered :
    (si : Devices) (type if_type if_num : ℕ) (s rest : Bytes) (driver : Driver)
    → Valid si
    → IsText s
    → length s ≤ max_driver_name_len
    → ((si' : Devices) × (register_with_driver si type (text_in s rest) if_type if_num driver
          ≡ ok (success, si'))
        × Valid si'
        × (registered si'
            ≡ registered si
              ++ (registered_with type
                    (s ++ zeros (max_driver_name_len - length s))
                    if_type
                    if_num
                    driver.func
                    (next_entry si)
                  ∷ [])))
      ⊎ ((length (registered si) ≡ max_dev)
          × (register_with_driver si type (text_in s rest) if_type if_num driver ≡ ok (fail, si)))
unfolding register_with_driver
register-registered si type if_type if_num s rest driver v t l =
    let k = max_driver_name_len - length s in
    let d = registered_with type (s ++ zeros k) if_type if_num driver.func (next_entry si) in
    elim (room_or_full si.dev_num max_dev v.within) [
      | inl h ↦ inl (
        with_device si d,
        register-with_device si type if_type if_num s rest k driver v h t (omega (arith, l)),
        with_device-Valid si d v h,
        with_device-registered si d v h,
      )
      | inr full ↦ inr (
        let n = length-take si.dev_num si.dev (omega (arith, v.room, v.within)) in
            omega (arith, n, full, v.within),
        rw (le→leb max_dev si.dev_num full) refl,
      )
    ]
