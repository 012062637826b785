-- ===== src/Device/Lookup/Found.antt =====
-- What the searches find, against the sequence of the registered devices.
use io_tware.Common.{
  ℕ, zero, suc, ◌+◌, ◌≤◌, ◌<◌, ◌≡◌, refl, sym, ap, ◌∙◌, Bool, true, false, Option, none, some, List,
  [], ◌∷◌, Exec, ok, if◌then◌else◌, length, take, arith, some_inj, subst, ◌⊎◌, inl, inr, Bool-cases,
}
use io_tware.Device.Table.{DevInfo, Devices}
use io_tware.Device.Table.Registered.{Valid, registered}
use io_tware.Device.Lookup.{
  device, shares_type, devid_loop, get_devid, find_device, has_type, get_dev_id_by_type,
}

-- The index `i` is the first one whose device passes a test, or none of them does.
pub IsFirst : (DevInfo → Bool) → List DevInfo → Option ℕ → Type 0
IsFirst test ds none = (j : ℕ) (d : DevInfo) → device ds j ≡ some d → test d ≡ false
IsFirst test ds (some i) =
    (found : DevInfo) × (device ds i ≡ some found)
    × (test found ≡ true)
    × ((j : ℕ) (d : DevInfo) → j < i → device ds j ≡ some d → test d ≡ false)

-- The index `i` is the last one whose device passes a test, or none of them does.
pub IsLast : (DevInfo → Bool) → List DevInfo → Option ℕ → Type 0
IsLast test ds none = (j : ℕ) (d : DevInfo) → device ds j ≡ some d → test d ≡ false
IsLast test ds (some i) =
    (found : DevInfo) × (device ds i ≡ some found)
    × (test found ≡ true)
    × ((j : ℕ) (d : DevInfo) → i < j → device ds j ≡ some d → test d ≡ false)

-- The first and the last index, counted from `i`.
first_from : (DevInfo → Bool) → List DevInfo → ℕ → Option ℕ
first_from test [] i = none
first_from test (d ∷ ds) i =
    let rest = first_from test ds (suc i) in if test d then some i else rest

last_from : (DevInfo → Bool) → List DevInfo → ℕ → Option ℕ → Option ℕ
last_from test [] i found = found
last_from test (d ∷ ds) i found = last_from test ds (suc i) (if test d then some i else found)

choose_ok :
    (b : Bool) (x : Exec (Option ℕ)) (i : ℕ) (r : Option ℕ)
    → x ≡ ok r
    → (if b then ok (some i) else x) ≡ ok (if b then some i else r)
choose_ok true x i r e = refl
choose_ok false x i r e = e

find_device-first :
    (test : DevInfo → Bool) (n : ℕ) (ds : List DevInfo) (i : ℕ)
    → n ≤ length ds
    → find_device (λ d. ok (test d)) n ds i ≡ ok (first_from test (take n ds) i)
unfolding find_device first_from
find_device-first test zero ds i h = refl
find_device-first test (suc n) [] i h = absurd (omega arith)
find_device-first test (suc n) (d ∷ ds) i h =
    choose_ok (test d) (find_device (λ e. ok (test e)) n ds (suc i)) i
      (first_from test (take n ds) (suc i)) (find_device-first test n ds (suc i) (omega arith))

devid_loop-last :
    (type n : ℕ) (ds : List DevInfo) (i : ℕ) (found : Option ℕ)
    → n ≤ length ds
    → devid_loop type none n ds i found ≡ ok (last_from (shares_type type) (take n ds) i found)
unfolding devid_loop last_from
devid_loop-last type zero ds i found h = refl
devid_loop-last type (suc n) [] i found h = absurd (omega arith)
devid_loop-last type (suc n) (d ∷ ds) i found h =
    devid_loop-last type n ds (suc i) (if shares_type type d then some i else found) (omega arith)

-- Within a list with one more device in front.
none-cons :
    (test : DevInfo → Bool) (d : DevInfo) (ds : List DevInfo)
    → test d ≡ false
    → IsFirst test ds none
    → IsFirst test (d ∷ ds) none
unfolding IsFirst device
none-cons test d ds e h zero d' q = ap test (sym (some_inj q)) ∙ e
none-cons test d ds e h (suc j) d' q = h j d' q

before-cons :
    (test : DevInfo → Bool) (d : DevInfo) (ds : List DevInfo) (i : ℕ)
    → test d ≡ false
    → ((j : ℕ) (d' : DevInfo) → j < i → device ds j ≡ some d' → test d' ≡ false)
    → (j : ℕ) (d' : DevInfo) → j < suc i
    → device (d ∷ ds) j ≡ some d'
    → test d' ≡ false
unfolding device
before-cons test d ds i e h zero d' l q = ap test (sym (some_inj q)) ∙ e
before-cons test d ds i e h (suc j) d' l q = h j d' (omega arith) q

behind-cons :
    (test : DevInfo → Bool) (d : DevInfo) (ds : List DevInfo) (i : ℕ)
    → ((j : ℕ) (d' : DevInfo) → i < j → device ds j ≡ some d' → test d' ≡ false)
    → (j : ℕ) (d' : DevInfo) → suc i < j
    → device (d ∷ ds) j ≡ some d'
    → test d' ≡ false
unfolding device
behind-cons test d ds i h zero d' l q = absurd (omega arith)
behind-cons test d ds i h (suc j) d' l q = h j d' (omega arith) q

behind_first :
    (test : DevInfo → Bool) (d : DevInfo) (ds : List DevInfo)
    → IsLast test ds none
    → (j : ℕ) (d' : DevInfo) → 0 < j
    → device (d ∷ ds) j ≡ some d'
    → test d' ≡ false
unfolding IsLast device
behind_first test d ds h zero d' l q = absurd (omega arith)
behind_first test d ds h (suc j) d' l q = h j d' q

first_from-cases :
    (test : DevInfo → Bool) (ds : List DevInfo) (i : ℕ)
    → ((first_from test ds i ≡ none) × IsFirst test ds none)
      ⊎ ((j : ℕ) × (first_from test ds i ≡ some (i + j)) × IsFirst test ds (some j))
unfolding first_from IsFirst device
first_from-cases test [] i = inl (refl, λ j d e. absurd (ground arith))
first_from-cases test (d ∷ ds) i = elim (Bool-cases (test d)) [
  | inl passes ↦ inr (
    0,
    let at_once : i ≡ i + 0 = omega arith in rw passes (ap some at_once),
    (d, refl, passes, λ j d' l q. absurd (omega arith)),
  )
  | inr not_it ↦ elim (first_from-cases test ds (suc i)) [
    | inl (e, nowhere) ↦ inl (rw not_it e, none-cons test d ds not_it nowhere)
    | inr (j, e, (found, at, passes, before)) ↦ inr (
      suc j,
      let moved : suc i + j ≡ i + suc j = omega arith in rw not_it (e ∙ ap some moved),
      (found, at, passes, before-cons test d ds j not_it before),
    )
  ]
]

last_from-cases :
    (test : DevInfo → Bool) (ds : List DevInfo) (i : ℕ) (old : Option ℕ)
    → ((last_from test ds i old ≡ old) × IsLast test ds none)
      ⊎ ((j : ℕ) × (last_from test ds i old ≡ some (i + j)) × IsLast test ds (some j))
unfolding last_from IsLast IsFirst device
last_from-cases test [] i old = inl (refl, λ j d e. absurd (ground arith))
last_from-cases test (d ∷ ds) i old =
    elim (last_from-cases test ds (suc i) (if test d then some i else old)) [
      | inl (e, nowhere) ↦ elim (Bool-cases (test d)) [
        | inl passes ↦ inr (
          0,
          let at_once : i ≡ i + 0 = omega arith in
              e ∙ ap (λ b. if b then some i else old) passes ∙ ap some at_once,
          (d, refl, passes, behind_first test d ds nowhere),
        )
        | inr not_it ↦
            inl (e ∙ ap (λ b. if b then some i else old) not_it, none-cons test d ds not_it nowhere)
      ]
      | inr (j, e, (found, at, passes, behind)) ↦ inr (
        suc j,
        let moved : suc i + j ≡ i + suc j = omega arith in e ∙ ap some moved,
        (found, at, passes, behind-cons test d ds j behind),
      )
    ]

first_from-IsFirst :
    (test : DevInfo → Bool) (ds : List DevInfo) → IsFirst test ds (first_from test ds 0)
first_from-IsFirst test ds = elim (first_from-cases test ds 0) [
  | inl (e, nowhere) ↦ subst (IsFirst test ds) (sym e) nowhere
  | inr (j, e, first) ↦
      let same : j ≡ 0 + j = omega arith in subst (IsFirst test ds) (ap some same ∙ sym e) first
]

last_from-IsLast :
    (test : DevInfo → Bool) (ds : List DevInfo) → IsLast test ds (last_from test ds 0 none)
last_from-IsLast test ds = elim (last_from-cases test ds 0 none) [
  | inl (e, nowhere) ↦ subst (IsLast test ds) (sym e) nowhere
  | inr (j, e, last) ↦
      let same : j ≡ 0 + j = omega arith in subst (IsLast test ds) (ap some same ∙ sym e) last
]

-- On a valid table the searches for a type never read outside of it. The one by type finds the first
-- registered device that has all bits of the type; the one by type and name, without a name, finds
-- the last one that shares a bit with it. Each fails only where there is no such device.
pub get_devid-Found :
    (si : Devices) (type : ℕ)
    → Valid si
    → ((first : Option ℕ) × (get_dev_id_by_type si type ≡ ok first)
        × IsFirst (has_type type) (registered si) first)
      × ((last : Option ℕ) × (get_devid si type none ≡ ok last)
          × IsLast (shares_type type) (registered si) last)
unfolding get_dev_id_by_type get_devid
get_devid-Found si type v =
    let within : si.dev_num ≤ length si.dev = omega (arith, v.room, v.within) in
    (
      (
        first_from (has_type type) (registered si) 0,
        find_device-first (has_type type) si.dev_num si.dev 0 within,
        first_from-IsFirst (has_type type) (registered si),
      ),
      (
        last_from (shares_type type) (registered si) 0 none,
        devid_loop-last type si.dev_num si.dev 0 none within,
        last_from-IsLast (shares_type type) (registered si),
      ),
    )
