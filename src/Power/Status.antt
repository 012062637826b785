-- ===== src/Power/Status.antt =====
-- The state of the battery and the modes of iw_sys.c.
use io_tware.Common.{
  ℕ, zero, suc, ◌-◌, ◌/◌, ◌≤◌, ◌<◌, ◌≡◌, refl, Bool, true, false, ◌&&◌, Option, none, some, List,
  [], ◌∷◌, ltb, leb, if◌then◌else◌, length, arith, leb→le,
}
use io_tware.Power.Battery.{Battery, iw_get_battery_voltage}

-- `batt_table`
abbrev pub batt_table : List ℕ
batt_table =
    0 ∷ 0 ∷ 0 ∷ 0 ∷ 0 ∷ 0 ∷ 0 ∷ 0 ∷ 0 ∷ 0 ∷ 0 ∷ 0 ∷ 0 ∷ 0 ∷ 0 ∷ 0 ∷ 0 ∷ 0 ∷ 0 ∷ 0 ∷ 0 ∷ 0 ∷ 0 ∷ 0
    ∷ 0 ∷ 0 ∷ 0 ∷ 0 ∷ 0 ∷ 0 ∷ 0 ∷ 0 ∷ 0 ∷ 0 ∷ 0 ∷ 1 ∷ 1 ∷ 1 ∷ 1 ∷ 1 ∷ 1 ∷ 1 ∷ 1 ∷ 1 ∷ 1 ∷ 2 ∷ 2 ∷ 2
    ∷ 2 ∷ 2 ∷ 2 ∷ 2 ∷ 2 ∷ 2 ∷ 2 ∷ 3 ∷ 3 ∷ 3 ∷ 3 ∷ 3 ∷ 3 ∷ 3 ∷ 3 ∷ 3 ∷ 3 ∷ 4 ∷ 4 ∷ 4 ∷ 4 ∷ 4 ∷ 4 ∷ 4
    ∷ 4 ∷ 4 ∷ 4 ∷ 5 ∷ 5 ∷ 5 ∷ 5 ∷ 5 ∷ 5 ∷ 6 ∷ 7 ∷ 8 ∷ 9 ∷ 10 ∷ 11 ∷ 12 ∷ 13 ∷ 14 ∷ 15 ∷ 16 ∷ 17 ∷ 18
    ∷ 19 ∷ 20 ∷ 21 ∷ 22 ∷ 23 ∷ 24 ∷ 25 ∷ 28 ∷ 30 ∷ 33 ∷ 35 ∷ 38 ∷ 40 ∷ 43 ∷ 45 ∷ 48 ∷ 50 ∷ 53 ∷ 55
    ∷ 58 ∷ 60 ∷ 63 ∷ 65 ∷ 68 ∷ 70 ∷ 73 ∷ 75 ∷ 76 ∷ 77 ∷ 78 ∷ 78 ∷ 79 ∷ 80 ∷ 81 ∷ 82 ∷ 83 ∷ 83 ∷ 84
    ∷ 85 ∷ 86 ∷ 87 ∷ 88 ∷ 88 ∷ 89 ∷ 90 ∷ 91 ∷ 92 ∷ 93 ∷ 93 ∷ 94 ∷ 95 ∷ 96 ∷ 97 ∷ 98 ∷ 98 ∷ 99 ∷ 100
    ∷ []

-- A read of the table, `none` outside of it.
unfoldable pub entry : List ℕ → ℕ → Option ℕ
entry [] i = none
entry (x ∷ xs) zero = some x
entry (x ∷ xs) (suc i) = entry xs i

abbrev pub clamp : ℕ → ℕ
clamp volt = if ltb volt 2700 then 2700 else if ltb 4200 volt then 4200 else volt

-- `*percent` of `iw_get_battery_status` for a voltage.
unfoldable pub percent : ℕ → Option ℕ
unfolding entry
percent volt = entry batt_table ((clamp volt - 2700) / 10)

-- `iw_get_battery_status`, `none` for IW_FAIL and for a read outside of the table.
unfoldable pub iw_get_battery_status : (ℕ → Option ℕ) → Battery → Option ℕ
unfolding percent iw_get_battery_voltage
iw_get_battery_status converter b = elim (iw_get_battery_voltage converter b) [
  | none ↦ none
  | some volt ↦ percent volt
]

-- `auto_control_t`
pub data AutoControl : Type 0 where
  autocontrol_off autocontrol_on : AutoControl

-- `power_mode_t`
pub data PowerMode : Type 0 where
  pow_run_mode pow_dynamic_mode pow_low_mode pow_sleep_mode : PowerMode

-- `g_autocontrol_mode` and `g_pwr_mode`
pub record Modes : Type 0 where
  pub autocontrol : AutoControl
  pub power : PowerMode

-- `iw_set_power_mode`
unfoldable pub iw_set_power_mode : Modes → PowerMode → Modes
iw_set_power_mode m mode = record m { power = mode }

-- `iw_set_autocontrol`
unfoldable pub iw_set_autocontrol : Modes → AutoControl → Modes
unfolding iw_set_power_mode
iw_set_autocontrol m autocontrol_off =
    iw_set_power_mode (record m { autocontrol = autocontrol_off }) pow_run_mode
iw_set_autocontrol m autocontrol_on = record m { autocontrol = autocontrol_on }

-- Whether a list rises up to a bound.
abbrev rises : List ℕ → ℕ → Bool
rises [] top = true
rises (x ∷ []) top = leb x top
rises (x ∷ y ∷ xs) top = leb x y && rises (y ∷ xs) top

and_left : (a b : Bool) → (a && b) ≡ true → a ≡ true
and_left true b e = refl
and_left false b e = absurd (ground arith)

and_right : (a b : Bool) → (a && b) ≡ true → b ≡ true
and_right true b e = e
and_right false b e = absurd (ground arith)

-- An entry of a list that rises.
abbrev Between : ℕ → ℕ → Option ℕ → Type 0
Between low top none = ⊥
Between low top (some p) = (low ≤ p) × (p ≤ top)

Between-lower : (l l' top : ℕ) (w : Option ℕ) → l ≤ l' → Between l' top w → Between l top w
Between-lower l l' top none h b = b
Between-lower l l' top (some p) h b = (omega (arith, b.0), b.1)

tail_rises :
    (x y : ℕ) (xs : List ℕ) (top : ℕ) → rises (x ∷ y ∷ xs) top ≡ true → rises (y ∷ xs) top ≡ true
tail_rises x y xs top e = and_right (leb x y) (rises (y ∷ xs) top) e

entry-Between :
    (x : ℕ) (xs : List ℕ) (i top : ℕ)
    → rises (x ∷ xs) top ≡ true
    → i < length (x ∷ xs)
    → Between x top (entry (x ∷ xs) i)
unfolding entry
entry-Between x [] zero top e h = (omega arith, leb→le x top e)
entry-Between x [] (suc i) top e h = absurd (omega arith)
entry-Between x (y ∷ xs) zero top e h =
    let below = leb→le x y (and_left (leb x y) (rises (y ∷ xs) top) e) in
    let above = (entry-Between y xs zero top (tail_rises x y xs top e) (omega arith)).1 in
    (omega arith, omega (arith, below, above))
entry-Between x (y ∷ xs) (suc i) top e h =
    Between-lower x y top (entry (y ∷ xs) i)
      (leb→le x y (and_left (leb x y) (rises (y ∷ xs) top) e))
      (entry-Between y xs i top (tail_rises x y xs top e) (omega arith))

found-Between :
    (low top : ℕ) (w : Option ℕ)
    → Between low top w
    → (q : ℕ) × (w ≡ some q) × (low ≤ q) × (q ≤ top)
found-Between low top none b = elim b [ ]
found-Between low top (some q) b = (q, refl, b.0, b.1)

-- Two entries, the second one not before the first.
entries_rise :
    (xs : List ℕ) (i j top : ℕ)
    → rises xs top ≡ true
    → i ≤ j
    → j < length xs
    → (p : ℕ) × (q : ℕ) × (entry xs i ≡ some p) × (entry xs j ≡ some q) × (p ≤ q) × (q ≤ top)
unfolding entry
entries_rise [] i j top e h k = absurd (omega arith)
entries_rise (x ∷ xs) zero j top e h k =
    let (q, f, low, high) = found-Between x top (entry (x ∷ xs) j) (entry-Between x xs j top e k) in
    (x, q, refl, f, low, high)
entries_rise (x ∷ xs) (suc i) zero top e h k = absurd (omega arith)
entries_rise (x ∷ []) (suc i) (suc j) top e h k = absurd (omega arith)
entries_rise (x ∷ y ∷ xs) (suc i) (suc j) top e h k =
    entries_rise (y ∷ xs) i j top (tail_rises x y xs top e) (omega arith) (omega arith)

clamp_low : (v : ℕ) → 2700 ≤ clamp v
clamp_low v = ground arith

clamp_high : (v : ℕ) → clamp v ≤ 4200
clamp_high v = ground arith

clamp_rises : (v w : ℕ) → v ≤ w → clamp v ≤ clamp w
clamp_rises v w h = ground arith

-- A higher voltage never gives a lower percentage, and any voltage gives one of 100 at most: no read
-- goes outside of the table.
pub percent-rises :
    (v w : ℕ)
    → v ≤ w
    → (p : ℕ) × (q : ℕ) × (percent v ≡ some p) × (percent w ≡ some q) × (p ≤ q) × (q ≤ 100)
unfolding percent
percent-rises v w h =
    entries_rise batt_table ((clamp v - 2700) / 10) ((clamp w - 2700) / 10) 100 refl
      (omega (arith, clamp_rises v w h)) (omega (arith, clamp_high w))
