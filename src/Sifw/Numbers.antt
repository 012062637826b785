-- ===== src/Sifw/Numbers.antt =====
-- The decimal text of a number, as serialize_lwm_object prints it.
use io_tware.Common.{
  ℕ, zero, suc, ◌+◌, ◌-◌, ◌*◌, ◌/◌, ◌%◌, ◌^◌, ◌<◌, ◌≤◌, ◌≡◌, refl, ap, ◌∙◌, ◌⊎◌, inl, inr, Option,
  none, some, [], ◌∷◌, length, take, lt→ltb, ◌==◌, ne→==_false, false, arith,
}
use io_tware.Sifw.Text.{Text}
use io_tware.Sifw.Object.{uint8, uint16, uint32}
use io_tware.Sifw.Serialize.{
  digits_loop, decimal, decimal_signed, snprintf, as_long, serialize_number,
}

-- The number that decimal digits stand for, behind the digits of `acc`.
pub digits_value : ℕ → Text → ℕ
digits_value acc [] = acc
digits_value acc (c ∷ s) = digits_value (10 * acc + (c - 48)) s

-- The smallest number with more than `k` digits.
pub ten_to : ℕ → ℕ
ten_to zero = 1
ten_to (suc k) = 10 * ten_to k

zero-or-not : (n : ℕ) → (n ≡ 0) ⊎ ((n == 0) ≡ false)
zero-or-not zero = inl refl
zero-or-not (suc n) = inr (ne→==_false (suc n) 0 (omega arith))

digits_loop-value :
    (rounds n : ℕ) (acc : Text)
    → n < ten_to rounds
    → digits_value 0 (digits_loop rounds n acc) ≡ digits_value n acc
unfolding digits_loop digits_value ten_to
digits_loop-value zero n acc h = let e : n ≡ 0 = omega arith in rw e
digits_loop-value (suc rounds) n acc h = elim (zero-or-not (n / 10)) [
  | inl e ↦
      let d : 10 * 0 + (48 + n % 10 - 48) ≡ n = omega arith in rw e (ap (λ m. digits_value m acc) d)
  | inr e ↦
      let d : 10 * (n / 10) + (48 + n % 10 - 48) ≡ n = omega arith in
      rw e (
        digits_loop-value rounds (n / 10) ((48 + n % 10) ∷ acc) (omega arith)
        ∙ ap (λ m. digits_value m acc) d)
]

-- A number below ten to the `suc k` has `suc k` digits at most.
digits_loop-length :
    (k rounds n : ℕ) (acc : Text)
    → n < ten_to (suc k)
    → length (digits_loop rounds n acc) ≤ suc k + length acc
unfolding digits_loop ten_to
digits_loop-length k zero n acc h = omega arith
digits_loop-length zero (suc rounds) n acc h =
    let e : n / 10 ≡ 0 = omega arith in rw e (omega arith)
digits_loop-length (suc k) (suc rounds) n acc h = elim (zero-or-not (n / 10)) [
  | inl e ↦ rw e (omega arith)
  | inr e ↦
      rw e (omega (arith, digits_loop-length k rounds (n / 10) ((48 + n % 10) ∷ acc) (omega arith)))
]

take-all : (n : ℕ) (s : Text) → length s ≤ n → take n s ≡ s
take-all zero [] h = refl
take-all zero (c ∷ s) h = absurd (omega arith)
take-all (suc n) [] h = refl
take-all (suc n) (c ∷ s) h = ap (λ t. c ∷ t) (take-all n s (omega arith))

decimal-value : (n : ℕ) → n < ten_to 20 → digits_value 0 (decimal n) ≡ n
unfolding decimal digits_value
decimal-value n h = digits_loop-value 20 n [] h

-- Enough room for the digits and the NUL.
snprintf-decimal : (k n : ℕ) → n < ten_to (suc k) → snprintf (suc (suc k)) (decimal n) ≡ decimal n
unfolding snprintf decimal
snprintf-decimal k n h =
    let e : suc (suc k) - 1 ≡ suc k = omega arith in
    rw e (take-all (suc k) (digits_loop 20 n []) (omega (arith, digits_loop-length k 20 n [] h)))

-- The value of the text that is sent, if any.
pub sent_value : Option Text → Option ℕ
sent_value none = none
sent_value (some s) = some (digits_value 0 s)

pub serialize_number-value :
    (a b c : ℕ)
    → a < 100
    → b < 10000
    → c < 1000000000
    → (sent_value (serialize_number (uint8 a)) ≡ some a)
      × (sent_value (serialize_number (uint16 b)) ≡ some b)
      × (sent_value (serialize_number (uint32 c)) ≡ some c)
unfolding serialize_number sent_value ten_to as_long decimal_signed
serialize_number-value a b c h h' h'' = (
  rw (snprintf-decimal 1 a h) (ap some (decimal-value a (omega arith))),
  rw (snprintf-decimal 3 b h') (ap some (decimal-value b (omega arith))),
  rw (lt→ltb c (2 ^ 31) (omega arith), snprintf-decimal 8 c h'')
      (ap some (decimal-value c (omega arith))),
)
