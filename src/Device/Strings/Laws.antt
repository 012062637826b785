-- ===== src/Device/Strings/Laws.antt =====
-- Strings that end within their array: the text, its NUL, and what follows.
use io_tware.Common.{
  ℕ, zero, suc, ◌+◌, ◌≤◌, ◌≡◌, ◌≢◌, refl, ap, ap₂, ◌⊎◌, inl, inr, Bool, true, false, [], ◌∷◌, ◌++◌,
  Bytes, Exec, ok, ◌==◌, if◌then◌else◌, zeros, drop, length, write, All, le→leb, take-append,
  ne→==_false, ==_refl, arith,
}
use io_tware.Device.Strings.{strlen, same_string, strncpy, copy_text}

-- No byte of a text is 0.
abbrev pub IsText : Bytes → Type 0
IsText s = All (λ b. b ≢ 0) s

-- A text in an array.
abbrev pub text_in : Bytes → Bytes → Bytes
text_in s rest = s ++ (0 ∷ rest)

pub strlen-text_in : (s rest : Bytes) → IsText s → strlen (text_in s rest) ≡ ok (length s)
unfolding strlen
strlen-text_in [] rest h = refl
strlen-text_in (zero ∷ s) rest h = absurd (h.0 refl)
strlen-text_in (suc b ∷ s) rest h = rw (strlen-text_in s rest h.1) refl

pub write-prefix :
    (s dst : Bytes) → length s ≤ length dst → write 0 s dst ≡ ok (s ++ drop (length s) dst)
unfolding write
write-prefix s dst h =
    let z : 0 + length s ≡ length s = omega arith in rw (z, le→leb (length s) (length dst) h, write)

pub copy_text-text_in :
    (s rest dst : Bytes)
    → IsText s
    → length s ≤ length dst
    → copy_text (text_in s rest) dst ≡ ok (s ++ drop (length s) dst)
unfolding copy_text
copy_text-text_in s rest dst h l =
    rw (strlen-text_in s rest h, take-append s (0 ∷ rest), write-prefix s dst l)

pub strncpy-text_in :
    (n : ℕ) (s rest : Bytes) (k : ℕ)
    → IsText s
    → n ≡ length s + k
    → strncpy n (text_in s rest) ≡ ok (s ++ zeros k)
unfolding strncpy
strncpy-text_in zero [] rest k h e = let same : 0 ≡ k = omega arith in ap (λ m. ok (zeros m)) same
strncpy-text_in (suc n) [] rest k h e =
    let same : suc n ≡ k = omega arith in ap (λ m. ok (zeros m)) same
strncpy-text_in n (zero ∷ s) rest k h e = absurd (h.0 refl)
strncpy-text_in zero (suc b ∷ s) rest k h e = absurd (omega arith)
strncpy-text_in (suc n) (suc b ∷ s) rest k h e =
    rw (strncpy-text_in n s rest k h.1 (omega arith)) refl

-- Of a text that is too long, `strncpy` takes what fits, and no NUL.
pub strncpy-long :
    (s t rest : Bytes) → IsText s → strncpy (length s) (s ++ (t ++ (0 ∷ rest))) ≡ ok s
unfolding strncpy
strncpy-long [] t rest h = refl
strncpy-long (zero ∷ s) t rest h = absurd (h.0 refl)
strncpy-long (suc b ∷ s) t rest h = rw (strncpy-long s t rest h.1) refl

eq_or_ne : (a b : ℕ) → (a ≡ b) ⊎ (a ≢ b)
eq_or_ne a b = ground arith

same_behind :
    (a b : ℕ) (s t : Bytes) (x : Exec Bool)
    → ((x ≡ ok true) × (s ≡ t)) ⊎ ((x ≡ ok false) × (s ≢ t))
    → (((if a == b then x else ok false) ≡ ok true) × (◌≡◌ {A = Bytes} (suc a ∷ s) (suc b ∷ t)))
      ⊎ (((if a == b then x else ok false) ≡ ok false) × (◌≢◌ {A = Bytes} (suc a ∷ s) (suc b ∷ t)))
same_behind a b s t x (inl (e, same)) = elim (eq_or_ne a b) [
  | inl same' ↦ inl (rw (same', ==_refl b) e, ap₂ (λ c r. suc c ∷ r) same' same)
  | inr differ ↦ inr (rw (ne→==_false a b differ), λ e'. differ cc)
]
same_behind a b s t x (inr (e, differ)) = elim (eq_or_ne a b) [
  | inl same' ↦ inr (rw (same', ==_refl b) e, λ e'. differ cc)
  | inr differ' ↦ inr (rw (ne→==_false a b differ'), λ e'. differ' cc)
]

-- Comparing two texts tells whether they are the same one.
pub same_string-cases :
    (s t q r : Bytes)
    → IsText s
    → IsText t
    → ((same_string (text_in s q) (text_in t r) ≡ ok true) × (s ≡ t))
      ⊎ ((same_string (text_in s q) (text_in t r) ≡ ok false) × (s ≢ t))
unfolding same_string
same_string-cases [] [] q r h k = inl (refl, refl)
same_string-cases [] (zero ∷ t) q r h k = absurd (k.0 refl)
same_string-cases [] (suc b ∷ t) q r h k = inr (refl, λ e. ground arith)
same_string-cases (zero ∷ s) t q r h k = absurd (h.0 refl)
same_string-cases (suc a ∷ s) [] q r h k = inr (refl, λ e. ground arith)
same_string-cases (suc a ∷ s) (zero ∷ t) q r h k = absurd (k.0 refl)
same_string-cases (suc a ∷ s) (suc b ∷ t) q r h k =
    same_behind a b s t (same_string (text_in s q) (text_in t r))
      (same_string-cases s t q r h.1 k.1)

pub same_string_refl :
    (s q r : Bytes) → IsText s → same_string (text_in s q) (text_in s r) ≡ ok true
unfolding same_string
same_string_refl [] q r h = refl
same_string_refl (zero ∷ s) q r h = absurd (h.0 refl)
same_string_refl (suc b ∷ s) q r h = rw (==_refl b) (same_string_refl s q r h.1)
