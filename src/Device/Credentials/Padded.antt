-- ===== src/Device/Credentials/Padded.antt =====
-- Arrays that hold a text and zeros behind it.
use io_tware.Common.{
  ℕ, zero, suc, ◌+◌, ◌-◌, ◌≤◌, ◌<◌, ◌≡◌, refl, sym, ap, ◌∙◌, Bool, true, false, not, ◌&&◌, some, [],
  ◌∷◌, ◌++◌, append_assoc, append-nil, Bytes, ok, ◌>>=◌, ◌==◌, if◌then◌else◌, zeros, drop, length,
  write, arith, length-append, length-replicate, drop-replicate, ne→==_false,
}
use io_tware.Device.Strings.{strlen, copy_text}
use io_tware.Device.Strings.Laws.{IsText, text_in, strlen-text_in, copy_text-text_in, write-prefix}
use io_tware.Device.Credentials.{has_text, put_text, put_key, wrong_lengths}

-- An array of `n` bytes with the text `t`.
abbrev pub padded : ℕ → Bytes → Bytes
padded n t = t ++ zeros (n - length t)

-- What copying `s` over the text `t`, without a NUL, leaves.
abbrev pub over : Bytes → Bytes → Bytes
over s t = s ++ drop (length s) t

length-drop : (n : ℕ) (t : Bytes) → length (drop n t) ≡ length t - n
length-drop zero t = omega arith
length-drop (suc n) [] = omega arith
length-drop (suc n) (x ∷ t) = omega (arith, length-drop n t)

pub length-over : (s t : Bytes) → length (over s t) ≡ length s + (length t - length s)
length-over s t = omega (arith, length-append s (drop (length s) t), length-drop (length s) t)

drop-padded :
    (n : ℕ) (t : Bytes) (k : ℕ)
    → n ≤ length t + k
    → drop n (t ++ zeros k) ≡ drop n t ++ zeros (k - (n - length t))
drop-padded zero t k h =
    let same : k ≡ k - (0 - length t) = omega arith in ap (λ m. t ++ zeros m) same
drop-padded (suc n) [] k h =
    let split : k ≡ suc n + (k - suc n) = omega arith in
    let same : k - suc n ≡ k - (suc n - 0) = omega arith in
    ap (λ m. drop (suc n) (zeros m)) split
    ∙ drop-replicate (suc n) (k - suc n) (let z : ℕ = 0 in z)
    ∙ ap zeros same
drop-padded (suc n) (x ∷ t) k h =
    let same : k - (n - length t) ≡ k - (suc n - suc (length t)) = omega arith in
    drop-padded n t k (omega arith) ∙ ap (λ m. drop n t ++ zeros m) same

over-padded :
    (n : ℕ) (s t : Bytes)
    → length s ≤ n
    → length t ≤ n
    → s ++ drop (length s) (padded n t) ≡ padded n (over s t)
over-padded n s t h k =
    let same : n - length t - (length s - length t) ≡ n - length (over s t) =
      omega (arith, length-over s t) in
    ap (λ r. s ++ r) (drop-padded (length s) t (n - length t) (omega arith))
    ∙ sym (append_assoc s (drop (length s) t) (zeros (n - length t - (length s - length t))))
    ∙ ap (λ m. over s t ++ zeros m) same

length-padded : (n : ℕ) (t : Bytes) → length t ≤ n → length (padded n t) ≡ n
length-padded n t h = omega (
  arith,
  length-append t (zeros (n - length t)),
  length-replicate (n - length t) (let z : ℕ = 0 in z),
)

-- A text that leaves room for its NUL.
padded-text_in :
    (n : ℕ) (t : Bytes) → length t < n → padded n t ≡ text_in t (zeros (n - length t - 1))
padded-text_in n t h =
    let split : n - length t ≡ suc (n - length t - 1) = omega arith in ap (λ m. t ++ zeros m) split

pub strlen-padded :
    (n : ℕ) (t : Bytes) → IsText t → length t < n → strlen (padded n t) ≡ ok (length t)
strlen-padded n t h l =
    ap strlen (padded-text_in n t l) ∙ strlen-text_in t (zeros (n - length t - 1)) h

pub copy_text-padded :
    (n : ℕ) (s rest t : Bytes)
    → IsText s
    → length s ≤ n
    → length t ≤ n
    → copy_text (text_in s rest) (padded n t) ≡ ok (padded n (over s t))
copy_text-padded n s rest t h l k =
    copy_text-text_in s rest (padded n t) h (omega (arith, length-padded n t k))
    ∙ ap ok (over-padded n s t l k)

drop-all : (n : ℕ) (t : Bytes) → length t ≤ n → drop n t ≡ []
drop-all zero [] h = refl
drop-all (suc n) [] h = refl
drop-all zero (x ∷ t) h = absurd (omega arith)
drop-all (suc n) (x ∷ t) h = drop-all n t (omega arith)

over-nil : (t : Bytes) → over t [] ≡ t
over-nil t = ap (λ r. t ++ r) (drop-all (length t) [] (omega arith)) ∙ append-nil t

copy_text-zeros :
    (n : ℕ) (s rest : Bytes)
    → IsText s
    → length s ≤ n
    → copy_text (text_in s rest) (zeros n) ≡ ok (padded n s)
copy_text-zeros n s rest h l =
    let same : n ≡ n - 0 = omega arith in
    ap (λ m. copy_text (text_in s rest) (zeros m)) same
    ∙ copy_text-padded n s rest [] h l (omega arith)
    ∙ ap (λ r. ok (padded n r)) (over-nil s)

-- Copying a text out of its array into one of zeros.
pub copy_text-out :
    (n : ℕ) (t : Bytes)
    → IsText t
    → length t < n
    → copy_text (padded n t) (zeros n) ≡ ok (padded n t)
copy_text-out n t h l =
    ap (λ s. copy_text s (zeros n)) (padded-text_in n t l)
    ∙ copy_text-zeros n t (zeros (n - length t - 1)) h (omega arith)

pub put_text-padded :
    (n : ℕ) (s rest t : Bytes)
    → IsText s
    → length s ≤ n
    → length t ≤ n
    → put_text (some (text_in s rest)) (padded n t) ≡ ok (padded n (over s t))
unfolding put_text has_text
put_text-padded n [] rest t h l k = refl
put_text-padded n (b ∷ s) rest t h l k =
    rw (ne→==_false b 0 h.0) (copy_text-padded n (b ∷ s) rest t h l k)

-- `memset` of a whole array.
clear_all : (n : ℕ) (dst : Bytes) → length dst ≡ n → write 0 (zeros n) dst ≡ ok (zeros n)
clear_all n dst e =
    let len = length-replicate n (let z : ℕ = 0 in z) in
    write-prefix (zeros n) dst (omega (arith, len, e))
    ∙ ap (λ r. ok (zeros n ++ r)) (drop-all (length (zeros n)) dst (omega (arith, len, e)))
    ∙ ap ok (append-nil (zeros n))

pub put_key-padded :
    (n : ℕ) (s rest dst : Bytes)
    → IsText s
    → length s ≤ n
    → length dst ≡ n + 1
    → put_key n (text_in s rest) dst ≡ ok (padded (n + 1) s)
unfolding put_key
put_key-padded n s rest dst h l e =
    ap (λ x. x >>= λ cleared. copy_text (text_in s rest) cleared) (clear_all (n + 1) dst e)
    ∙ copy_text-zeros (n + 1) s rest h (omega arith)

all_or_not :
    (a b c : Bool)
    → (if not a then ok true else (if not b then ok true else ok (not c))) ≡ ok (not (a && b && c))
all_or_not false b c = refl
all_or_not true false c = refl
all_or_not true true c = refl

pub wrong_lengths-padded :
    (a b c : Bytes) (i j k : ℕ)
    → IsText a
    → IsText b
    → IsText c
    → length a ≤ i
    → length b ≤ j
    → length c ≤ k
    → wrong_lengths (padded (i + 1) a) i (padded (j + 1) b) j (padded (k + 1) c) k
      ≡ ok (not ((length a == i) && (length b == j) && (length c == k)))
unfolding wrong_lengths
wrong_lengths-padded a b c i j k ha hb hc la lb lc =
    rw
      (
        strlen-padded (i + 1) a ha (omega arith),
        strlen-padded (j + 1) b hb (omega arith),
        strlen-padded (k + 1) c hc (omega arith),
      )
      (all_or_not (length a == i) (length b == j) (length c == k))
