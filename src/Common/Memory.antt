-- ===== src/Common/Memory.antt =====
-- Byte buffers: `calloc`, `memcpy` from a moving pointer, and `memcpy` to an offset of a buffer.
-- A buffer is the list of its bytes, so that an access past its end is `undefined`.
use Prim.Native.Nat.{ℕ, zero, suc, ◌+◌, ◌≤◌, ◌<◌}
use mathlib.Core.Path.{◌≡◌, ap}
use mathlib.Core.Logic.{◌⊎◌, inl, inr}
use mathlib.Core.Bool.{Bool}
use mathlib.Core.List.{List, [], ◌∷◌, ◌++◌, append_assoc, append-nil}
use native.Mathlib.Omega.{arith}
use io_tware.Common.Tests.{leb, le→leb, lt→leb_false, Bool-cases, if◌then◌else◌}
use io_tware.Common.Lists.{
  length, take, drop, replicate, length-append, length-replicate, take-append, drop-append,
  drop-replicate, All,
}
use io_tware.Common.Outcome.{Exec, ok, undefined}

abbrev pub Bytes : Type 0
Bytes = List ℕ

abbrev pub AreBytes : Bytes → Type 0
AreBytes bs = All (λ b. b < 256) bs

-- Whether the `k`-th `calloc` of a routine, for so many bytes, succeeds: the heap is not modelled.
abbrev pub Calloc : Type 0
Calloc = ℕ → ℕ → Bool

abbrev pub zeros : ℕ → Bytes
zeros n = replicate n 0

-- `memcpy(dst, pt, n); pt += n;`: the bytes copied, and what `pt` then points to.
unfoldable pub read : ℕ → Bytes → Exec (Bytes × Bytes)
read n pt = if leb n (length pt) then ok (take n pt, drop n pt) else undefined

-- `memcpy(buf + off, src, length src);`
unfoldable pub write : ℕ → Bytes → Bytes → Exec Bytes
write off src buf =
    if leb (off + length src) (length buf)
    then ok (take off buf ++ (src ++ drop (off + length src) buf))
    else undefined

pub read-append : (n : ℕ) (xs ys : Bytes) → n ≡ length xs → read n (xs ++ ys) ≡ ok (xs, ys)
unfolding read
read-append n xs ys e = rw (
  e,
  le→leb (length xs) (length (xs ++ ys)) (omega (arith, length-append xs ys)),
  take-append xs ys,
  drop-append xs ys,
)

pub read-undefined : (n : ℕ) (pt : Bytes) → length pt < n → read n pt ≡ undefined
unfolding read
read-undefined n pt h = rw (lt→leb_false n (length pt) h)

pub read_one : (b : ℕ) (pt : Bytes) → read 1 (b ∷ pt) ≡ ok (b ∷ [], pt)
read_one b pt = read-append 1 (b ∷ []) pt (omega arith)

pub read_all : (n : ℕ) (xs : Bytes) → n ≡ length xs → read n xs ≡ ok (xs, [])
read_all n xs e = rw (append-nil xs) at (read-append n xs [] e)

drop-past : (xs ys : Bytes) (n : ℕ) → drop (length xs + n) (xs ++ ys) ≡ drop n ys
drop-past [] ys n = ap (λ m. drop m ys) (omega arith)
drop-past (x ∷ xs) ys n =
    let s : length (x ∷ xs) + n ≡ suc (length xs + n) = omega arith in rw s (drop-past xs ys n)

-- Writing just behind what has been written of a zeroed buffer.
pub write-next :
    (off n k : ℕ) (pre src : Bytes)
    → off ≡ length pre
    → n ≡ length src + k
    → write off src (pre ++ zeros n) ≡ ok ((pre ++ src) ++ zeros k)
unfolding write
write-next off n k pre src e f = rw (
  e,
  f,
  le→leb (length pre + length src) (length (pre ++ zeros (length src + k))) room,
  take-append pre (zeros (length src + k)),
  drop-past pre (zeros (length src + k)) (length src),
  drop-replicate {A = ℕ} (length src) k 0,
  ← append_assoc pre src (zeros k),
)
  where
    room : length pre + length src ≤ length (pre ++ zeros (length src + k))
    room = omega (
      arith,
      length-append pre (zeros (length src + k)),
      length-replicate (length src + k) (let z : ℕ = 0 in z),
    )

pub write-undefined :
    (off : ℕ) (src buf : Bytes) → length buf < off + length src → write off src buf ≡ undefined
unfolding write
write-undefined off src buf h = rw (lt→leb_false (off + length src) (length buf) h)

length-drop-le : (n : ℕ) (xs : Bytes) → length (drop n xs) ≤ length xs
length-drop-le zero xs = omega arith
length-drop-le (suc n) [] = omega arith
length-drop-le (suc n) (x ∷ xs) = omega (arith, length-drop-le n xs)

-- A read is undefined, or leaves no more than there was.
pub read-cases :
    (n : ℕ) (pt : Bytes)
    → (read n pt ≡ undefined)
      ⊎ ((xs : Bytes) × (ys : Bytes) × (read n pt ≡ ok (xs, ys)) × (length ys ≤ length pt))
unfolding read
read-cases n pt = elim (Bool-cases (leb n (length pt))) [
  | inl enough ↦ inr (take n pt, drop n pt, rw enough, length-drop-le n pt)
  | inr short ↦ inl (rw short)
]
