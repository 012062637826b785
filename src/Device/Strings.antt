-- ===== src/Device/Strings.antt =====
-- What the tables use of C's strings and bits: `strlen`, `strcmp`, `strncpy`, `strcpy`, and `&`. A
-- string is what its array holds from where the pointer stands, the NUL and what follows included.
pub mod Laws
use io_tware.Common.{
  ℕ, zero, suc, ◌+◌, ◌*◌, ◌/◌, ◌%◌, Bool, true, false, List, [], ◌∷◌, Bytes, Exec, ok, undefined,
  ◌>>=◌, ◌==◌, if◌then◌else◌, zeros, take, write,
}

-- `strlen(s)`
unfoldable pub strlen : Bytes → Exec ℕ
strlen [] = undefined
strlen (zero ∷ _) = ok 0
strlen (suc _ ∷ s) = do n ← strlen s; ok (suc n)

-- `strcmp(s, t) == 0`, which looks no further than the first difference.
unfoldable pub same_string : Bytes → Bytes → Exec Bool
same_string [] _ = undefined
same_string (_ ∷ _) [] = undefined
same_string (zero ∷ _) (zero ∷ _) = ok true
same_string (zero ∷ _) (suc _ ∷ _) = ok false
same_string (suc _ ∷ _) (zero ∷ _) = ok false
same_string (suc a ∷ s) (suc b ∷ t) =
    let rest = same_string s t in if a == b then rest else ok false

-- What `strncpy(dst, s, n)` leaves in the first `n` bytes of `dst`.
unfoldable pub strncpy : ℕ → Bytes → Exec Bytes
strncpy zero _ = ok []
strncpy (suc n) [] = undefined
strncpy (suc n) (zero ∷ _) = ok (zeros (suc n))
strncpy (suc n) (suc b ∷ s) = do rest ← strncpy n s; ok (suc b ∷ rest)

-- `memcpy(dst, s, strlen(s))`
unfoldable pub copy_text : Bytes → Bytes → Exec Bytes
unfolding strlen
copy_text s dst = do n ← strlen s; write 0 (take n s) dst

-- `strcpy(dst, s)`
unfoldable pub strcpy : Bytes → Bytes → Exec Bytes
unfolding strlen
strcpy s dst = do n ← strlen s; write 0 (take (n + 1) s) dst

-- The lowest `k` bits of `a & b`.
bits_and : ℕ → ℕ → ℕ → ℕ
bits_and zero a b = 0
bits_and (suc k) a b = (a % 2) * (b % 2) + 2 * bits_and k (a / 2) (b / 2)

-- `a & b` of two `int`s that are not negative.
unfoldable pub bit_and : ℕ → ℕ → ℕ
unfolding bits_and
bit_and a b = bits_and 32 a b
