-- ===== src/Oal/Fifo/Ring.antt =====
-- The ring of positions and the blocks between two of them.
use native.Mathlib.Nat.{mod-eq_of_lt, mod_self}
use io_tware.Common.{
  ℕ, zero, suc, ◌+◌, ◌-◌, ◌%◌, ◌<◌, ◌≡◌, ◌≢◌, refl, ap, ap₂, ◌⊎◌, inl, inr, List, [], ◌∷◌, ◌++◌,
  ltb, ◌==◌, if◌then◌else◌, get_or, set, length, Bytes, ne→==_false, ==_refl, arith,
}

-- The position behind `i` in a ring of `c`.
abbrev pub following : ℕ → ℕ → ℕ
following c i = if i + 1 == c then 0 else i + 1

-- The `n` blocks from `i` on.
abbrev pub waiting : ℕ → ℕ → ℕ → List Bytes → List Bytes
waiting zero c i mem = []
waiting (suc n) c i mem = get_or mem i [] ∷ waiting n c (following c i) mem

eq_or_ne : (a b : ℕ) → (a ≡ b) ⊎ (a ≢ b)
eq_or_ne a b = ground arith

pub mod-following : (c i : ℕ) → i < c → (i + 1) % c ≡ following c i
mod-following c i h = elim (eq_or_ne (i + 1) c) [
  | inl e ↦ rw (e, ==_refl c) (mod_self c)
  | inr n ↦ rw (ne→==_false (i + 1) c n) (mod-eq_of_lt (omega arith))
]

pub following-lt : (c i : ℕ) → i < c → following c i < c
following-lt c i h = ground arith

-- How many steps lead from `g` to `p`.
abbrev pub distance : ℕ → ℕ → ℕ → ℕ
distance c g p = if ltb p g then p + c - g else p - g

pub distance-following :
    (c i p : ℕ) → i < c → p < c → i ≢ p → distance c i p ≡ suc (distance c (following c i) p)
distance-following c i p h h' n = ground arith

pub distance-zero : (c i p : ℕ) → i < c → p < c → distance c i p ≡ 0 → i ≡ p
distance-zero c i p h h' e = ground arith

pub distance-same : (c i : ℕ) → distance c i i ≡ 0
distance-same c i = ground arith

pub distance-apart : (c i p n : ℕ) → distance c i p ≡ suc n → i ≢ p
distance-apart c i p n e q = ground arith

pub get-set_same :
    (mem : List Bytes) (p : ℕ) (d : Bytes) → p < length mem → get_or (set mem p d) p [] ≡ d
get-set_same [] p d h = absurd (omega arith)
get-set_same (b ∷ mem) zero d h = refl
get-set_same (b ∷ mem) (suc p) d h = get-set_same mem p d (omega arith)

pub get-set_other :
    (mem : List Bytes) (p i : ℕ) (d : Bytes) → i ≢ p → get_or (set mem p d) i [] ≡ get_or mem i []
get-set_other [] p i d n = refl
get-set_other (b ∷ mem) zero zero d n = absurd (n refl)
get-set_other (b ∷ mem) zero (suc i) d n = refl
get-set_other (b ∷ mem) (suc p) zero d n = refl
get-set_other (b ∷ mem) (suc p) (suc i) d n = get-set_other mem p i d (λ e. n (ap suc e))

pub length-set : (mem : List Bytes) (p : ℕ) (d : Bytes) → length (set mem p d) ≡ length mem
length-set [] p d = refl
length-set (b ∷ mem) zero d = refl
length-set (b ∷ mem) (suc p) d = ap suc (length-set mem p d)

pub waiting-snoc :
    (n c i p : ℕ) (mem : List Bytes)
    → i < c
    → p < c
    → distance c i p ≡ n
    → waiting (suc n) c i mem ≡ waiting n c i mem ++ (get_or mem p [] ∷ [])
waiting-snoc zero c i p mem h h' e = ap (λ j. get_or mem j [] ∷ []) (distance-zero c i p h h' e)
waiting-snoc (suc n) c i p mem h h' e =
    let apart = distance-apart c i p n e in
    let d = distance-following c i p h h' apart in
    ap (λ t. get_or mem i [] ∷ t)
      (waiting-snoc n c (following c i) p mem (following-lt c i h) h' (omega (arith, d)))

pub waiting-set :
    (n c i p : ℕ) (mem : List Bytes) (b : Bytes)
    → i < c
    → p < c
    → distance c i p ≡ n
    → waiting n c i (set mem p b) ≡ waiting n c i mem
waiting-set zero c i p mem b h h' e = refl
waiting-set (suc n) c i p mem b h h' e =
    let apart = distance-apart c i p n e in
    let d = distance-following c i p h h' apart in
    ap₂ (λ x t. x ∷ t) (get-set_other mem p i b apart)
      (waiting-set n c (following c i) p mem b (following-lt c i h) h' (omega (arith, d)))

pub distance-full : (c g p : ℕ) → g < c → p < c → distance c g p + 1 ≡ c → g ≡ following c p
distance-full c g p h h' e = ground arith

pub distance-room :
    (c g p : ℕ)
    → g < c
    → p < c
    → distance c g p + 1 < c
    → (g ≢ following c p) × (distance c g (following c p) ≡ suc (distance c g p))
distance-room c g p h h' l = (λ e. ground arith, ground arith)
