-- ===== src/Dcfw/Attributes/Counts.antt =====
-- The packed counts and value lengths.
use io_tware.Common.{ℕ, zero, suc, ◌^◌, ◌≤◌, ◌<◌, ◌≡◌, refl, arith, ◌==◌, if◌then◌else◌}
use io_tware.Dcfw.Attributes.{
  real_attr_count, packed_attr_count, real_value_length, packed_value_length,
}

real-packed_attr_count :
    (n : ℕ)
    → n ≤ 256
    → (packed_attr_count n < 256)
      × (real_attr_count (packed_attr_count n) ≡ (if n == 0 then 256 else n))
unfolding real_attr_count packed_attr_count
real-packed_attr_count n h = ground arith

packed-real_value_length :
    (p : ℕ)
    → p < 4
    → (real_value_length p ≡ 2 ^ p) × (packed_value_length (real_value_length p) ≡ p)
unfolding real_value_length packed_value_length
packed-real_value_length zero h = (refl, refl)
packed-real_value_length (suc zero) h = (refl, refl)
packed-real_value_length (suc (suc zero)) h = (refl, refl)
packed-real_value_length (suc (suc (suc zero))) h = (refl, refl)
packed-real_value_length (suc (suc (suc (suc p)))) h = absurd (omega arith)

-- From 1 to 256 elements, the packed count is a byte that gives the count back; a count of 0 is
-- packed like one of 256. The value lengths that two bits can name are 1, 2, 4 and 8, and packing
-- inverts them.
pub packing-inverts :
    (n p : ℕ)
    → n ≤ 256
    → p < 4
    → ((packed_attr_count n < 256)
        × (real_attr_count (packed_attr_count n) ≡ (if n == 0 then 256 else n)))
      × ((real_value_length p ≡ 2 ^ p) × (packed_value_length (real_value_length p) ≡ p))
packing-inverts n p h k = (real-packed_attr_count n h, packed-real_value_length p k)

pub real_value_length-pos : (p : ℕ) → p < 4 → (1 ≤ real_value_length p) × (real_value_length p ≤ 8)
unfolding real_value_length
real_value_length-pos zero h = omega arith
real_value_length-pos (suc zero) h = omega arith
real_value_length-pos (suc (suc zero)) h = omega arith
real_value_length-pos (suc (suc (suc zero))) h = omega arith
real_value_length-pos (suc (suc (suc (suc p)))) h = absurd (omega arith)
