-- ===== src/Power/Tests.antt =====
-- Concrete voltages.
use io_tware.Common.{ℕ, ◌≡◌, ◌≤◌, some, arith}
use io_tware.Power.Status.{percent, percent-rises}

percent-rises_example :
    (p : ℕ) × (q : ℕ) × (percent 3499 ≡ some p) × (percent 4150 ≡ some q) × (p ≤ q) × (q ≤ 100)
percent-rises_example = percent-rises 3499 4150 (omega arith)
