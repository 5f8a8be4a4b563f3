-- ===== src/Tests/Supply.antt =====
-- Addresses for runs on memory.
use midas_util.Base.{ℕ, zero, suc, ◌<◌, ◌≢◌, List, [], ◌∷◌, All, arith}
use midas_util.Llist.{Ptr, null}
use midas_util.Llist.Supply.{Differ, IsSupply}

-- the addresses from n down to 1
abbrev pub addresses : ℕ → List (Ptr × Ptr)
addresses zero = []
addresses (suc n) = (suc n, suc n) ∷ addresses n

addresses_valid : (n : ℕ) → All (λ (a, p). a ≢ null) (addresses n)
addresses_valid zero = tt
addresses_valid (suc n) = ((λ e. absurd (omega arith)), addresses_valid n)

addresses_below : (n m : ℕ) → n < m → All (λ (b, q). (b ≢ m) × (q ≢ m)) (addresses n)
addresses_below zero m l = tt
addresses_below (suc n) m l =
    (((λ e. absurd (omega arith)), (λ e. absurd (omega arith))), addresses_below n m (omega arith))

addresses-Differ : (n : ℕ) → Differ (addresses n)
addresses-Differ zero = tt
addresses-Differ (suc n) = (addresses_below n (suc n) (omega arith), addresses-Differ n)

pub addresses-IsSupply : (n : ℕ) → IsSupply (addresses n)
addresses-IsSupply n = record { valid = addresses_valid n; differ = addresses-Differ n }
