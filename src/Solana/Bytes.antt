-- ===== src/Solana/Bytes.antt =====
-- Little-endian bytes.
use native.Mathlib.Nat.{pow-succ'}
use ulmara_backend.Common.{List, arith, length, refl, suc, zero, ℕ, ◌*◌, ◌++◌, ◌/◌, ◌<◌, ◌^◌, ◌≡◌}
use ulmara_backend.Solana.{le_bytes, le_value}

quotient_small : (v p : ℕ) → v < 256 * p → v / 256 < p
quotient_small v p h = omega arith

-- The bytes of a number in so many bytes say the number.
pub le_value-le_bytes :
    (n v : ℕ) (rest : List ℕ) → v < 256 ^ n → le_value n (le_bytes n v ++ rest) ≡ v
unfolding le_value le_bytes
le_value-le_bytes zero v rest h = ground arith
le_value-le_bytes (suc n) v rest h =
    let small : v / 256 < 256 ^ n = quotient_small v (256 ^ n) (rw (pow-succ' 256 n) at h) in
    ground (arith, le_value-le_bytes n (v / 256) rest small)

length-le_bytes : (n v : ℕ) → length (le_bytes n v) ≡ n
unfolding le_bytes
length-le_bytes zero v = refl
length-le_bytes (suc n) v = ground (arith, length-le_bytes n (v / 256))
