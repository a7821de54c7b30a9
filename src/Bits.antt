-- ===== src/Bits.antt =====
-- Facts about the bit operations on bytes, by evaluation at all 256 values.
use fz_server.Prelude.{ℕ, zero, suc, ◌<◌, ◌≡◌, Bool, true, ◌&&◌, arith}

unfoldable pub every_below : ℕ → (ℕ → Bool) → Bool
every_below zero holds = true
every_below (suc n) holds = holds n && every_below n holds

pub every_below-at :
    (n : ℕ) (holds : ℕ → Bool) (x : ℕ) → every_below n holds ≡ true → x < n → holds x ≡ true
unfolding every_below
every_below-at zero holds x all lt = absurd (omega arith)
every_below-at (suc n) holds x all lt = ground (arith, every_below-at n holds x)
