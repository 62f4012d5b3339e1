-- ===== src/Tunnel/Backoff.antt =====
-- The delays between the restarts of snulbug/share_runtime.py.
use native.Mathlib.Numerals.{unary_clauses}
use snulbug.Base.{ℕ, zero, suc, ◌*◌, ◌^◌, ◌≤◌, ◌≡◌, true, arith, eqb, if◌then◌else◌}
use snulbug.Tunnel.{lesser, delay_after, ShareRuntimeConfig, is_valid}

pow_suc : (n : ℕ) → 2 ^ suc n ≡ 2 ^ n * 2
pow_suc n = simp unary_clauses

double : (d n : ℕ) → d * 2 ^ suc n ≡ d * 2 * 2 ^ n
double d n = rw (pow_suc n) (omega arith)

grows : (d n : ℕ) → d ≤ d * 2 ^ n
grows d zero = omega arith
grows d (suc n) = rw (pow_suc n) (omega (arith, grows d n))

-- one round of the loop, with what the rest of it gives
round :
    (most d x r : ℕ)
    → d ≤ x
    → (d ≤ most → r ≡ lesser x most)
    → (if eqb (lesser d most) most then lesser d most else r) ≡ lesser x most
round most d x r h rest = ground arith

lesser_of_le : (a b : ℕ) → a ≤ b → lesser a b ≡ a
lesser_of_le a b h = ground arith

lesser_below : (a b : ℕ) → lesser a b ≤ b
lesser_below a b = ground arith

delay_from :
    (most delay n : ℕ) → delay ≤ most → delay_after most delay n ≡ lesser (delay * 2 ^ n) most
unfolding delay_after
delay_from most delay zero h = rw (lesser_of_le (delay * 2 ^ 0) most (omega arith)) (omega arith)
delay_from most delay (suc n) h = rw (double delay n) (
    round most (delay * 2) (delay * 2 * 2 ^ n) (delay_after most (lesser (delay * 2) most) n)
      (grows (delay * 2) n)
      (λ below. rw (lesser_of_le (delay * 2) most below) (delay_from most (delay * 2) n below)))

-- Under a valid configuration the delay before a restart is the initial delay, doubled once for
-- each attempt made, and at most the longest delay.
delay_after-lesser :
    (config : ShareRuntimeConfig) (n : ℕ)
    → is_valid config ≡ true
    → delay_after config.restart_max config.restart_initial n
      ≡ lesser (config.restart_initial * 2 ^ n) config.restart_max
unfolding is_valid
delay_after-lesser config n valid =
    delay_from config.restart_max config.restart_initial n (ground arith)
