-- ===== src/Access/Signing/Window.antt =====
-- The window of accepted timestamps.
use go_fula.Prelude.{ℕ, ◌+◌, ◌^◌, ◌≤◌, ◌<◌, ◌≡◌, ◌↔◌, ◌⊎◌, false, arith}
use go_fula.Access.Signing.{max_skew, too_far}

-- For a clock and a timestamp that are not negative, the check passes exactly when they are at
-- most 300 seconds apart.
pub too_far_iff :
    (now ts : ℕ)
    → now < 2 ^ 63
    → ts < 2 ^ 63
    → (too_far now ts ≡ false) ↔ ((now ≤ ts + max_skew) × (ts ≤ now + max_skew))
unfolding too_far
too_far_iff now ts h k = (λ e. ground arith, λ e. ground arith)

-- The timestamp 2^63 seconds before the clock passes too: the difference is the least int64, which
-- its negation leaves negative.
pub too_far_overflow : (now : ℕ) → now < 2 ^ 63 → too_far now (now + 2 ^ 63) ≡ false
unfolding too_far
too_far_overflow now h = ground arith

-- A timestamp that passes on a clock from 301 to below 2^62 is at most 300 seconds away, or 2^63.
pub too_far_near :
    (now ts : ℕ)
    → 300 < now
    → now < 2 ^ 62
    → ts < 2 ^ 64
    → too_far now ts ≡ false
    → ((now ≤ ts + 300) × (ts ≤ now + 300)) ⊎ (ts ≡ now + 2 ^ 63)
unfolding too_far
too_far_near now ts late early int64 e = ground arith
