-- ===== src/Buddy/Backoff.antt =====
-- buddy-cli/internal/client/backoff.go. A duration is an int64 of nanoseconds, which wraps when it is
-- doubled. The random jitter is a function of the delay.
pub mod Delays
use clawgard.Prelude.{
  ℕ, ◌*◌, ◌%◌, ◌^◌, ℤ, pos, negsuc, to_bits, of_bits, less, Bool, true, false, Option, none, some,
  ltb, ◌==◌, Comparable-ℕ, if◌then◌else◌,
}

pub record BackoffConfig : Type 0 where
  pub initial : ℤ
  pub max : ℤ
  -- `none` for a jitter of zero or less
  pub jitter : Option (ℤ → ℤ)

pub record Backoff : Type 0 where
  pub cfg : BackoffConfig
  pub current : ℤ

abbrev pub second : ℕ
second = 1_000_000_000

-- What is not positive is replaced.
abbrev pub or_default : ℤ → ℤ → ℤ
or_default d (pos n) = if n == 0 then d else pos n
or_default d (negsuc n) = d

unfoldable pub new_backoff : BackoffConfig → Backoff
new_backoff cfg = record {
  cfg = record cfg {
    initial = or_default (pos (1 * second)) cfg.initial;
    max = or_default (pos (30 * second)) cfg.max;
  };
  current = pos 0;
}

unfoldable pub apply_jitter : BackoffConfig → ℤ → ℤ
apply_jitter cfg d = elim cfg.jitter [ none ↦ d | some spread ↦ spread d ]

abbrev pub is_zero : ℤ → Bool
is_zero (pos n) = n == 0
is_zero (negsuc n) = false

-- `b.current *= 2`
abbrev pub twice : ℤ → ℤ
twice d = of_bits (to_bits d * 2)

abbrev pub at_most : ℤ → ℤ → ℤ
at_most most d = if less most d then most else d

unfoldable pub advance : Backoff → ℤ
advance b = if is_zero b.current then b.cfg.initial else at_most b.cfg.max (twice b.current)

unfoldable pub next : Backoff → ℤ × Backoff
unfolding apply_jitter advance
next b = (apply_jitter b.cfg (advance b), record b { current = advance b })

unfoldable pub reset : Backoff → Backoff
reset b = record b { current = pos 0 }
