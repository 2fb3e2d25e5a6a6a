-- ===== src/Buddy/Backoff/Delays.antt =====
-- The delays that buddy-cli/internal/client/backoff.go gives one after the other.
use clawgard.Prelude.{
  ℕ, zero, suc, ◌*◌, ◌^◌, ◌≤◌, ◌<◌, ◌≡◌, ap, ◌∙◌, ℤ, pos, List, [], ◌∷◌, arith, ltb, Comparable-ℕ,
  if◌then◌else◌, false, ◌==◌,
}
use native.Mathlib.Nat.{pow-suc}
use clawgard.Buddy.Backoff.{Backoff, twice, at_most, advance, next}

-- The backoff after `n` calls of `Next`.
abbrev pub after : ℕ → Backoff → Backoff
after zero b = b
after (suc n) b = after n (next b).1

-- The first `n` delays.
abbrev pub delays : ℕ → Backoff → List ℤ
delays zero b = []
delays (suc n) b = (next b).0 ∷ delays n (next b).1

abbrev pub capped : ℕ → ℕ → ℕ
capped most d = if ltb most d then most else d

-- Below 2 ^ 62 ns, which are 146 years, nothing wraps.
twice-pos : (d : ℕ) → d < 2 ^ 62 → twice (pos d) ≡ pos (d * 2)
twice-pos d h = ground arith

capped-step :
    (most d : ℕ)
    → 0 < d
    → 0 < most
    → most < 2 ^ 62
    → at_most (pos most) (twice (pos (capped most d))) ≡ pos (capped most (d * 2))
capped-step most d pos_d pos_most small =
    rw (twice-pos (capped most d) (ground arith)) (ground arith)

-- Not below the cap, the next step stays there; below it, it doubles.
capped-advance :
    (b : Backoff) (most d : ℕ)
    → 0 < d
    → 0 < most
    → most < 2 ^ 62
    → b.cfg.max ≡ pos most
    → b.current ≡ pos (capped most d)
    → advance b ≡ pos (capped most (d * 2))
unfolding advance
capped-advance b most d pos_d pos_most small top h =
    rw (h, top, running) (capped-step most d pos_d pos_most small)
  where
    running : (capped most d == 0) ≡ false
    running = ground arith

double : (d n : ℕ) → d * 2 * 2 ^ suc n ≡ d * 2 ^ suc (suc n)
double d n = grind (arith, ap (λ (t : ℕ). d * t) (pow-suc 2 (suc n)))

next-current :
    (n : ℕ) (b : Backoff) (most d : ℕ)
    → 0 < d
    → 0 < most
    → most < 2 ^ 62
    → b.cfg.max ≡ pos most
    → b.current ≡ pos (capped most d)
    → advance (after n b) ≡ pos (capped most (d * 2 ^ suc n))
unfolding next
next-current zero b most d pos_d pos_most small top h =
    capped-advance b most d pos_d pos_most small top h
next-current (suc n) b most d pos_d pos_most small top h =
    next-current n (next b).1 most (d * 2) (omega arith) pos_most small top
      (capped-advance b most d pos_d pos_most small top h)
    ∙ ap (λ (t : ℕ). pos (capped most t)) (double d n)

-- From a fresh backoff whose first delay is positive and at most its greatest one, which is below
-- 2 ^ 62 ns so that no doubling wraps, the delays before the jitter double until they stay at the
-- greatest one.
pub advance-after :
    (n : ℕ) (b : Backoff) (first most : ℕ)
    → b.current ≡ pos 0
    → b.cfg.initial ≡ pos first
    → b.cfg.max ≡ pos most
    → 0 < first
    → first ≤ most
    → most < 2 ^ 62
    → advance (after n b) ≡ pos (capped most (first * 2 ^ n))
unfolding next advance
advance-after zero b first most fresh start top pos_first le small =
    rw (fresh, start) (ground arith)
advance-after (suc n) b first most fresh start top pos_first le small =
    next-current n (next b).1 most first pos_first (omega arith) small top
      (rw (fresh, start) (ground arith))
