-- ===== src/Api/Me/Roles.antt =====
-- The roles that server/internal/api/me.go answers.
use clawgard.Prelude.{
  ℕ, ◌+◌, ◌≡◌, ap, String, List, [], ◌∷◌, arith, eq_iff, ◌==◌, Comparable-String, if◌then◌else◌,
}
use clawgard.Store.Buddies.{any_of}
use clawgard.Api.Me.{dedupe_from, dedupe}

-- How often a text occurs.
abbrev pub count : String → List String → ℕ
count x [] = 0
count x (y ∷ ys) = (if y == x then 1 else 0) + count x ys

-- How often `dedupe_from` puts a text out.
abbrev once : String → List String → List String → ℕ
once x seen ss = if any_of x seen then 0 else if any_of x ss then 1 else 0

count-dedupe_from :
    (x : String) (seen ss : List String) → count x (dedupe_from seen ss) ≡ once x seen ss
unfolding dedupe_from
count-dedupe_from x seen [] = ground arith
count-dedupe_from x seen (s ∷ ss) = ground (
  arith,
  count-dedupe_from x (s ∷ seen) ss,
  count-dedupe_from x seen ss,
  eq_iff s x,
  ap (λ k. any_of k seen) {x = s} {y = x},
)

-- `dedupe` keeps each text that it is given, exactly once, and adds none.
pub count-dedupe :
    (x : String) (ss : List String) → count x (dedupe ss) ≡ (if any_of x ss then 1 else 0)
unfolding dedupe
count-dedupe x ss = count-dedupe_from x [] ss
