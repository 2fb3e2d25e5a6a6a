-- ===== src/Buddy/Hook/Splitting.antt =====
-- What `splitWindowsCommand` of buddy-cli/internal/hook/hook.go makes of a command line.
use clawgard.Prelude.{
  ℕ, ◌≡◌, ◌≢◌, refl, sym, ap, ◌∙◌, Bool, true, false, List, [], ◌∷◌, ◌++◌, arith, ◌==◌,
  Comparable-ℕ, All, nat_eq_iff,
}
use mathlib.Core.List.{append-nil, append_assoc}
use clawgard.Buddy.Hook.{Split, flush, split_rune, split_runes, split_windows_command}

abbrev pub quote : ℕ
quote = b'"'

abbrev pub blank : ℕ
blank = b' '

-- The command line of some arguments, each in quotes.
abbrev pub quoted : List (List ℕ) → List ℕ
quoted [] = []
quoted (a ∷ as') = quote ∷ a ++ quote ∷ blank ∷ quoted as'

-- A text that is not empty and has no quote.
abbrev pub IsArg : List ℕ → Type 0
IsArg a = (a ≢ []) × All (λ r. r ≢ quote) a

split_runes-append :
    (is_space : ℕ → Bool) (xs ys : List ℕ) (s : Split)
    → split_runes is_space (xs ++ ys) s ≡ split_runes is_space ys (split_runes is_space xs s)
unfolding split_runes
split_runes-append is_space [] ys s = refl
split_runes-append is_space (x ∷ xs) ys s =
    split_runes-append is_space xs ys (split_rune is_space x s)

-- Between quotes everything but a quote is kept.
split_runes-inside :
    (is_space : ℕ → Bool) (a cur : List ℕ) (args : List (List ℕ))
    → All (λ r. r ≢ quote) a
    → split_runes is_space a (record { args = args; cur = cur; in_quotes = true })
      ≡ record { args = args; cur = cur ++ a; in_quotes = true }
unfolding split_runes split_rune
split_runes-inside is_space [] cur args h =
    ap (λ (c : List ℕ). record { args = args; cur = c; in_quotes = true }) (sym (append-nil cur))
split_runes-inside is_space (r ∷ rs) cur args h = rw not_quote (
    split_runes-inside is_space rs (cur ++ r ∷ []) args h.1
    ∙ ap (λ (c : List ℕ). record { args = args; cur = c; in_quotes = true })
        (append_assoc cur (r ∷ []) rs))
  where
    not_quote : (r == quote) ≡ false
    not_quote = ground (arith, nat_eq_iff r quote, h.0)

abbrev between : List (List ℕ) → Split
between args = record { args = args; cur = []; in_quotes = false }

-- One quoted argument is added to those before it.
split_runes-arg :
    (is_space : ℕ → Bool) (a : List ℕ) (args : List (List ℕ)) (rest : List ℕ)
    → is_space blank ≡ true
    → IsArg a
    → split_runes is_space (quote ∷ a ++ quote ∷ blank ∷ rest) (between args)
      ≡ split_runes is_space rest (between (args ++ a ∷ []))
unfolding split_runes split_rune
split_runes-arg is_space [] args rest sp h = absurd (h.0 refl)
split_runes-arg is_space (r ∷ rs) args rest sp h =
    split_runes-append is_space (r ∷ rs) (quote ∷ blank ∷ rest)
      (record { args = args; cur = []; in_quotes = true })
    ∙ ap (split_runes is_space (quote ∷ blank ∷ rest))
        (split_runes-inside is_space (r ∷ rs) [] args h.1)
    ∙ rw sp refl

split_runes-quoted :
    (is_space : ℕ → Bool) (as' args : List (List ℕ))
    → is_space blank ≡ true
    → All IsArg as'
    → split_runes is_space (quoted as') (between args) ≡ between (args ++ as')
unfolding split_runes
split_runes-quoted is_space [] args sp h = ap between (sym (append-nil args))
split_runes-quoted is_space (a ∷ as') args sp h =
    split_runes-arg is_space a args (quoted as') sp h.0
    ∙ split_runes-quoted is_space as' (args ++ a ∷ []) sp h.1
    ∙ ap between (append_assoc args (a ∷ []) as')

-- Arguments that are not empty and have no quote, each put in quotes, with blanks after them, are read
-- back as they are, whatever blanks and backslashes they hold.
pub split_windows_command-quoted :
    (is_space : ℕ → Bool) (as' : List (List ℕ))
    → is_space blank ≡ true
    → All IsArg as'
    → split_windows_command is_space (quoted as') ≡ as'
unfolding split_windows_command
split_windows_command-quoted is_space as' sp h =
    ap (λ (s : Split). (flush s).args) (split_runes-quoted is_space as' [] sp h)
