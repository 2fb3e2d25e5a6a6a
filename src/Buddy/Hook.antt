-- ===== src/Buddy/Hook.antt =====
-- buddy-cli/internal/hook/hook.go. Splitting a command on Unix (github.com/google/shlex) and the
-- process that runs are arguments; the split for Windows is code of the file.
pub mod Splitting
use clawgard.Prelude.{
  ℕ, String, Bool, true, false, not, ◌&&◌, Option, none, some, List, [], ◌∷◌, ◌++◌, ◌==◌,
  Comparable-ℕ, Comparable-String, if◌then◌else◌,
}
use clawgard.Exec.{Result, ok, err}

pub record Question : Type 0 where
  pub thread_id : String
  pub question : String
  pub asker_email : String
  pub turn : ℕ

pub record Response : Type 0 where
  pub type : String
  pub content : String

pub data HookError : Type 0 where
  invalid_command hook_failed invalid_response : HookError

-- The state of the loop of `splitWindowsCommand`: the arguments, the one being read, the quotes.
pub record Split : Type 0 where
  pub args : List (List ℕ)
  pub cur : List ℕ
  pub in_quotes : Bool

abbrev pub flush : Split → Split
flush s = elim s.cur [ [] ↦ s | c ∷ cs ↦ record s { args = s.args ++ s.cur ∷ []; cur = [] } ]

-- `unicode.IsSpace` is an argument.
unfoldable pub split_rune : (ℕ → Bool) → ℕ → Split → Split
split_rune is_space r s =
    if r == b'"'
    then record s { in_quotes = not s.in_quotes }
    else if not s.in_quotes && is_space r
    then flush s
    else record s { cur = s.cur ++ r ∷ [] }

unfoldable pub split_runes : (ℕ → Bool) → List ℕ → Split → Split
unfolding split_rune
split_runes is_space [] s = s
split_runes is_space (r ∷ rs) s = split_runes is_space rs (split_rune is_space r s)

abbrev pub no_split : Split
no_split = record { args = []; cur = []; in_quotes = false }

unfoldable pub split_windows_command : (ℕ → Bool) → List ℕ → List (List ℕ)
unfolding split_runes
split_windows_command is_space rs = (flush (split_runes is_space rs no_split)).args

-- What the process printed, decoded: `none` when it failed or timed out, `some none` when its output
-- is no JSON.
abbrev pub Process : Type 0
Process = List (List ℕ) → Question → Option (Option Response)

abbrev pub valid_response : Option Response → Result HookError Response
valid_response none = err invalid_response
valid_response (some r) = if r.type == "" then err invalid_response else ok r

abbrev pub output : Option (Option Response) → Result HookError Response
output none = err hook_failed
output (some o) = valid_response o

-- `argv` is the split command, `none` if the split failed.
unfoldable pub run : Process → Option (List (List ℕ)) → Question → Result HookError Response
run process none q = err invalid_command
run process (some []) q = err invalid_command
run process (some (a ∷ rest)) q = output (process (a ∷ rest) q)
