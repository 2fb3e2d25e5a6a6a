-- ===== src/Buddy/KeyFile.antt =====
-- buddy-cli/internal/auth/apikey_store.go on Unix: the key of a buddy in a file of its own. A text is the
-- list of its code points. The environment says whether the directory is there or can be made, and
-- whether the file can be written.
pub mod Trimmed
use clawgard.Prelude.{
  ℕ, String, Bool, true, false, ◌&&◌, ◌||◌, Option, none, some, List, [], ◌∷◌, ◌++◌, leb, ◌==◌,
  Comparable-ℕ, Comparable-String, if◌then◌else◌,
}
use clawgard.Exec.{Result, ok, err}
use clawgard.Assoc.{Assoc, lookup, put}

-- unicode.IsSpace
abbrev pub is_space : ℕ → Bool
is_space c =
    leb 9 c && leb c 13
    || c == 32
    || c == 0x85
    || c == 0xa0
    || c == 0x1680
    || leb 0x2000 c && leb c 0x200a
    || c == 0x2028
    || c == 0x2029
    || c == 0x202f
    || c == 0x205f
    || c == 0x3000

unfoldable pub trim_left : List ℕ → List ℕ
trim_left [] = []
trim_left (c ∷ cs) = if is_space c then trim_left cs else c ∷ cs

-- A space goes if nothing is left behind it.
abbrev pub before : ℕ → List ℕ → List ℕ
before c [] = if is_space c then [] else c ∷ []
before c (d ∷ ds) = c ∷ d ∷ ds

unfoldable pub trim_right : List ℕ → List ℕ
trim_right [] = []
trim_right (c ∷ cs) = before c (trim_right cs)

-- strings.TrimSpace
unfoldable pub trim_space : List ℕ → List ℕ
unfolding trim_left trim_right
trim_space cs = trim_right (trim_left cs)

abbrev pub newline : ℕ
newline = 10

pub record File : Type 0 where
  pub content : List ℕ
  pub mode : ℕ

abbrev pub Files : Type 0
Files = Assoc String File

pub data FileError : Type 0 where
  mkdir_failed write_failed no_file : FileError

abbrev pub mode_of : Option File → ℕ → ℕ
mode_of none mode = mode
mode_of (some f) mode = f.mode

-- os.WriteFile: the mode is for a file that is not there yet; one that is there keeps its own.
unfoldable pub write_file : String → List ℕ → ℕ → Files → Files
write_file path text mode fs =
    put path (record { content = text; mode = mode_of (lookup path fs) mode }) fs

-- What the file system lets happen.
pub record Disk : Type 0 where
  pub makes_dir : Bool
  pub writes : Bool

-- `restrictACL` does nothing on Unix.
unfoldable pub write : Disk → String → List ℕ → Files → Result FileError (Unit {0}) × Files
unfolding trim_space write_file
write disk path key fs =
    if disk.makes_dir
    then (if disk.writes
        then (ok tt, write_file path (trim_space key ++ newline ∷ []) 0o600 fs)
        else (err write_failed, fs))
    else (err mkdir_failed, fs)

abbrev pub content_of : Option File → Result FileError (List ℕ)
content_of none = err no_file
content_of (some f) = ok (trim_space f.content)

unfoldable pub read : String → Files → Result FileError (List ℕ)
unfolding trim_space
read path fs = content_of (lookup path fs)
