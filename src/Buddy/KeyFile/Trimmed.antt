-- ===== src/Buddy/KeyFile/Trimmed.antt =====
-- A key that buddy-cli/internal/auth/apikey_store.go has written is read back without the spaces around it.
use clawgard.Prelude.{
  ℕ, ◌≡◌, ◌≢◌, refl, ◌∙◌, sym, ap, inl, inr, String, false, Option, some, List, [], ◌∷◌, ◌++◌,
  arith, eq_iff, Comparable-String, Bool-cases,
}
use clawgard.Exec.{ok}
use clawgard.Assoc.{lookup, lookup-put}
use clawgard.Buddy.KeyFile.{
  is_space, trim_left, before, trim_right, trim_space, newline, File, Files, mode_of, write_file,
  Disk, write, content_of, read,
}

trim_right-newline : (cs : List ℕ) → trim_right (cs ++ newline ∷ []) ≡ trim_right cs
unfolding trim_right
trim_right-newline [] = refl
trim_right-newline (c ∷ cs) = ap (before c) (trim_right-newline cs)

before_again : (c : ℕ) (ds : List ℕ) → trim_right ds ≡ ds → trim_right (before c ds) ≡ before c ds
unfolding trim_right
before_again c [] h = elim (Bool-cases (is_space c)) [
  | inl space ↦ rw space refl
  | inr letter ↦ rw (letter, letter) refl
]
before_again c (d ∷ ds) h = ap (before c) h

trim_right_twice : (cs : List ℕ) → trim_right (trim_right cs) ≡ trim_right cs
unfolding trim_right
trim_right_twice [] = refl
trim_right_twice (c ∷ cs) = before_again c (trim_right cs) (trim_right_twice cs)

-- Nothing of a text that begins with a letter goes at its left.
before-letter :
    (c : ℕ) (ds rest : List ℕ)
    → is_space c ≡ false
    → trim_left (before c ds ++ rest) ≡ before c ds ++ rest
unfolding trim_left
before-letter c [] rest letter = rw letter (rw letter refl)
before-letter c (d ∷ ds) rest letter = rw letter refl

trimmed_once :
    (cs : List ℕ)
    → trim_right (trim_left (trim_right (trim_left cs) ++ newline ∷ [])) ≡ trim_right (trim_left cs)
unfolding trim_left trim_right
trimmed_once [] = refl
trimmed_once (c ∷ cs) = elim (Bool-cases (is_space c)) [
  | inl space ↦ rw space (trimmed_once cs)
  | inr letter ↦ rw letter (
      ap trim_right (before-letter c (trim_right cs) (newline ∷ []) letter)
      ∙ trim_right-newline (before c (trim_right cs))
      ∙ trim_right_twice (c ∷ cs))
]

-- What a write of the key that succeeds leaves in the file.
abbrev pub key_file : List ℕ → Option File → File
key_file key old = record { content = trim_space key ++ newline ∷ []; mode = mode_of old 0o600 }

write-ok :
    (disk : Disk) (path : String) (key : List ℕ) (fs fs' : Files)
    → write disk path key fs ≡ (ok tt, fs')
    → write_file path (trim_space key ++ newline ∷ []) 0o600 fs ≡ fs'
unfolding write
write-ok disk path key fs fs' h = ground arith

-- After a write of a key that succeeds, reading the file gives the key without the spaces around it; a
-- file that was there keeps its mode and a new one has mode 0600; and every other file is as
-- before.
pub write-read :
    (disk : Disk) (path : String) (key : List ℕ) (fs fs' : Files)
    → write disk path key fs ≡ (ok tt, fs')
    → (read path fs' ≡ ok (trim_space key))
      × (lookup path fs' ≡ some (key_file key (lookup path fs)))
      × ((other : String) → other ≢ path → lookup other fs' ≡ lookup other fs)
unfolding read write_file trim_space
write-read disk path key fs fs' h =
    let e = write-ok disk path key fs fs' h in
    (
      ap content_of (written e) ∙ ap ok (trimmed_once key),
      written e,
      λ other ne.
          ap (lookup other) (sym e)
          ∙ lookup-put path other (key_file key (lookup path fs)) fs
          ∙ ground (arith, eq_iff path other),
    )
  where
    written :
        write_file path (trim_space key ++ newline ∷ []) 0o600 fs ≡ fs'
        → lookup path fs' ≡ some (key_file key (lookup path fs))
    written e =
        ap (lookup path) (sym e)
        ∙ lookup-put path path (key_file key (lookup path fs)) fs
        ∙ ground (arith, eq_iff path path)
