-- ===== src/Store/Migrate/Applied.antt =====
-- What server/internal/store/migrate.go has applied when it ends, also by an error.
use clawgard.Prelude.{
  ◌≡◌, ◌≢◌, refl, ◌∙◌, ap, sym, inl, inr, ◌⊎◌, String, true, false, not, Option, none, some, List,
  [], ◌∷◌, ◌++◌, arith, keep, exists, ◌==◌, Comparable-String, eq_iff, Bool-cases, Option-cases,
  ◌||◌,
}
use mathlib.Core.List.{append-nil, append_assoc}
use clawgard.Exec.{Result, ok, err, resume, ◌>>=◌}
use clawgard.Store.History.{exists-append}
use clawgard.Store.Db.{Outcome, works, refused, lost}
use clawgard.Store.Migrate.{
  MigrateError, begin_tx, apply_migration, record_migration, commit_migration, check_migration,
  Change, ran, recorded, Schema, MigrationFs, next_outcome, later_outcomes, call, stage, commits,
  is_row, is_recorded, apply_file, migrate_file, migrate_files, in_tx,
}

-- The files whose rows are missing.
abbrev pub missing : List Change → List String → List String
missing done files = keep (λ f. not (is_recorded f done)) files

abbrev change_of : Option String → String → List Change
change_of none name = []
change_of (some body) name = ran body ∷ recorded name ∷ []

-- Each file's statements with its row.
abbrev pub changes : MigrationFs → List String → List Change
changes fs [] = []
changes fs (name ∷ names) = change_of (fs.read_file name) name ++ changes fs names

abbrev later : Schema → Schema
later s = record s { outcomes = later_outcomes s.outcomes }

pub call_cases :
    (e : MigrateError) (f : Schema → Schema) (s : Schema)
    → (call e f s ≡ (ok tt, f (later s)))
      ⊎ (call e f s ≡ (err e, later s))
      ⊎ (call e f s ≡ (err e, f (later s)))
unfolding call
call_cases e f s = by_outcome (next_outcome s.outcomes) refl
  where
    by_outcome :
        (o : Outcome)
        → next_outcome s.outcomes ≡ o
        → (call e f s ≡ (ok tt, f (later s)))
          ⊎ (call e f s ≡ (err e, later s))
          ⊎ (call e f s ≡ (err e, f (later s)))
    by_outcome works h = inl (rw h refl)
    by_outcome refused h = inr (inl (rw h refl))
    by_outcome lost h = inr (inr (rw h refl))

-- The state after a transaction that failed.
abbrev aborted : Schema → Schema
aborted s = record (later s) { pending = [] }

stage_cases :
    (e : MigrateError) (c : Change) (s : Schema)
    → (in_tx (call e (stage c)) s ≡ (ok tt, stage c (later s)))
      ⊎ (in_tx (call e (stage c)) s ≡ (err e, aborted s))
stage_cases e c s = elim (call_cases e (stage c) s) [
  | inl h ↦ inl (rw h refl)
  | inr (inl h) ↦ inr (rw h refl)
  | inr (inr h) ↦ inr (rw h refl)
]

commit_cases :
    (e : MigrateError) (s : Schema)
    → (in_tx (call e commits) s ≡ (ok tt, commits (later s)))
      ⊎ (in_tx (call e commits) s ≡ (err e, aborted s))
      ⊎ (in_tx (call e commits) s ≡ (err e, commits (later s)))
commit_cases e s = elim (call_cases e commits s) [
  | inl h ↦ inl (rw h refl)
  | inr (inl h) ↦ inr (inl (rw h refl))
  | inr (inr h) ↦ inr (inr (rw h refl))
]

-- Either nothing of the file is there, and it failed, or its statements and its row both are.
record Whole (fs : MigrationFs) (name : String) (s : Schema)
    (x : Result MigrateError (Unit {0}) × Schema) : Type 0 where
  settled : x.1.pending ≡ []
  whole :
      ((x.1.done ≡ s.done) × (x.0 ≢ ok tt))
      ⊎ (x.1.done ≡ s.done ++ change_of (fs.read_file name) name)
  row : x.0 ≡ ok tt → is_recorded name x.1.done ≡ true

failed :
    (fs : MigrationFs) (name : String) (e : MigrateError) (s t : Schema)
    → t.pending ≡ []
    → t.done ≡ s.done
    → Whole fs name s (err e, t)
failed fs name e s t clean same = record {
  settled = clean;
  whole = inl (same, λ h. cc);
  row = λ h. cc;
}

abbrev staged : String → String → Schema → Schema
staged name body s = stage (recorded name) (later (stage (ran body) (later (later s))))

kept :
    (fs : MigrationFs) (name body : String) (r : Result MigrateError (Unit {0})) (s : Schema)
    → s.pending ≡ []
    → fs.read_file name ≡ some body
    → Whole fs name s (r, commits (later (staged name body s)))
kept fs name body r s clean there = record {
  settled = refl;
  whole = inr (rw (clean, there) refl);
  row = λ h. has_row;
}
  where
    has_row :
        is_recorded name (s.done ++ ((s.pending ++ ran body ∷ []) ++ recorded name ∷ [])) ≡ true
    has_row =
        exists-append (is_row name) s.done ((s.pending ++ ran body ∷ []) ++ recorded name ∷ [])
        ∙ rw clean (ground (arith, eq_iff name name))

apply_file-Whole :
    (fs : MigrationFs) (name : String) (s : Schema)
    → s.pending ≡ []
    → Whole fs name s (apply_file fs name s)
unfolding apply_file ◌>>=◌
apply_file-Whole fs name s clean = elim (Option-cases (fs.read_file name)) [
  | inl gone ↦ rw gone (failed fs name _ s s clean refl)
  | inr (body, there) ↦ elim (call_cases (begin_tx name) (λ t. t) s) [
    | inr (inl b) ↦ rw (there, b) (failed fs name _ s (later s) clean refl)
    | inr (inr b) ↦ rw (there, b) (failed fs name _ s (later s) clean refl)
    | inl b ↦ elim (stage_cases (apply_migration name) (ran body) (later s)) [
      | inr a ↦ rw (there, b, a) (failed fs name _ s (aborted (later s)) refl refl)
      | inl a ↦
          elim (stage_cases (record_migration name) (recorded name)
            (stage (ran body) (later (later s)))) [
              | inr r ↦ rw (there, b, a, r) (failed fs name _ s _ refl refl)
              | inl r ↦ elim (commit_cases (commit_migration name) (staged name body s)) [
                | inr (inl c) ↦ rw (there, b, a, r, c) (failed fs name _ s _ refl refl)
                | inl c ↦ rw (there, b, a, r, c) (kept fs name body _ s clean there)
                | inr (inr c) ↦ rw (there, b, a, r, c) (kept fs name body _ s clean there)
              ]
            ]
    ]
  ]
]

-- The files are gone through in order up to some point: each one before it has its row, and is there
-- once; at an error the rest is not.
pub record Through (fs : MigrationFs) (names : List String) (s : Schema)
    (x : Result MigrateError (Unit {0}) × Schema) : Type 0 where
  pub settled : x.1.pending ≡ []
  pub front : List String
  pub rest : List String
  pub split : missing s.done names ≡ front ++ rest
  pub done : x.1.done ≡ s.done ++ changes fs front
  pub all_done : x.0 ≡ ok tt → rest ≡ []
  pub rows : x.0 ≡ ok tt → missing x.1.done names ≡ []

is_recorded-append :
    (name : String) (done more : List Change)
    → is_recorded name (done ++ more) ≡ is_recorded name done || is_recorded name more
is_recorded-append name done more = exists-append (is_row name) done more

-- A file with another name is recorded as before.
is_recorded-other :
    (fs : MigrationFs) (f name : String) (done : List Change)
    → f == name ≡ false
    → is_recorded f (done ++ change_of (fs.read_file name) name) ≡ is_recorded f done
is_recorded-other fs f name done other =
    is_recorded-append f done (change_of (fs.read_file name) name) ∙ by_file (fs.read_file name)
  where
    by_file :
        (o : Option String)
        → is_recorded f done || is_recorded f (change_of o name) ≡ is_recorded f done
    by_file none = ground arith
    by_file (some body) = ground (arith, eq_iff f name, eq_iff name f)

missing-others :
    (fs : MigrationFs) (name : String) (done : List Change) (names : List String)
    → exists (λ f. f == name) names ≡ false
    → missing (done ++ change_of (fs.read_file name) name) names ≡ missing done names
missing-others fs name done [] h = refl
missing-others fs name done (f ∷ names) h =
    ground (arith, is_recorded-other fs f name done, missing-others fs name done names)

-- The check, and the file if its row is missing.
migrate_file-Through :
    (fs : MigrationFs) (name : String) (s : Schema)
    → s.pending ≡ []
    → Through fs (name ∷ []) s (migrate_file fs name s)
unfolding migrate_file ◌>>=◌
migrate_file-Through fs name s clean = elim (call_cases (check_migration name) (λ t. t) s) [
  | inr (inl c) ↦ rw c (stopped _)
  | inr (inr c) ↦ rw c (stopped _)
  | inl c ↦ rw c (elim (Bool-cases (is_recorded name s.done)) [
    | inl there ↦ rw there (record {
      settled = clean;
      front = [];
      rest = [];
      split = rw there refl;
      done = sym (append-nil s.done);
      all_done = λ _. refl;
      rows = λ _. rw there refl;
    })
    | inr new ↦
        rw new
          (applied new (apply_file fs name (later s)) (apply_file-Whole fs name (later s) clean))
  ])
]
  where
    stopped : (e : MigrateError) → Through fs (name ∷ []) s (err e, later s)
    stopped e = record {
      settled = clean;
      front = [];
      rest = missing s.done (name ∷ []);
      split = refl;
      done = sym (append-nil s.done);
      all_done = λ h. cc;
      rows = λ h. cc;
    }

    applied :
        is_recorded name s.done ≡ false
        → (x : Result MigrateError (Unit {0}) × Schema) → Whole fs name (later s) x
        → Through fs (name ∷ []) s x
    applied new x w = elim w.whole [
      | inl (same, bad) ↦ record {
        settled = w.settled;
        front = [];
        rest = name ∷ [];
        split = rw new refl;
        done = same ∙ sym (append-nil s.done);
        all_done = λ h. absurd (bad h);
        rows = λ h. absurd (bad h);
      }
      | inr there ↦ record {
        settled = w.settled;
        front = name ∷ [];
        rest = [];
        split = rw new refl;
        done =
            there ∙ ap (λ c. s.done ++ c) (sym (append-nil (change_of (fs.read_file name) name)));
        all_done = λ h. refl;
        rows = λ h. rw (w.row h) refl;
      }
    ]

changes-append :
    (fs : MigrationFs) (names more : List String)
    → changes fs (names ++ more) ≡ changes fs names ++ changes fs more
changes-append fs [] more = refl
changes-append fs (name ∷ names) more =
    ap (λ c. change_of (fs.read_file name) name ++ c) (changes-append fs names more)
    ∙ sym (append_assoc (change_of (fs.read_file name) name) (changes fs names) (changes fs more))

missing-cons :
    (done : List Change) (name : String) (names : List String)
    → missing done (name ∷ names) ≡ missing done (name ∷ []) ++ missing done names
missing-cons done name names = ground arith

-- A directory lists no name twice.
abbrev pub Distinct : List String → Type 0
Distinct [] = Unit {0}
Distinct (x ∷ xs) = (exists (λ f. f == x) xs ≡ false) × Distinct xs

missing_after :
    (fs : MigrationFs) (name : String) (done : List Change) (names : List String)
    → exists (λ f. f == name) names ≡ false
    → missing (done ++ changes fs (missing done (name ∷ []))) names ≡ missing done names
missing_after fs name done names other = elim (Bool-cases (is_recorded name done)) [
  | inl there ↦ rw (there, append-nil done) refl
  | inr new ↦
      rw (new, append-nil (change_of (fs.read_file name) name))
        (missing-others fs name done names other)
]

-- A row stays.
missing_later :
    (done more : List Change) (name : String)
    → missing done (name ∷ []) ≡ []
    → missing (done ++ more) (name ∷ []) ≡ []
missing_later done more name h = ground (arith, is_recorded-append name done more)

module _ (fs : MigrationFs) (name : String) (names : List String) (s : Schema) where
  stopped_at :
      (e : MigrateError) (t : Schema)
      → Through fs (name ∷ []) s (err e, t)
      → Through fs (name ∷ names) s (err e, t)
  stopped_at e t m = record {
    settled = m.settled;
    front = m.front;
    rest = m.rest ++ missing s.done names;
    split =
        missing-cons s.done name names
        ∙ ap (λ l. l ++ missing s.done names) m.split
        ∙ append_assoc m.front m.rest (missing s.done names);
    done = m.done;
    all_done = λ h. cc;
    rows = λ h. cc;
  }

  gone_on :
      (t : Schema) (x : Result MigrateError (Unit {0}) × Schema)
      → exists (λ f. f == name) names ≡ false
      → Through fs (name ∷ []) s (ok tt, t)
      → Through fs names t x
      → Through fs (name ∷ names) s x
  gone_on t x other m r = record {
    settled = r.settled;
    front = m.front ++ r.front;
    rest = r.rest;
    split =
        missing-cons s.done name names
        ∙ ap (λ l. l ++ missing s.done names) whole
        ∙ ap (λ l. m.front ++ l) (sym same ∙ r.split)
        ∙ sym (append_assoc m.front r.front r.rest);
    done =
        r.done
        ∙ ap (λ d. d ++ changes fs r.front) m.done
        ∙ append_assoc s.done (changes fs m.front) (changes fs r.front)
        ∙ ap (λ c. s.done ++ c) (sym (changes-append fs m.front r.front));
    all_done = r.all_done;
    rows = λ h.
        missing-cons x.1.done name names
        ∙ ap (λ l. l ++ missing x.1.done names)
            (ap (λ d. missing d (name ∷ [])) r.done
              ∙ missing_later t.done (changes fs r.front) name (m.rows refl))
        ∙ r.rows h;
  }
    where
      whole : missing s.done (name ∷ []) ≡ m.front
      whole = m.split ∙ ap (λ l. m.front ++ l) (m.all_done refl) ∙ append-nil m.front

      same : missing t.done names ≡ missing s.done names
      same =
          ap (λ d. missing d names) (m.done ∙ ap (λ l. s.done ++ changes fs l) (sym whole))
          ∙ missing_after fs name s.done names other

pub migrate_files-Through :
    (fs : MigrationFs) (names : List String) (s : Schema)
    → Distinct names
    → s.pending ≡ []
    → Through fs names s (migrate_files fs names s)
unfolding migrate_files ◌>>=◌
migrate_files-Through fs [] s d clean = record {
  settled = clean;
  front = [];
  rest = [];
  split = refl;
  done = sym (append-nil s.done);
  all_done = λ h. refl;
  rows = λ h. refl;
}
migrate_files-Through fs (name ∷ names) s d clean =
    by_file (migrate_file fs name s) (migrate_file-Through fs name s clean)
      (λ t. migrate_files-Through fs names t d.1)
  where
    by_file :
        (x : Result MigrateError (Unit {0}) × Schema)
        → Through fs (name ∷ []) s x
        → ((t : Schema) → t.pending ≡ [] → Through fs names t (migrate_files fs names t))
        → Through fs (name ∷ names) s (resume x.0 (λ _. migrate_files fs names) x.1)
    by_file (err e, t) m next = stopped_at fs name names s e t m
    by_file (ok u, t) m next = gone_on fs name names s t _ d.0 m (next t m.settled)
