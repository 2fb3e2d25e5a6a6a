-- ===== src/Store/Migrate/Order.antt =====
-- The order of the files in server/internal/store/migrate.go: `sort.Strings` of the names in .sql.
use clawgard.Prelude.{
  subst, ℕ, ◌≡◌, refl, ◌∙◌, inl, inr, String, Bool, true, false, ◌||◌, List, [], ◌∷◌, arith, exists,
  keep, insert_by, order_by, codes, if◌then◌else◌, Bool-cases, ◌==◌, Comparable-String, eq_iff,
}
use clawgard.Store.Migrate.{codes_leb, string_leb, has_suffix, sql_files}
use clawgard.Store.Migrate.Applied.{Distinct}

codes_leb_total : (cs ds : List ℕ) → codes_leb cs ds ≡ false → codes_leb ds cs ≡ true
codes_leb_total [] ds h = cc
codes_leb_total (c ∷ cs) [] h = refl
codes_leb_total (c ∷ cs) (d ∷ ds) h = ground (arith, codes_leb_total cs ds)

-- Each name is at most the next one.
abbrev pub IsSorted : List String → Type 0
IsSorted [] = Unit {0}
IsSorted (x ∷ []) = Unit {0}
IsSorted (x ∷ y ∷ ys) = (string_leb x y ≡ true) × IsSorted (y ∷ ys)

insert_by-IsSorted :
    (x : String) (ys : List String) → IsSorted ys → IsSorted (insert_by string_leb x ys)
insert_by-IsSorted x [] h = tt
insert_by-IsSorted x (y ∷ ys) h = elim (Bool-cases (string_leb x y)) [
  | inl le ↦ rw le (le, h)
  | inr gt ↦ rw gt (behind gt ys h (insert_by-IsSorted x ys (tail ys h)))
]
  where
    tail : (zs : List String) → IsSorted (y ∷ zs) → IsSorted zs
    tail [] k = tt
    tail (z ∷ zs) k = k.1

    behind :
        string_leb x y ≡ false
        → (zs : List String) → IsSorted (y ∷ zs)
        → IsSorted (insert_by string_leb x zs)
        → IsSorted (y ∷ insert_by string_leb x zs)
    behind gt [] k i = (codes_leb_total (codes x) (codes y) gt, tt)
    behind gt (z ∷ zs) k i = elim (Bool-cases (string_leb x z)) [
      | inl le ↦ rw le (codes_leb_total (codes x) (codes y) gt, (le, k.1))
      | inr over ↦ rw over (
        k.0,
        subst (λ b. IsSorted (if b then x ∷ z ∷ zs else z ∷ insert_by string_leb x zs)) over i,
      )
    ]

order_by-IsSorted : (xs : List String) → IsSorted (order_by string_leb xs)
order_by-IsSorted [] = tt
order_by-IsSorted (x ∷ xs) = insert_by-IsSorted x (order_by string_leb xs) (order_by-IsSorted xs)

exists-insert_by :
    (p : String → Bool) (x : String) (ys : List String)
    → exists p (insert_by string_leb x ys) ≡ p x || exists p ys
exists-insert_by p x [] = refl
exists-insert_by p x (y ∷ ys) = ground (arith, exists-insert_by p x ys)

exists-order_by :
    (p : String → Bool) (xs : List String) → exists p (order_by string_leb xs) ≡ exists p xs
exists-order_by p [] = refl
exists-order_by p (x ∷ xs) =
    exists-insert_by p x (order_by string_leb xs) ∙ rw (exists-order_by p xs) refl

insert_by-Distinct :
    (x : String) (ys : List String)
    → exists (λ f. f == x) ys ≡ false
    → Distinct ys
    → Distinct (insert_by string_leb x ys)
insert_by-Distinct x [] h d = (refl, tt)
insert_by-Distinct x (y ∷ ys) h d = elim (Bool-cases (string_leb x y)) [
  | inl le ↦ rw le (h, d)
  | inr gt ↦ rw gt (
    exists-insert_by (λ f. f == y) x ys ∙ ground (arith, eq_iff x y, eq_iff y x, d.0),
    insert_by-Distinct x ys (ground arith) d.1,
  )
]

order_by-Distinct : (xs : List String) → Distinct xs → Distinct (order_by string_leb xs)
order_by-Distinct [] d = tt
order_by-Distinct (x ∷ xs) d =
    insert_by-Distinct x (order_by string_leb xs) (exists-order_by (λ f. f == x) xs ∙ d.0)
      (order_by-Distinct xs d.1)

exists_kept :
    (q p : String → Bool) (xs : List String) → exists p xs ≡ false → exists p (keep q xs) ≡ false
exists_kept q p [] h = refl
exists_kept q p (x ∷ xs) h = ground (arith, exists_kept q p xs)

keep-Distinct : (q : String → Bool) (xs : List String) → Distinct xs → Distinct (keep q xs)
keep-Distinct q [] d = tt
keep-Distinct q (x ∷ xs) d = elim (Bool-cases (q x)) [
  | inl hit ↦ rw hit (exists_kept q (λ f. f == x) xs d.0, keep-Distinct q xs d.1)
  | inr miss ↦ rw miss (keep-Distinct q xs d.1)
]

pub sql_files-Distinct : (entries : List String) → Distinct entries → Distinct (sql_files entries)
unfolding sql_files
sql_files-Distinct entries d =
    order_by-Distinct (keep (λ e. has_suffix e ".sql") entries)
      (keep-Distinct (λ e. has_suffix e ".sql") entries d)

pub sql_files-IsSorted : (entries : List String) → IsSorted (sql_files entries)
unfolding sql_files
sql_files-IsSorted entries = order_by-IsSorted (keep (λ e. has_suffix e ".sql") entries)
