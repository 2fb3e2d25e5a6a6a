-- ===== src/Store/History/Lists.antt =====
-- Tables that only grow: rows stay in their place and change by a relation, new ones come behind.
use clawgard.Prelude.{
  ℕ, ◌≡◌, refl, ◌∙◌, ap, inl, inr, Bool, true, false, List, [], ◌∷◌, ◌++◌, arith, ◌==◌,
  Comparable-ℕ, nat_eq_iff, Bool-cases, exists, update_where, if◌then◌else◌, ◌||◌,
}

module _ {ℓ} {A : Type ℓ} where
  abbrev pub Grows : (A → A → Type 0) → List A → List A → Type 0
  Grows R [] ys = Unit {0}
  Grows R (x ∷ xs) [] = ⊥
  Grows R (x ∷ xs) (y ∷ ys) = R x y × Grows R xs ys

  pub Grows-refl : (R : A → A → Type 0) → ((x : A) → R x x) → (xs : List A) → Grows R xs xs
  Grows-refl R same [] = tt
  Grows-refl R same (x ∷ xs) = (same x, Grows-refl R same xs)

  pub Grows-trans :
      (R : A → A → Type 0)
      → ((x y z : A) → R x y → R y z → R x z)
      → (xs ys zs : List A) → Grows R xs ys
      → Grows R ys zs
      → Grows R xs zs
  Grows-trans R next [] ys zs h k = tt
  Grows-trans R next (x ∷ xs) [] zs h k = absurd h
  Grows-trans R next (x ∷ xs) (y ∷ ys) [] h k = absurd k
  Grows-trans R next (x ∷ xs) (y ∷ ys) (z ∷ zs) h k =
      (next x y z h.0 k.0, Grows-trans R next xs ys zs h.1 k.1)

  pub Grows-append :
      (R : A → A → Type 0) → ((x : A) → R x x) → (xs ys : List A) → Grows R xs (xs ++ ys)
  Grows-append R same [] ys = tt
  Grows-append R same (x ∷ xs) ys = (same x, Grows-append R same xs ys)

  pub Grows-update_where :
      (R : A → A → Type 0)
      → ((x : A) → R x x)
      → (p : A → Bool) (f : A → A) (xs : List A) → ((x : A) → p x ≡ true → R x (f x))
      → Grows R xs (update_where p f xs)
  Grows-update_where R same p f [] step = tt
  Grows-update_where R same p f (x ∷ xs) step = elim (Bool-cases (p x)) [
    | inl hit ↦ rw hit (step x hit, Grows-update_where R same p f xs step)
    | inr miss ↦ rw miss (same x, Grows-update_where R same p f xs step)
  ]

  -- A test that the relation keeps is kept by growth.
  pub exists-Grows :
      (R : A → A → Type 0) (p : A → Bool)
      → ((x y : A) → R x y → p y ≡ p x)
      → (xs ys : List A) → Grows R xs ys
      → exists p xs ≡ true
      → exists p ys ≡ true
  exists-Grows R p keeps [] ys h e = cc
  exists-Grows R p keeps (x ∷ xs) [] h e = absurd h
  exists-Grows R p keeps (x ∷ xs) (y ∷ ys) h e =
      ground (arith, keeps x y h.0, exists-Grows R p keeps xs ys h.1)

  pub exists-append :
      (p : A → Bool) (xs ys : List A) → exists p (xs ++ ys) ≡ exists p xs || exists p ys
  exists-append p [] ys = refl
  exists-append p (x ∷ xs) ys = ground (arith, exists-append p xs ys)

  pub exists-append_self :
      (p : A → Bool) (xs : List A) (a : A) → p a ≡ true → exists p (xs ++ a ∷ []) ≡ true
  exists-append_self p [] a h = ground arith
  exists-append_self p (x ∷ xs) a h = ground (arith, exists-append_self p xs a h)

  pub exists-update_where :
      (q p : A → Bool) (f : A → A) (xs : List A)
      → ((x : A) → q (f x) ≡ q x)
      → exists q (update_where p f xs) ≡ exists q xs
  exists-update_where q p f [] same = refl
  exists-update_where q p f (x ∷ xs) same =
      ground (arith, same x, exists-update_where q p f xs same)

  -- No two rows have the same key.
  abbrev pub UniqueIds : (A → ℕ) → List A → Type 0
  UniqueIds key [] = Unit {0}
  UniqueIds key (x ∷ xs) = (exists (λ y. key y == key x) xs ≡ false) × UniqueIds key xs

  pub UniqueIds-append :
      (key : A → ℕ) (xs : List A) (a : A)
      → UniqueIds key xs
      → exists (λ y. key y == key a) xs ≡ false
      → UniqueIds key (xs ++ a ∷ [])
  UniqueIds-append key [] a u e = (refl, tt)
  UniqueIds-append key (x ∷ xs) a u e = (
    ground (
      arith,
      exists-append (λ y. key y == key x) xs (a ∷ []),
      nat_eq_iff (key x) (key a),
      nat_eq_iff (key a) (key x),
    ),
    UniqueIds-append key xs a u.1 (ground arith),
  )

  same_key :
      (key : A → ℕ) (p : A → Bool) (f : A → A) (x : A)
      → key (f x) ≡ key x
      → key (if p x then f x else x) ≡ key x
  same_key key p f x same = ground arith

  pub UniqueIds-update_where :
      (key : A → ℕ) (p : A → Bool) (f : A → A) (xs : List A)
      → ((x : A) → key (f x) ≡ key x)
      → UniqueIds key xs
      → UniqueIds key (update_where p f xs)
  UniqueIds-update_where key p f [] same u = tt
  UniqueIds-update_where key p f (x ∷ xs) same u = (
    rw (same_key key p f x (same x)) (
        exists-update_where (λ y. key y == key x) p f xs (λ y. ap (λ k. k == key x) (same y))
        ∙ u.0),
    UniqueIds-update_where key p f xs same u.1,
  )
