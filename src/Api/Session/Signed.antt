-- ===== src/Api/Session/Signed.antt =====
-- What a session token of server/internal/api/session.go is good for.
use clawgard.Prelude.{
  ℕ, zero, suc, ◌+◌, ◌≤◌, ◌<◌, ◌≡◌, ◌≢◌, refl, ap, ◌∙◌, inl, inr, Option, none, some, List, [], ◌∷◌,
  ◌++◌, String, Bool, true, false, arith, ltb, ◌==◌, Comparable-ℕ, if◌then◌else◌, length, get_elem?,
  take, drop, All, length-append, same_bytes, nat_eq_iff, subst, Bool-cases,
}
use clawgard.Exec.{ok, err}
use clawgard.Api.Session.{
  session_expired, invalid_session, SessionPayload, Codec, IsEncoded, issued, dot, unix, last_dot,
  sign, opened, unexpired, verify,
}

zero-add : (n : ℕ) → 0 + n ≡ n
zero-add n = omega arith

suc-add : (m n : ℕ) → suc m + n ≡ suc (m + n)
suc-add m n = omega arith

add-suc : (m n : ℕ) → m + suc n ≡ suc (m + n)
add-suc m n = omega arith

get_elem?-append : (xs ys : List ℕ) (i : ℕ) → get_elem? (xs ++ ys) (length xs + i) ≡ get_elem? ys i
get_elem?-append [] ys i = rw (zero-add i) refl
get_elem?-append (x ∷ xs) ys i = rw (suc-add (length xs) i) (get_elem?-append xs ys i)

take-append : (xs ys : List ℕ) → take (length xs) (xs ++ ys) ≡ xs
take-append [] ys = refl
take-append (x ∷ xs) ys = ap (x ∷◌) (take-append xs ys)

drop-append : (xs : List ℕ) (y : ℕ) (ys : List ℕ) → drop (suc (length xs)) (xs ++ y ∷ ys) ≡ ys
drop-append [] y ys = refl
drop-append (x ∷ xs) y ys = drop-append xs y ys

same_bytes_refl : (xs : List ℕ) → same_bytes xs xs ≡ true
same_bytes_refl [] = refl
same_bytes_refl (x ∷ xs) = ground (arith, same_bytes_refl xs, nat_eq_iff x x)

same_bytes→eq : (xs ys : List ℕ) → same_bytes xs ys ≡ true → xs ≡ ys
same_bytes→eq [] [] h = refl
same_bytes→eq [] (y ∷ ys) h = cc
same_bytes→eq (x ∷ xs) [] h = cc
same_bytes→eq (x ∷ xs) (y ∷ ys) h = ground (arith, same_bytes→eq xs ys, nat_eq_iff x y)

-- Bytes without a dot are passed over.
get_elem?-no_dot :
    (xs : List ℕ) (i : ℕ)
    → All (λ b. b ≢ dot) xs
    → i < length xs
    → (b : ℕ) × (get_elem? xs i ≡ some b) × ((b == dot) ≡ false)
get_elem?-no_dot [] i h lt = absurd (omega arith)
get_elem?-no_dot (x ∷ xs) zero h lt = (x, refl, ground (arith, nat_eq_iff x dot, h.0))
get_elem?-no_dot (x ∷ xs) (suc i) h lt = get_elem?-no_dot xs i h.1 (omega arith)

last_dot-some :
    (token : List ℕ) (i b : ℕ)
    → get_elem? token i ≡ some b
    → last_dot token (suc i) ≡ (if b == dot then some i else last_dot token i)
unfolding last_dot
last_dot-some token i b e = rw (last_dot, e) refl

last_dot-passes :
    (enc mac : List ℕ) (i : ℕ)
    → All (λ b. b ≢ dot) mac
    → i ≤ length mac
    → last_dot (enc ++ dot ∷ mac) (length enc + suc i) ≡ some (length enc)
last_dot-passes enc mac zero h le = rw (add-suc (length enc) 0) (
    last_dot-some _ (length enc + 0) dot (get_elem?-append enc (dot ∷ mac) 0)
    ∙ ap some (omega arith))
last_dot-passes enc mac (suc i) h le =
    let (b, here, no_dot) = get_elem?-no_dot mac i h (omega arith) in
    rw (add-suc (length enc) (suc i)) (
      last_dot-some _ (length enc + suc i) b (get_elem?-append enc (dot ∷ mac) (suc i) ∙ here)
      ∙ rw no_dot (last_dot-passes enc mac i h (omega arith)))

module _ (c : Codec) where
  verify-some :
      (token : List ℕ) (now i : ℕ)
      → last_dot token (length token) ≡ some (suc i)
      → verify c token now ≡ unexpired c now (opened c (suc i) token)
  unfolding verify
  verify-some token now i e = rw (verify, e) refl

  opened-signed :
      (enc : List ℕ) (p : SessionPayload)
      → c.decode enc ≡ some p
      → opened c (length enc) (enc ++ dot ∷ c.mac enc) ≡ ok p
  unfolding opened
  opened-signed enc p e =
      rw
        (
          take-append enc (dot ∷ c.mac enc),
          drop-append enc dot (c.mac enc),
          same_bytes_refl (c.mac enc),
          e,
        )
        refl

  verify-signed :
      (enc : List ℕ) (p : SessionPayload) (now : ℕ)
      → enc ≢ []
      → All (λ b. b ≢ dot) (c.mac enc)
      → c.decode enc ≡ some p
      → verify c (enc ++ dot ∷ c.mac enc) now ≡ unexpired c now (ok p)
  verify-signed [] p now ne nd e = absurd (ne refl)
  verify-signed (x ∷ xs) p now ne nd e =
      verify-some _ now (length xs) (
        ap (last_dot (x ∷ xs ++ dot ∷ c.mac (x ∷ xs)))
          (length-append (x ∷ xs) (dot ∷ c.mac (x ∷ xs)))
        ∙ last_dot-passes (x ∷ xs) (c.mac (x ∷ xs)) (length (c.mac (x ∷ xs))) nd (omega arith))
      ∙ ap (unexpired c now) (opened-signed (x ∷ xs) p e)

-- A token that `Sign` made for an email is accepted for that email until the second of its expiry has
-- passed, and is refused as expired from then on.
pub sign-verify :
    (c : Codec) (email : String) (ttl now now' : ℕ)
    → IsEncoded c (issued email ttl now)
    → verify c (sign c email ttl now) now'
      ≡ (if ltb (unix (now + ttl)) (unix now') then err session_expired else ok email)
unfolding sign
sign-verify c email ttl now now' is =
    verify-signed c (c.encode (issued email ttl now)) (issued email ttl now) now' is.not_empty
      is.no_dot is.reads_back

last_dot-hits :
    (token : List ℕ) (n i : ℕ) → last_dot token n ≡ some i → get_elem? token i ≡ some dot
unfolding last_dot
last_dot-hits token zero i h = cc
last_dot-hits token (suc n) i h = by_byte (get_elem? token n) refl h (last_dot-hits token n i)
  where
    by_byte :
        (o : Option ℕ)
        → get_elem? token n ≡ o
        → (elim o [
          | none ↦ last_dot token n
          | some b ↦ if b == dot then some n else last_dot token n
        ])
          ≡ some i
        → (last_dot token n ≡ some i → get_elem? token i ≡ some dot)
        → get_elem? token i ≡ some dot
    by_byte none e h before = before h
    by_byte (some b) e h before = elim (Bool-cases (b == dot)) [
      | inl hit ↦
          subst (λ j. get_elem? token j ≡ some dot) (ground arith)
            (e ∙ ap some ((nat_eq_iff b dot).0 hit))
      | inr miss ↦ before (ground arith)
    ]

split_at :
    (token : List ℕ) (i b : ℕ)
    → get_elem? token i ≡ some b
    → token ≡ take i token ++ b ∷ drop (suc i) token
split_at [] i b h = cc
split_at (x ∷ xs) zero b h = ground arith
split_at (x ∷ xs) (suc i) b h = ap (x ∷◌) (split_at xs i b h)

-- Some text, a dot and that text's HMAC, where the text decodes to the email and an expiry that has not
-- passed.
abbrev pub Signed : Codec → List ℕ → ℕ → String → Type 0
Signed c token now email =
    (enc : List ℕ) × (p : SessionPayload) × (token ≡ enc ++ dot ∷ c.mac enc)
    × (c.decode enc ≡ some p)
    × (p.email ≡ email)
    × (unix now ≤ p.expires_at)

unexpired-ok :
    (c : Codec) (now : ℕ) (p : SessionPayload) (email : String)
    → unexpired c now (ok p) ≡ ok email
    → (p.email ≡ email) × (unix now ≤ p.expires_at)
unexpired-ok c now p email h = (ground arith, ground arith)

opened-Signed :
    (c : Codec) (token : List ℕ) (now : ℕ) (email : String) (i : ℕ)
    → get_elem? token i ≡ some dot
    → unexpired c now (opened c i token) ≡ ok email
    → Signed c token now email
unfolding opened
opened-Signed c token now email i at_dot h =
    by_mac (same_bytes (drop (suc i) token) (c.mac enc)) (c.decode enc) refl refl h
  where
    enc : List ℕ
    enc = take i token

    by_mac :
        (b : Bool) (o : Option SessionPayload)
        → same_bytes (drop (suc i) token) (c.mac enc) ≡ b
        → c.decode enc ≡ o
        → unexpired c now (
            if b
            then (elim o [ none ↦ err invalid_session | some p ↦ ok p ])
            else err invalid_session)
          ≡ ok email
        → Signed c token now email
    by_mac false o e d h = cc
    by_mac true none e d h = cc
    by_mac true (some p) e d h = (
      enc,
      p,
      split_at token i dot at_dot
          ∙ ap (λ t. enc ++ dot ∷ t) (same_bytes→eq (drop (suc i) token) (c.mac enc) e),
      d,
      (unexpired-ok c now p email h).0,
      (unexpired-ok c now p email h).1,
    )

-- A token is only accepted when it carries the signature of its own payload: it is some text, a dot
-- and that text's HMAC, the text decodes to the accepted email, and its expiry has not passed.
pub verify-Signed :
    (c : Codec) (token : List ℕ) (now : ℕ) (email : String)
    → verify c token now ≡ ok email
    → Signed c token now email
unfolding verify
verify-Signed c token now email h = by_dot (last_dot token (length token)) refl h
  where
    by_dot :
        (o : Option ℕ)
        → last_dot token (length token) ≡ o
        → (elim o [
          | none ↦ err invalid_session
          | some zero ↦ err invalid_session
          | some (suc i) ↦ unexpired c now (opened c (suc i) token)
        ])
          ≡ ok email
        → Signed c token now email
    by_dot none e h = cc
    by_dot (some zero) e h = cc
    by_dot (some (suc i)) e h =
        opened-Signed c token now email (suc i) (last_dot-hits token _ (suc i) e) h
