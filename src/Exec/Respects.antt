-- ===== src/Exec/Respects.antt =====
-- What an action does to its state, as a relation that each of its atomic steps respects. The steps
-- are kept as a script, so that the steps of other actions can come between them.
pub mod Pool
use clawgard.Prelude.{◌≡◌, refl, ◌∙◌, Bool, true, false, if◌then◌else◌}
use clawgard.Exec.{Result, ok, err, Exec, pure, leave, reads, resume, ◌>>=◌, guard}

pub record IsPreorder {S : Type 0} (R : S → S → Type 0) : Type 0 where
  pub same : (s : S) → R s s
  pub next : (s t u : S) → R s t → R t u → R s u

-- An action as its atomic steps, each of which leads from any state to a related one.
pub data Script (E : Type 0) {S : Type 0} (R : S → S → Type 0) (A : Type 0) : Type 1 where
  finished : Result E A → Script E R A
  atomic :
      {X : Type 0} (m : Exec E S X)
      → ((s : S) → R s (m s).1)
      → (Result E X → Script E R A)
      → Script E R A

module _ {E S : Type 0} {R : S → S → Type 0} {A : Type 0} where
  -- All steps of a script, with none of another between them.
  unfoldable pub perform : Script E R A → Exec E S A
  perform (finished r) s = (r, s)
  perform (atomic m _ k) s = perform (k (m s).0) (m s).1

-- `m` is a script of steps that respect `R`.
pub record Respects {E S A : Type 0} (R : S → S → Type 0) (m : Exec E S A) : Type 1 where
  pub script : Script E R A
  pub means : (s : S) → perform script s ≡ m s

module _ {E S A : Type 0} {R : S → S → Type 0} where
  pub perform-at : (o : IsPreorder R) (p : Script E R A) (s : S) → R s (perform p s).1
  unfolding perform
  perform-at o (finished r) s = o.same s
  perform-at o (atomic m h k) s =
      o.next s (m s).1 (perform (k (m s).0) (m s).1).1 (h s) (perform-at o (k (m s).0) (m s).1)

  -- `m` leads from each state to one that is related to it, whether it returns early or not.
  pub Respects-at : IsPreorder R → {m : Exec E S A} → Respects R m → (s : S) → R s (m s).1
  Respects-at o h s = rw (← h.means s) (perform-at o h.script s)

  -- An action of one step.
  pub Respects-atom : (m : Exec E S A) → ((s : S) → R s (m s).1) → Respects R m
  unfolding perform
  Respects-atom m h = record { script = atomic m h (λ r. finished r); means = λ s. refl }

module _ {E S A B : Type 0} {R : S → S → Type 0} where
  -- A script, then another that its result chooses.
  pub chain : Script E R A → (Result E A → Script E R B) → Script E R B
  chain (finished r) f = f r
  chain (atomic m h k) f = atomic m h (λ r. chain (k r) f)

  pub perform-chain :
      (p : Script E R A) (f : Result E A → Script E R B) (s : S)
      → perform (chain p f) s ≡ perform (f (perform p s).0) (perform p s).1
  unfolding perform chain
  perform-chain (finished r) f s = refl
  perform-chain (atomic m h k) f s = perform-chain (k (m s).0) f (m s).1

  -- What follows an action reads its result, an error too.
  pub Respects-then :
      (m : Exec E S A) (after : Result E A → Exec E S B)
      → Respects R m
      → ((r : Result E A) → Respects R (after r))
      → Respects R (λ s. after (m s).0 (m s).1)
  Respects-then m after hm ha = record {
    script = chain hm.script (λ r. (ha r).script);
    means = λ s.
        perform-chain hm.script (λ r. (ha r).script) s
        ∙ rw (hm.means s) ((ha (m s).0).means (m s).1);
  }

module _ {E S : Type 0} (R : S → S → Type 0) where
  pub Respects-pure : {A : Type 0} (a : A) → Respects {E = E} R (pure a)
  unfolding perform
  Respects-pure a = record { script = finished (ok a); means = λ s. refl }

  pub Respects-leave : {A : Type 0} (e : E) → Respects {A = A} R (leave e)
  unfolding perform
  Respects-leave e = record { script = finished (err e); means = λ s. refl }

  pub Respects-guard : (b : Bool) (e : E) → Respects R (guard b e)
  Respects-guard true e = Respects-pure tt
  Respects-guard false e = Respects-leave e

  pub Respects-if :
      {A : Type 0} (b : Bool) (m n : Exec E S A)
      → Respects R m
      → Respects R n
      → Respects R (if b then m else n)
  Respects-if true m n hm hn = hm
  Respects-if false m n hm hn = hn

  Respects-resume :
      {A B : Type 0} (f : A → Exec E S B)
      → ((a : A) → Respects R (f a))
      → (r : Result E A) → Respects R (resume r f)
  Respects-resume f hf (ok a) = hf a
  Respects-resume f hf (err e) = Respects-leave e

  pub Respects-bind :
      {A B : Type 0} (m : Exec E S A) (f : A → Exec E S B)
      → Respects R m
      → ((a : A) → Respects R (f a))
      → Respects R (m >>= f)
  unfolding ◌>>=◌
  Respects-bind m f hm hf = Respects-then m (λ r. resume r f) hm (Respects-resume f hf)

-- A read of the state is a step of its own.
pub Respects-reads :
    {E S A : Type 0} (R : S → S → Type 0)
    → IsPreorder R
    → (f : S → A) → Respects {E = E} R (reads f)
Respects-reads R o f = Respects-atom (reads f) (λ s. o.same s)
