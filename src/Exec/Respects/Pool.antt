-- ===== src/Exec/Respects/Pool.antt =====
-- Actions in flight over one state: a scheduler picks which of them takes its next atomic step.
use clawgard.Prelude.{ℕ, ◌≡◌, refl, ◌∙◌, ap, List, [], ◌∷◌, ◌++◌, map, zero, suc}
use clawgard.Exec.{ok, Exec}
use clawgard.Exec.Respects.{
  IsPreorder, Script, finished, atomic, perform, chain, perform-chain, perform-at, Respects,
}

module _ {E S : Type 0} {R : S → S → Type 0} {A : Type 0} where
  -- The next step of an action; one that has finished stays as it is.
  pub turn : Script E R A → S → Script E R A × S
  turn (finished r) s = (finished r, s)
  turn (atomic m h k) s = (k (m s).0, (m s).1)

  -- An index that names no action changes nothing.
  pub pick : ℕ → List (Script E R A) → S → List (Script E R A) × S
  pick i [] s = ([], s)
  pick zero (p ∷ ps) s = ((turn p s).0 ∷ ps, (turn p s).1)
  pick (suc i) (p ∷ ps) s = (p ∷ (pick i ps s).0, (pick i ps s).1)

  unfoldable pub interleave : List ℕ → List (Script E R A) → S → List (Script E R A) × S
  interleave [] ps s = (ps, s)
  interleave (i ∷ is) ps s = interleave is (pick i ps s).0 (pick i ps s).1

  turn-at : IsPreorder R → (p : Script E R A) (s : S) → R s (turn p s).1
  unfolding turn
  turn-at o (finished r) s = o.same s
  turn-at o (atomic m h k) s = h s

  pick-at : IsPreorder R → (i : ℕ) (ps : List (Script E R A)) (s : S) → R s (pick i ps s).1
  unfolding pick
  pick-at o i [] s = o.same s
  pick-at o zero (p ∷ ps) s = turn-at o p s
  pick-at o (suc i) (p ∷ ps) s = pick-at o i ps s

  -- However the steps fall, the last state is related to the first.
  pub interleave-at :
      IsPreorder R → (is : List ℕ) (ps : List (Script E R A)) (s : S) → R s (interleave is ps s).1
  unfolding interleave
  interleave-at o [] ps s = o.same s
  interleave-at o (i ∷ is) ps s =
      let (ps', s') = pick i ps s in
      o.next s s' (interleave is ps' s').1 (pick-at o i ps s) (interleave-at o is ps' s')

  interleave-append :
      (is js : List ℕ) (ps : List (Script E R A)) (s : S)
      → interleave (is ++ js) ps s ≡ interleave js (interleave is ps s).0 (interleave is ps s).1
  unfolding interleave
  interleave-append [] js ps s = refl
  interleave-append (i ∷ is) js ps s = interleave-append is js (pick i ps s).0 (pick i ps s).1

  interleave-map-suc :
      (is : List ℕ) (p : Script E R A) (ps : List (Script E R A)) (s : S)
      → interleave (map suc is) (p ∷ ps) s ≡ (p ∷ (interleave is ps s).0, (interleave is ps s).1)
  unfolding interleave pick
  interleave-map-suc [] p ps s = refl
  interleave-map-suc (i ∷ is) p ps s = interleave-map-suc is p (pick i ps s).0 (pick i ps s).1

  -- The first action to its end, with no step of another.
  alone :
      (p : Script E R A) (ps : List (Script E R A)) (s : S)
      → (is : List ℕ) × (interleave is (p ∷ ps) s
          ≡ (finished (perform p s).0 ∷ ps, (perform p s).1))
  unfolding interleave pick turn perform
  alone (finished r) ps s = ([], refl)
  alone (atomic m h k) ps s = let (is, e) = alone (k (m s).0) ps (m s).1 in (0 ∷ is, e)

  -- One after another.
  unfoldable pub in_turn : List (Script E R A) → S → S
  in_turn [] s = s
  in_turn (p ∷ ps) s = in_turn ps (perform p s).1

  -- To run the actions one after another is one of the schedules.
  pub serial :
      (ps : List (Script E R A)) (s : S) → (is : List ℕ) × ((interleave is ps s).1 ≡ in_turn ps s)
  unfolding interleave in_turn
  serial [] s = ([], refl)
  serial (p ∷ ps) s =
      let (is, e) = alone p ps s in
      let (js, d) = serial ps (perform p s).1 in
      (
        is ++ map suc js,
        ap (λ x. x.1) (interleave-append is (map suc js) (p ∷ ps) s)
            ∙ rw (e, interleave-map-suc js (finished (perform p s).0) ps (perform p s).1) d,
      )

-- A change of the state as a script.
pub record Runs (E : Type 0) {S : Type 0} (R : S → S → Type 0) (f : S → S) : Type 1 where
  pub script : Script E R (Unit {0})
  pub means : (s : S) → (perform script s).1 ≡ f s

-- What an action does to the state, its result dropped.
pub Respects-Runs :
    {E S A : Type 0} {R : S → S → Type 0} (m : Exec E S A) → Respects R m → Runs E R (λ s. (m s).1)
unfolding perform
Respects-Runs m h = record {
  script = chain h.script (λ r. finished (ok tt));
  means = λ s.
      ap (λ x. x.1) (perform-chain h.script (λ r. finished (ok tt)) s) ∙ ap (λ x. x.1) (h.means s);
}

pub Runs-at :
    {E S : Type 0} {R : S → S → Type 0} {f : S → S}
    → IsPreorder R
    → Runs E R f
    → (s : S) → R s (f s)
Runs-at o h s = rw (← h.means s) (perform-at o h.script s)
