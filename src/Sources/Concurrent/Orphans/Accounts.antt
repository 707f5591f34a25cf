-- ===== src/Sources/Concurrent/Orphans/Accounts.antt =====
-- The rows of the table and the uploads they belong to, over any order of the calls.
use sihkaromicro.Prelude.{
  ◌≤◌, ◌≡◌, refl, inl, inr, true, List, [], ◌∷◌, ◌++◌, arith, select, All, ==ℤ_iff, Bool-cases,
}
use sihkaromicro.Sources.Model.{Source}
use sihkaromicro.Sources.Spec.{TableView, RepositoryLaws}
use sihkaromicro.Sources.Ports.{Ports, World}
use sihkaromicro.Sources.Concurrent.Programs.{stop, call}
use sihkaromicro.Sources.Service.Upload.Atomic.{DeletesWhatIsThere}
use sihkaromicro.Sources.Concurrent.Requests.{
  Request, Thread, uploading, running, System, Step, turn, Reach, here, later, begin_all, started,
  advance,
}
use sihkaromicro.Sources.Concurrent.Programs.Mild.{
  IsMild, advance-IsMild, count-advance, All-IsMild, middle-IsMild, begin_all-IsMild,
}
use sihkaromicro.Sources.Concurrent.Keys.{
  Key, passes, either, never, opposite, holds_row, lost, held_by, listed, lost-wider,
}
use sihkaromicro.Sources.Concurrent.Orphans.{astray-next}

held_by-middle :
    {E : Ports} (xs ys : List (Thread E)) (t : Thread E) (r : Source)
    → passes (held_by (xs ++ t ∷ ys)) r ≡ passes (either (held_by (xs ++ ys)) (holds_row t)) r
unfolding held_by
held_by-middle [] ys t r = refl
held_by-middle (x ∷ xs) ys t r = ground (arith, held_by-middle xs ys t r)

listed-all :
    (k : Key) (rows : List Source)
    → ((r : Source) → passes (listed rows) r ≡ true → passes k r ≡ true)
    → lost k rows ≡ 0
unfolding listed select
listed-all k [] all = refl
listed-all k (x ∷ rows) all =
    let first = all x (ground (arith, ==ℤ_iff x.id x.id)) in
    let rest = listed-all k rows (λ r h. all r (ground arith)) in ground arith

All-passes : (k : Key) (rows : List Source) → lost k rows ≡ 0 → All (λ r. passes k r ≡ true) rows
unfolding select
All-passes k [] h = tt
All-passes k (x ∷ rows) h = elim (Bool-cases (passes k x)) [
  | inl found ↦ (found, All-passes k rows (ground arith))
  | inr gone ↦ absurd (ground arith)
]

module _ (E : Ports) (V : TableView E.repo.State) (L : RepositoryLaws E.repo V)
    (D : DeletesWhatIsThere E.repo V) (base : List Source) where
  abbrev known : System E → Key
  known s = either (listed base) (held_by s.threads)

  advance-lost :
      (others : Key) (t : Thread E) (w : World E)
      → IsMild E V t
      → let (t', w') = advance E t w in
        lost (either others (holds_row t')) (V.rows w'.rows)
        ≤ lost (either others (holds_row t)) (V.rows w.rows)
  unfolding advance
  advance-lost others (uploading ctx req p) w h = astray-next E V L D others ctx req p w
  advance-lost others (running (stop r)) w h = omega arith
  advance-lost others (running (call m k)) w h =
      count-advance E V (call m k) w (opposite (either others never)) h

  record IsKnown (s t : System E) : Type 1 where
    mild : All (IsMild E V) t.threads
    fewer : lost (known t) (V.rows t.world.rows) ≤ lost (known s) (V.rows s.world.rows)

  Step-IsKnown : {s t : System E} → Step E s t → All (IsMild E V) s.threads → IsKnown s t
  Step-IsKnown (turn before after t w) mild =
      let others = either (listed base) (held_by (before ++ after)) in
      let (t', w') = advance E t w in
      let this = middle-IsMild E V before after t mild in
      let one = advance-lost others t w this in
      let out =
        lost-wider (either (listed base) (held_by (before ++ t ∷ after)))
          (either others (holds_row t)) (V.rows w.rows)
          (λ r h. ground (arith, held_by-middle before after t r)) in
      let back =
        lost-wider (either others (holds_row t'))
          (either (listed base) (held_by (before ++ t' ∷ after))) (V.rows w'.rows)
          (λ r h. ground (arith, held_by-middle before after t' r)) in
      record {
        mild = All-IsMild E V before after t t' mild (advance-IsMild E V t w this);
        fewer = omega arith;
      }

  Reach-IsKnown : {s t : System E} → Reach E s t → All (IsMild E V) s.threads → IsKnown s t
  Reach-IsKnown here mild = record { mild = mild; fewer = omega arith }
  Reach-IsKnown (later r st) mild =
      let before = Reach-IsKnown r mild in
      let step = Step-IsKnown st before.mild in
      let fewer = before.fewer in
      let fewer' = step.fewer in record { mild = step.mild; fewer = omega arith }

-- Over a lawful repository, where under the background context a deletion fails only if there is
-- nothing to delete: when requests of the five kinds run at the same time, in whatever order their
-- calls come and whichever of the other calls fail, each row of the table has the id of a row that
-- was there when they started, or is the row of an upload that is still on its way, or has the id
-- that an upload has returned.
pub Reach-accounted :
    (E : Ports) (V : TableView E.repo.State)
    → RepositoryLaws E.repo V
    → DeletesWhatIsThere E.repo V
    → (rs : List Request) (w : World E) {t : System E} → Reach E (started E rs w) t
    → All
        (λ r. passes (either (listed (V.rows w.rows)) (held_by t.threads)) r ≡ true)
        (V.rows t.world.rows)
Reach-accounted E V L D rs w {t} r =
    let base = V.rows w.rows in
    let start =
      listed-all (either (listed base) (held_by (begin_all E rs))) base (λ x h. ground arith) in
    let kept = (Reach-IsKnown E V L D base r (begin_all-IsMild E V L rs)).fewer in
    All-passes (either (listed base) (held_by t.threads)) (V.rows t.world.rows) (omega arith)
