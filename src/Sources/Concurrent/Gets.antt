-- ===== src/Sources/Concurrent/Gets.antt =====
-- What a request does in a number of calls of its own.
use sihkaromicro.Prelude.{ℕ, ◌≤◌, zero, suc, ◌≡◌, refl, ◌∙◌, ap, ◌⊎◌, inl, inr, true, arith}
use sihkaromicro.Runtime.Errors.{Error}
use sihkaromicro.Runtime.Context.{Context}
use sihkaromicro.Runtime.Calls.{Attempt, deferring, failed, deferring-true, deferring-false}
use sihkaromicro.Sources.Ports.{Ports, World}
use sihkaromicro.Sources.Service.{UploadSourceRequest, UploadSourceResult}
use sihkaromicro.Sources.Concurrent.{Phase, undo, ended, next, steps}

module _ (E : Ports) (ctx : Context) (req : UploadSourceRequest) where
  -- After at most `k` calls of its own a request has come from one phase to another.
  pub record Gets (k : ℕ) (p : Phase) (w : World E) (q : Phase) (w' : World E) : Type 0 where
    pub calls : ℕ
    pub few : calls ≤ k
    pub run : steps E ctx req calls p w ≡ (q, w')

  pub Gets-here : (p : Phase) (w : World E) → Gets 0 p w p w
  unfolding steps
  Gets-here p w = record { calls = 0; few = omega arith; run = refl }

  pub Gets-more :
      {k n : ℕ} {p q : Phase} {w w' : World E} → k ≤ n → Gets k p w q w' → Gets n p w q w'
  Gets-more h g = let few = g.few in record { calls = g.calls; few = omega arith; run = g.run }

  pub Gets-next :
      {k : ℕ} (p : Phase) {p' q : Phase} (w : World E) {w₁ w' : World E}
      → next E ctx req p w ≡ (p', w₁)
      → Gets k p' w₁ q w'
      → Gets (suc k) p w q w'
  unfolding steps
  Gets-next p w h g =
      let few = g.few in
      record {
        calls = suc g.calls;
        few = omega arith;
        run = ap (λ (x : Phase × World E). steps E ctx req g.calls x.0 x.1) h ∙ g.run;
      }

  steps-suc :
      (n : ℕ) (p : Phase) (w : World E)
      → steps E ctx req (suc n) p w
        ≡ next E ctx req (steps E ctx req n p w).0 (steps E ctx req n p w).1
  unfolding steps
  steps-suc zero p w = refl
  steps-suc (suc n) p w = steps-suc n (next E ctx req p w).0 (next E ctx req p w).1

  pub Gets-last :
      {k : ℕ} {p q q' : Phase} {w w₁ w' : World E}
      → Gets k p w q w₁
      → next E ctx req q w₁ ≡ (q', w')
      → Gets (suc k) p w q' w'
  Gets-last {p} {w} g h =
      let few = g.few in
      record {
        calls = suc g.calls;
        few = omega arith;
        run =
            steps-suc g.calls p w ∙ ap (λ (x : Phase × World E). next E ctx req x.0 x.1) g.run ∙ h;
      }

  -- From a phase a request does what a body does: in at most `k` calls it ends with its result,
  -- or, where the body fails, in at most `j` it comes to the phase that undoes what was done before.
  abbrev pub Does :
      ℕ → ℕ → Phase → World E → Attempt UploadSourceResult × World E → (Error → Phase) → Type 0
  Does k j p w x undoing =
      ((x.0.success ≡ true) × Gets k p w (ended x.0.result) x.1)
      ⊎ ((e : Error) × (x.0 ≡ failed e) × Gets j p w (undoing e) x.1)

  pub Does-next :
      {k j : ℕ} (p : Phase) {p' : Phase} (w : World E) {w₁ : World E}
      {x : Attempt UploadSourceResult × World E} {undoing : Error → Phase}
      → next E ctx req p w ≡ (p', w₁)
      → Does k j p' w₁ x undoing
      → Does (suc k) (suc j) p w x undoing
  Does-next p w h (inl (good, g)) = inl (good, Gets-next p w h g)
  Does-next p w h (inr (e, bad, g)) = inr (e, bad, Gets-next p w h g)

  -- A deferred clean-up is one call more where the body fails.
  pub Does-deferring :
      {k j : ℕ} {p : Phase} {w : World E} {undoing undoing' : Error → Phase}
      (body : World E → Attempt UploadSourceResult × World E) (cleanup : World E → World E)
      → ((e : Error) (w₁ : World E) → next E ctx req (undoing e) w₁ ≡ (undoing' e, cleanup w₁))
      → Does k j p w (body w) undoing
      → Does k (suc j) p w (deferring body cleanup w) undoing'
  Does-deferring {w} body cleanup undo (inl (good, g)) =
      rw (deferring-true body cleanup w good) (inl (good, g))
  Does-deferring {w} body cleanup undo (inr (e, bad, g)) =
      rw (deferring-false body cleanup w (ap (λ a. a.success) bad))
        (inr (e, bad, Gets-last g (undo e (body w).1)))
