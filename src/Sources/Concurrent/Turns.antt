-- ===== src/Sources/Concurrent/Turns.antt =====
-- A request that makes its calls in any states: an upload makes at most nine, and a program as many as
-- its longest branch.
pub mod Methods
pub mod Ends
use sihkaromicro.Prelude.{
  ℕ, zero, suc, ◌+◌, ◌-◌, ◌≤◌, ◌≡◌, refl, Bool, true, false, arith, none, some,
}
use sihkaromicro.Runtime.Errors.{Result, ok, err}
use sihkaromicro.Runtime.Context.{Context}
use sihkaromicro.Sources.Ports.{Ports, World}
use sihkaromicro.Sources.Service.{UploadSourceRequest}
use sihkaromicro.Sources.Concurrent.{
  Phase, asking, counting, saving, storing, linking, marking, naming, publishing, waiting, dropping,
  deleting, ended, next,
}
use sihkaromicro.Sources.Concurrent.Programs.{Program, stop, call, ◌>>=◌}
use sihkaromicro.Sources.Concurrent.Requests.{Thread, uploading, running, advance}

-- The calls that an upload may still make.
abbrev left : Phase → ℕ
left asking = 9
left counting = 8
left saving = 7
left (storing _) = 6
left (linking _ _) = 5
left (marking _ _) = 4
left (naming _) = 3
left (publishing _ _) = 2
left (waiting _ _) = 1
left (dropping _ _ _) = 2
left (deleting _ _) = 1
left (ended _) = 0

abbrev finished : Phase → Bool
finished (ended r) = true
finished _ = false

left_none : (p : Phase) → left p ≤ 0 → finished p ≡ true
left_none asking h = absurd (omega arith)
left_none counting h = absurd (omega arith)
left_none saving h = absurd (omega arith)
left_none (storing source) h = absurd (omega arith)
left_none (linking source name) h = absurd (omega arith)
left_none (marking source name) h = absurd (omega arith)
left_none (naming source) h = absurd (omega arith)
left_none (publishing source job_id) h = absurd (omega arith)
left_none (waiting source job_id) h = absurd (omega arith)
left_none (dropping source name e) h = absurd (omega arith)
left_none (deleting source e) h = absurd (omega arith)
left_none (ended r) h = refl

module _ {E : Ports} where
  abbrev pub is_ended : Thread E → Bool
  is_ended (uploading ctx req p) = finished p
  is_ended (running (stop r)) = true
  is_ended (running (call m k)) = false

  -- A request after some calls, the i-th of which meets the state `worlds i`.
  unfoldable pub turns : Thread E → (ℕ → World E) → ℕ → Thread E
  turns t worlds zero = t
  turns t worlds (suc n) = turns (advance E t (worlds 0)).0 (λ i. worlds (suc i)) n

  left_next :
      (ctx : Context) (req : UploadSourceRequest) (p : Phase) (w : World E)
      → left (next E ctx req p w).0 ≤ left p - 1
  unfolding next
  left_next ctx req asking w = ground arith
  left_next ctx req counting w = ground arith
  left_next ctx req saving w = ground arith
  left_next ctx req (storing source) w = ground arith
  left_next ctx req (linking source name) w = ground arith
  left_next ctx req (marking source none) w = ground arith
  left_next ctx req (marking source (some name)) w = ground arith
  left_next ctx req (naming source) w = ground arith
  left_next ctx req (publishing source job_id) w = ground arith
  left_next ctx req (waiting source job_id) w = ground arith
  left_next ctx req (dropping source name e) w = ground arith
  left_next ctx req (deleting source e) w = ground arith
  left_next ctx req (ended r) w = ground arith

  pub upload_ends :
      (ctx : Context) (req : UploadSourceRequest) (p : Phase) (worlds : ℕ → World E) (n : ℕ)
      → left p ≤ n
      → is_ended (turns (uploading ctx req p) worlds n) ≡ true
  unfolding turns advance
  upload_ends ctx req p worlds zero h = left_none p h
  upload_ends ctx req p worlds (suc n) h =
      let less = left_next ctx req p (worlds 0) in
      upload_ends ctx req (next E ctx req p (worlds 0)).0 (λ i. worlds (suc i)) n (omega arith)

  -- A program that makes at most so many calls.
  unfoldable pub Within : {A : Type 0} → Program E A → ℕ → Type 0
  Within (stop r) n = Unit
  Within (call m k) zero = ⊥
  Within (call {X} m k) (suc n) = (r : Result X) → Within (k r) n

  pub program_ends :
      {A : Type 0} (p : Program E A) (worlds : ℕ → World E) (n : ℕ)
      → Within p n
      → is_ended (turns (running p) worlds n) ≡ true
  unfolding turns advance Within
  program_ends (stop r) worlds zero h = refl
  program_ends (stop r) worlds (suc n) h = program_ends (stop r) (λ i. worlds (suc i)) n tt
  program_ends (call m k) worlds zero h = absurd h
  program_ends (call m k) worlds (suc n) h =
      program_ends (k (m (worlds 0)).0) (λ i. worlds (suc i)) n (h (m (worlds 0)).0)

  pub Within-more : {A : Type 0} (p : Program E A) (n m : ℕ) → n ≤ m → Within p n → Within p m
  unfolding Within
  Within-more (stop r) n m le h = tt
  Within-more (call f k) zero m le h = absurd h
  Within-more (call f k) (suc n) zero le h = absurd (omega arith)
  Within-more (call f k) (suc n) (suc m) le h = λ r. Within-more (k r) n m (omega arith) (h r)

  pub few_ends :
      {A : Type 0} (p : Program E A) (worlds : ℕ → World E) (few n : ℕ)
      → Within p few
      → few ≤ n
      → is_ended (turns (running p) worlds n) ≡ true
  few_ends p worlds few n h le = program_ends p worlds n (Within-more p few n le h)

  pub Within-bind :
      {A B : Type 0} (p : Program E A) (f : A → Program E B) (n m total : ℕ)
      → Within p n
      → ((a : A) → Within (f a) m)
      → n + m ≤ total
      → Within (p >>= f) total
  unfolding Within ◌>>=◌
  Within-bind (stop (ok a)) f n m total h rest le = Within-more (f a) m total (omega arith) (rest a)
  Within-bind (stop (err e)) f n m total h rest le = tt
  Within-bind (call g k) f zero m total h rest le = absurd h
  Within-bind (call g k) f (suc n) m zero h rest le = absurd (omega arith)
  Within-bind (call g k) f (suc n) m (suc total) h rest le =
      λ r. Within-bind (k r) f n m total (h r) rest (omega arith)
