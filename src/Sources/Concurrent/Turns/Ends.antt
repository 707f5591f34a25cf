-- ===== src/Sources/Concurrent/Turns/Ends.antt =====
-- Every request ends, whatever other requests do between its calls.
use sihkaromicro.Prelude.{
  ℕ, zero, suc, ◌+◌, ◌≤◌, ℤ, ◌≡◌, Bool, true, false, String, List, length, if◌then◌else◌, arith,
}
use sihkaromicro.Runtime.Errors.{Result, ok, err, sentinel, err_permission_denied}
use sihkaromicro.Runtime.Context.{Context}
use sihkaromicro.Runtime.Calls.{replace_err}
use sihkaromicro.Sources.Model.{Source}
use sihkaromicro.Sources.Apperr.{unavailable}
use sihkaromicro.Sources.Ports.{Ports, World, on_rows}
use sihkaromicro.Sources.Service.{SourceDetail}
use sihkaromicro.Sources.Concurrent.{asking}
use sihkaromicro.Sources.Concurrent.Programs.{
  Program, stop, ◌>>=◌, check_access, sign_all, get_source, list_sources, delete_source, retry_job,
  invoke, ◌>>◌,
}
use sihkaromicro.Sources.Concurrent.Requests.{
  Request, upload, get, delete, retry, list, running, begin, advance,
}
use sihkaromicro.Sources.Concurrent.Turns.{
  is_ended, turns, upload_ends, Within, program_ends, few_ends,
}
use sihkaromicro.Sources.Concurrent.Turns.Methods.{
  Within-sign_all, Within-get_source, Within-delete_source, Within-retry_job,
}

module _ (E : Ports) where
  -- The rows that a list of sources has found.
  abbrev found : Result (List Source) → ℕ
  found (ok sources) = length sources
  found (err _) = 0

  Within-found :
      (ctx : Context) (r : Result (List Source))
      → Within (stop r >>= λ sources. sign_all E ctx sources) (found r)
  unfolding Within ◌>>=◌
  Within-found ctx (ok sources) = Within-sign_all E ctx sources
  Within-found ctx (err e) = tt

  -- A list of sources, from the answer of the projects service on.
  abbrev granted : Result Bool → Program E (Unit {0})
  granted access = do
    has_access ← stop (replace_err access (unavailable "projects service"))
    if has_access then stop (ok tt) else stop (err (sentinel err_permission_denied))

  abbrev listing : Context → ℤ → String → Result Bool → Program E (List SourceDetail)
  listing ctx p owner access = do
    granted access
    sources ← invoke (on_rows E (E.repo.find_all ctx p owner))
    sign_all E ctx sources

  listing_ends :
      (ctx : Context) (p : ℤ) (owner : String) (access : Result Bool) (worlds : ℕ → World E) (n : ℕ)
      → found (E.repo.find_all ctx p owner (worlds 0).rows).0 ≤ n
      → is_ended (turns (running (listing ctx p owner access)) worlds (suc n)) ≡ true
  unfolding turns advance ◌>>=◌ Within
  listing_ends ctx p owner (ok true) worlds n h =
      let r = (E.repo.find_all ctx p owner (worlds 0).rows).0 in
      few_ends (stop r >>= λ sources. sign_all E ctx sources) (λ i. worlds (suc i)) (found r) n
        (Within-found ctx r) h
  listing_ends ctx p owner (ok false) worlds n h =
      program_ends (stop (err (sentinel err_permission_denied))) worlds (suc n) tt
  listing_ends ctx p owner (err e) worlds n h =
      program_ends (stop (err (unavailable "projects service"))) worlds (suc n) tt

  -- The calls that are enough for a request. That of a list of sources signs each row it has found.
  abbrev pub calls : Request → (ℕ → World E) → ℕ
  calls (upload ctx req) worlds = 9
  calls (get ctx id p owner) worlds = 3
  calls (delete ctx id p owner) worlds = 5
  calls (retry ctx id p owner) worlds = 5
  calls (list ctx p owner) worlds = 2 + found (E.repo.find_all ctx p owner (worlds 1).rows).0

  -- A request of any kind has ended once it has made so many calls, whatever state of the ports each
  -- of its calls meets: 9 for an upload, 3 to get a source, 5 to delete one or to retry its job, and
  -- 2 and one for each source that it finds for a list.
  pub begin_ends :
      (r : Request) (worlds : ℕ → World E) (n : ℕ)
      → calls r worlds ≤ n
      → is_ended (turns (begin E r) worlds n) ≡ true
  unfolding begin turns advance list_sources check_access ◌>>=◌
  begin_ends (upload ctx req) worlds n h = upload_ends ctx req asking worlds n h
  begin_ends (get ctx id p owner) worlds n h =
      few_ends (get_source E ctx id p owner) worlds 3 n (Within-get_source E ctx id p owner) h
  begin_ends (delete ctx id p owner) worlds n h =
      few_ends (delete_source E ctx id p owner) worlds 5 n (Within-delete_source E ctx id p owner) h
  begin_ends (retry ctx id p owner) worlds n h =
      few_ends (retry_job E ctx id p owner) worlds 5 n (Within-retry_job E ctx id p owner) h
  begin_ends (list ctx p owner) worlds zero h = absurd (omega arith)
  begin_ends (list ctx p owner) worlds (suc zero) h = absurd (omega arith)
  begin_ends (list ctx p owner) worlds (suc (suc n)) h =
      listing_ends ctx p owner (E.projects.check_access ctx p (worlds 0).peer).0
        (λ i. worlds (suc i)) n (omega arith)
