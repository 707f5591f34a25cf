-- ===== src/Sources/Handler/Served.antt =====
-- The five operations behind the interceptors.
use sihkaromicro.Prelude.{ℕ, ℤ, ◌≡◌, ap, ◌∙◌, true, String, List, map, some, inl, inr, arith, find}
use sihkaromicro.Runtime.Errors.{status, Code, Result, ok, err, Result-cases}
use sihkaromicro.Sources.Spec.{TableView, RepositoryLaws, chosen}
use sihkaromicro.Sources.Service.Reading.{get_source-owned}
use sihkaromicro.Runtime.Context.{Context}
use sihkaromicro.Sources.Proto.{SourceResponse}
use sihkaromicro.Sources.Model.{Source, to_proto}
use sihkaromicro.Sources.Interceptor.{Verifier, serve}
use sihkaromicro.Sources.Ports.{Ports, World}
use sihkaromicro.Sources.Service
use sihkaromicro.Sources.Service.Upload
use sihkaromicro.Sources.Handler.Chunks.{Event}
use sihkaromicro.Sources.Handler.Boundary.{IsUser, as_user, reply, serve-user, serve-stranger}
use sihkaromicro.Sources.Handler.{
  upload_source, retry_job, get_source, list_sources, delete_source, read_upload, detail_to_proto,
  respond, uploaded, submit,
}

module _ (v : Verifier) (E : Ports) (detect : List ℕ → String) (ctx : Context) (w : World E) where
  -- The request is refused for lack of a user, and nothing has changed.
  abbrev pub IsUnauthenticated : {A : Type 0} → Result A × World E → Type 0
  IsUnauthenticated r = (m : String) × (r ≡ (err (status Code.unauthenticated m), w))

  -- Where the context carries no token that the verifier accepts for a user with a name, each of the
  -- five operations answers Unauthenticated and changes nothing, whatever is asked.
  pub stranger-IsUnauthenticated :
      ((user_id : String) → ¬ IsUser v ctx user_id)
      → (events : List Event) (id project_id : ℤ)
      → IsUnauthenticated (serve v (upload_source E detect events) ctx w)
        × IsUnauthenticated
            (serve v (retry_job E (record { source_id = id; project_id = project_id })) ctx w)
        × IsUnauthenticated
            (serve v (get_source E (record { id = id; project_id = project_id })) ctx w)
        × IsUnauthenticated (serve v (list_sources E (record { project_id = project_id })) ctx w)
        × IsUnauthenticated
            (serve v (delete_source E (record { id = id; project_id = project_id })) ctx w)
  unfolding upload_source retry_job get_source list_sources delete_source
  stranger-IsUnauthenticated h events id project_id = (
    serve-stranger v ctx _ w h,
    serve-stranger v ctx _ w h,
    serve-stranger v ctx _ w h,
    serve-stranger v ctx _ w h,
    serve-stranger v ctx _ w h,
  )

  -- The answer to a call of the service: its value as a response, its error as a status.
  abbrev pub answered : {A B : Type 0} → (A → B) → Result A × World E → Result B × World E
  answered f r = reply (respond f r.0, r.1)

  -- For a context with an accepted token of a user with a name, and a stream that is read as a
  -- request of this user, each of the five operations is the one of the service with this user as
  -- the owner, its value as a response and its error mapped to a status.
  pub user-IsServed :
      (user_id : String)
      → IsUser v ctx user_id
      → (events : List Event) (req : Service.UploadSourceRequest) (id project_id : ℤ)
      → read_upload detect user_id events ≡ ok req
      → let c = as_user v ctx user_id in
        (serve v (upload_source E detect events) ctx w
          ≡ answered uploaded (Upload.upload_source E c req w))
        × (serve v (retry_job E (record { source_id = id; project_id = project_id })) ctx w
            ≡ answered (λ j. record { job_id = j }) (Service.retry_job E c id project_id user_id w))
        × (serve v (get_source E (record { id = id; project_id = project_id })) ctx w
            ≡ answered
                (λ d. record { source = detail_to_proto d })
                (Service.get_source E c id project_id user_id w))
        × (serve v (list_sources E (record { project_id = project_id })) ctx w
            ≡ answered
                (λ ds. record { sources = map detail_to_proto ds })
                (Service.list_sources E c project_id user_id w))
        × (serve v (delete_source E (record { id = id; project_id = project_id })) ctx w
            ≡ answered
                (λ _. record { success = true })
                (Service.delete_source E c id project_id user_id w))
  unfolding upload_source retry_job get_source list_sources delete_source
  user-IsServed user_id u events req id project_id read = (
    serve-user v ctx _ w user_id u ∙ ap (λ r. reply (submit E (as_user v ctx user_id) r w)) read,
    serve-user v ctx _ w user_id u,
    serve-user v ctx _ w user_id u,
    serve-user v ctx _ w user_id u,
    serve-user v ctx _ w user_id u,
  )

  -- Over a lawful repository, a source that is shown to a verified user is a row of the table with
  -- the id and project that were asked for and this user as the owner, with any url.
  pub get_source-IsShown :
      (V : TableView E.repo.State)
      → RepositoryLaws E.repo V
      → (user_id : String) → IsUser v ctx user_id
      → (id project_id : ℤ) (response : SourceResponse)
      → (serve v (get_source E (record { id = id; project_id = project_id })) ctx w).0 ≡ ok response
      → (r : Source) × (find (chosen id project_id user_id) (V.rows w.rows) ≡ some r)
        × (response.source ≡ record (to_proto r) { url = response.source.url })
  unfolding get_source
  get_source-IsShown V L user_id u id project_id response h =
      let c = as_user v ctx user_id in
      let served : serve v (get_source E (record { id = id; project_id = project_id })) ctx w
          ≡ answered (λ d. record { source = detail_to_proto d })
              (Service.get_source E c id project_id user_id w) =
        serve-user v ctx _ w user_id u in
      elim (Result-cases (Service.get_source E c id project_id user_id w).0) [
        | inl (d, shown) ↦ (
          d.source,
          (get_source-owned E c V L id project_id user_id w d shown).0,
          ground (arith, served),
        )
        | inr (e, failed) ↦ absurd (ground (arith, served))
      ]
