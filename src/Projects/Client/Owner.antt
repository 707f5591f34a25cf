-- ===== src/Projects/Client/Owner.antt =====
-- Access that the projects service grants to the sources service.
use sihkaromicro.Prelude.{
  ℤ, ◌≡◌, ap, sym, ◌∙◌, true, String, some, List, [], ◌∷◌, ◌++◌, inl, inr, arith, find,
  Option-cases,
}
use sihkaromicro.Runtime.Errors.{Result, ok, Result-cases}
use sihkaromicro.Runtime.Context.{Context, Metadata, values_of}
use sihkaromicro.Runtime.Text.{trim_prefix}
use sihkaromicro.Sources.Interceptor.{Claims, Verifier, with_user, must_user_id_from_ctx}
use sihkaromicro.Sources.Handler.Boundary.{IsUser, as_user, authorize_cases}
use sihkaromicro.Sources.Ports.{Ports, World}
use sihkaromicro.Sources.Spec.{TableView, RepositoryLaws}
use sihkaromicro.Sources.Service.{UploadSourceRequest, UploadSourceResult}
use sihkaromicro.Sources.Service.Upload.{upload_source}
use sihkaromicro.Sources.Service.Upload.Success.{upload_source-IsExtension}
use sihkaromicro.Projects.Model.{Project, CheckAccessResponse}
use sihkaromicro.Projects.Database.{Database, DatabaseLaws, chosen}
use sihkaromicro.Projects.Interceptor.{is_public, unary, serve}
use sihkaromicro.Projects.Handler.{check_access}
use sihkaromicro.Projects.Handler.Access.{check_access_method, check_access-has_access}
use sihkaromicro.Projects.Client.{
  Transport, arriving, check_access_over, stub, projects_client, connected,
}

-- A token that two verifiers accept, in any contexts, has one subject: its claims are in its text.
abbrev pub AgreeOnSubject : Verifier → Verifier → Type 0
AgreeOnSubject u v =
    (c c' : Context) (raw : String) (t : u.Token) (t' : v.Token) (claims claims' : Claims)
    → u.verify c raw ≡ ok t
    → v.verify c' raw ≡ ok t'
    → u.claims t ≡ ok claims
    → v.claims t' ≡ ok claims'
    → claims.sub ≡ claims'.sub

values_of-append :
    (key : String) (md headers : Metadata)
    → values_of key headers ≡ []
    → values_of key (md ++ headers) ≡ values_of key md
unfolding values_of
values_of-append key [] headers h = h
values_of-append key ((k, vs) ∷ md) headers h = ground (arith, values_of-append key md headers h)

module _ (v : Verifier) (D : Database) (ctx : Context) (project_id : ℤ) (s : D.State) where
  abbrev answer : Result CheckAccessResponse × D.State
  answer = serve v check_access_method (check_access D (record { project_id = project_id })) ctx s

  -- Only a user is answered.
  answer-IsUser :
      (res : CheckAccessResponse) → answer.0 ≡ ok res → (user_id : String) × IsUser v ctx user_id
  unfolding serve unary is_public check_access with_user must_user_id_from_ctx
  answer-IsUser res h = elim (authorize_cases v ctx) [
    | inl user ↦ user
    | inr (inl (m, refused)) ↦ absurd (ground arith)
    | inr (inr nameless) ↦ absurd (ground arith)
  ]

module _ (net : Transport) (v : Verifier) (D : Database) (rows : D.State → List Project)
    (L : DatabaseLaws D rows) (quiet : values_of "authorization" net.headers ≡ []) where
  -- The context that the server sees for a call made with this metadata.
  abbrev seen : Context → Metadata → Context
  seen ctx md = arriving net (record ctx { outgoing = some md })

  server_answer :
      (ctx : Context) (md : Metadata) (project_id : ℤ) (n : net.State) (s : D.State)
      → ctx.incoming ≡ some md
      → ((projects_client net v D).check_access ctx project_id (n, s)).0 ≡ ok true
      → (res : CheckAccessResponse) × ((answer v D (seen ctx md) project_id s).0 ≡ ok res)
        × (res.has_access ≡ true)
  unfolding check_access_over stub
  server_answer ctx md project_id n s incoming h =
      elim (Option-cases (net.failure (record ctx { outgoing = some md }) n).0) [
        | inr (e, failed) ↦ absurd (ground arith)
        | inl delivered ↦ elim (Result-cases (answer v D (seen ctx md) project_id s).0) [
          | inl (res, answered) ↦ (res, answered, ground arith)
          | inr (e, refused) ↦ absurd (ground arith)
        ]
      ]

  -- Over a lawful projects table, where the verifiers of the two services agree on the subject of a
  -- token and gRPC adds no authorization of its own: if the sources service, acting for a verified
  -- user, gets the answer true from the projects service, then that user owns the project in the
  -- projects table.
  pub check_access_over-owned :
      (u : Verifier) (ctx : Context) (user_id : String) (project_id : ℤ) (n : net.State)
      (s : D.State)
      → AgreeOnSubject u v
      → IsUser u ctx user_id
      → ((projects_client net v D).check_access (as_user u ctx user_id) project_id (n, s)).0
        ≡ ok true
      → (p : Project) × (find (chosen user_id project_id) (rows s) ≡ some p)
  check_access_over-owned u ctx user_id project_id n s agree user h =
      let c = as_user u ctx user_id in
      let (res, answered, granted) = server_answer c user.metadata project_id n s user.incoming h in
      let (owner, there) = answer-IsUser v D (seen c user.metadata) project_id s res answered in
      let kept = values_of-append "authorization" user.metadata net.headers quiet in
      let incoming : some (user.metadata ++ net.headers) ≡ some there.metadata = there.incoming in
      let metadata : there.metadata ≡ user.metadata ++ net.headers = cc in
      let values : there.value ∷ there.values ≡ user.value ∷ user.values =
        sym there.authorization
        ∙ ap (values_of "authorization") metadata
        ∙ kept
        ∙ user.authorization in
      let one_value : there.value ≡ user.value = cc in
      let claims_agree =
        agree ctx (seen c user.metadata) (trim_prefix user.value "Bearer ") user.token there.token
          user.claims there.claims user.verified (rw (← one_value) there.verified) user.claimed
          there.claimed in
      let same : owner ≡ user_id = there.named.0 ∙ sym claims_agree ∙ sym user.named.0 in
      let sound =
        check_access-has_access v D rows L (seen c user.metadata) project_id s owner res there
          answered in
      rw (← same) (sound.0.0 granted)

  -- Over lawful tables of projects and of sources, where the verifiers of the two services agree on
  -- the subject of a token and gRPC adds no authorization of its own: if an upload that the sources
  -- service makes for a verified user succeeds, then that user owns the project of the request in
  -- the projects table.
  pub upload_source-owned :
      (E : Ports) (V : TableView E.repo.State)
      → RepositoryLaws E.repo V
      → (u : Verifier) (ctx : Context) (user_id : String) (req : UploadSourceRequest)
        (w : World (connected net v D E)) (res : UploadSourceResult)
      → AgreeOnSubject u v
      → IsUser u ctx user_id
      → (upload_source (connected net v D E) (as_user u ctx user_id) req w).0 ≡ ok res
      → (p : Project) × (find (chosen user_id req.project_id) (rows w.peer.1) ≡ some p)
  upload_source-owned E V R u ctx user_id req w res agree user h =
      let added =
        upload_source-IsExtension (connected net v D E) V R (as_user u ctx user_id) req w res h in
      check_access_over-owned u ctx user_id req.project_id w.peer.0 w.peer.1 agree user added.0
