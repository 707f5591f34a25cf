-- ===== src/Sources/Service/Upload/Complete.antt =====
-- What an upload does when every port answers.
use sihkaromicro.Prelude.{
  ℕ, ℤ, ◌<◌, ◌≡◌, ap, ◌∙◌, inl, inr, true, String, List, arith, length, select, str_eq,
  if◌then◌else◌, Bool-cases,
}
use sihkaromicro.Runtime.Errors.{ok}
use sihkaromicro.Runtime.Context.{Context}
use sihkaromicro.Runtime.Calls.{attempting, attempting-ok, deferring-true, Attempt}
use sihkaromicro.Sources.Model.{Source, SourceStatus, type_url, status_uploaded}
use sihkaromicro.Sources.Apperr.{unavailable}
use sihkaromicro.Sources.Spec.{TableView, RepositoryLaws, Message, owned}
use sihkaromicro.Sources.Ports.{Ports, World, on_rows, on_objects, on_peer}
use sihkaromicro.Sources.Service.{
  UploadSourceRequest, UploadSourceResult, max_sources_per_project, check_project_access,
  check_limits, publish_create_job,
}
use sihkaromicro.Sources.Service.Retry.{create_job_message}
use sihkaromicro.Sources.Rows.{IsExtension}
use sihkaromicro.Sources.Service.Upload.Success.{upload_source-IsExtension}
use sihkaromicro.Sources.Service.Upload.{
  new_source, submit, store, process, process_body, remove_object, remove_row, upload_saved,
  upload_source,
}

-- Every call of a port is answered without an error.
pub record AllAnswer (E : Ports) : Type 0 where
  pub grants :
      (ctx : Context) (project_id : ℤ) (s : E.projects.State)
      → (E.projects.check_access ctx project_id s).0 ≡ ok true
  pub counts :
      (ctx : Context) (project_id : ℤ) (owner_id : String) (s : E.repo.State)
      → (n : ℕ) × ((E.repo.count ctx project_id owner_id s).0 ≡ ok n)
  pub saves :
      (ctx : Context) (source : Source) (s : E.repo.State)
      → (r : Source) × ((E.repo.save ctx source s).0 ≡ ok r)
  pub marks :
      (ctx : Context) (id : ℤ) (status : SourceStatus) (job_id : String) (s : E.repo.State)
      → (E.repo.update_status ctx id status job_id s).0 ≡ ok tt
  pub links :
      (ctx : Context) (id : ℤ) (path : String) (s : E.repo.State)
      → (E.repo.update_minio_path ctx id path s).0 ≡ ok tt
  pub stores :
      (ctx : Context) (name : String) (bytes : List ℕ) (size : ℤ) (kind : String)
      (s : E.storage.State)
      → (E.storage.upload ctx name bytes size kind s).0 ≡ ok tt
  pub publishes :
      (ctx : Context) (topic key payload : String) (s : E.producer.State)
      → (E.producer.publish ctx topic key payload s).0 ≡ ok tt

module _ (E : Ports) (A : AllAnswer E) (ctx : Context) (req : UploadSourceRequest) where
  -- The object of the source, if it is a file.
  abbrev pub place : Source → String
  place source =
      if str_eq req.kind type_url
      then source.minio_path
      else E.storage.object_name req.owner_id source.id req.name

  abbrev pub placed : Source → Source
  placed source = record source { minio_path = place source }

  -- The message that asks for the chunking of the source.
  abbrev pub job_message : String → Source → Message
  job_message job_id source =
      create_job_message job_id req.owner_id
        (record source { kind = req.kind; source_url = req.source_url })

  -- A request that has ended well: the store holds the objects given, and the message is sent.
  record IsComplete (source : Source) (objects : E.storage.State) (w : World E)
      (x : Attempt UploadSourceResult × World E) : Type 0 where
    pub good : x.0.success ≡ true
    pub answer : x.0.result ≡ ok (record { source_id = source.id; job_id = (E.uuid.new w.ids).0 })
    pub kept : x.1.objects ≡ objects
    pub sent :
        let m = job_message (E.uuid.new w.ids).0 source in
        x.1.topics ≡ (E.producer.publish ctx m.topic m.key m.payload w.topics).1

  submit-IsComplete :
      (source : Source) (w : World E) → IsComplete source w.objects w (submit E ctx req source w)
  unfolding submit attempting publish_create_job
  submit-IsComplete source w =
      let m = job_message (E.uuid.new w.ids).0 source in
      let marked = A.marks ctx source.id status_uploaded "" w.rows in
      let published = A.publishes ctx m.topic m.key m.payload w.topics in
      record {
        good = ground arith;
        answer = ground arith;
        kept = ground arith;
        sent = ground arith;
      }

  abbrev at : Source → String → Source
  at source name = record source { minio_path = name }

  abbrev stored : String → World E → World E
  stored name w =
      (on_objects E (E.storage.upload ctx name req.reader req.size req.content_type) w).1

  abbrev linked : Source → String → World E → World E
  linked source name w = (on_rows E (E.repo.update_minio_path ctx source.id name) w).1

  abbrev object : Source → String
  object source = E.storage.object_name req.owner_id source.id req.name

  -- A file goes through the two calls before its submission.
  store-submit :
      (source : Source) (w : World E)
      → store E ctx req source w
        ≡ submit E ctx req
            (at source (object source))
            (linked source (object source) (stored (object source) w))
  unfolding store
  store-submit source w =
      let name = object source in
      let w₁ = stored name w in
      let inner =
        attempting-ok (on_rows E (E.repo.update_minio_path ctx source.id name))
          (unavailable "source repository") (λ _. submit E ctx req (at source name)) w₁
          (A.links ctx source.id name w₁.rows) in
      attempting-ok (on_objects E (E.storage.upload ctx name req.reader req.size req.content_type))
        (unavailable "storage") _ w
        (A.stores ctx name req.reader req.size req.content_type w.objects)
      ∙ deferring-true _ (remove_object E name) w₁ (
          ap (λ x. x.0.success) inner
          ∙ (submit-IsComplete (at source name) (linked source name w₁)).good)
      ∙ inner

  store-IsComplete :
      (source : Source) (w : World E)
      → IsComplete
          (at source (object source))
          (stored (object source) w).objects
          w
          (store E ctx req source w)
  store-IsComplete source w =
      let name = object source in
      let s = submit-IsComplete (at source name) (linked source name (stored name w)) in
      rw (store-submit source w)
        (record { good = s.good; answer = s.answer; kept = s.kept; sent = s.sent })

  -- The store after the request: a url has no object.
  abbrev pub kept_objects : Source → World E → E.storage.State
  kept_objects source w =
      if str_eq req.kind type_url then w.objects else (stored (place source) w).objects

  body-IsComplete :
      (source : Source) (w : World E)
      → IsComplete (placed source) (kept_objects source w) w (process_body E ctx req source w)
  body-IsComplete source w = elim (Bool-cases (str_eq req.kind type_url)) [
    | inl url ↦ rw url (submit-IsComplete source w)
    | inr file ↦ rw file (store-IsComplete source w)
  ]

  process-IsComplete :
      (source : Source) (w : World E)
      → IsComplete (placed source) (kept_objects source w) w (process E ctx req source w)
  unfolding process
  process-IsComplete source w =
      let s = body-IsComplete source w in
      rw (deferring-true (process_body E ctx req source) (remove_row E source) w s.good) s

  module _ (V : TableView E.repo.State) (L : RepositoryLaws E.repo V) where
    -- Over a lawful repository, where every port answers without an error and the projects service
    -- says yes, an upload into a project and owner with less than 20 rows returns a result: the id
    -- of one new row at the end of the table, of that project and owner, and a new job id. Then the
    -- bytes of a file are stored under the name of that row's object (a url stores nothing), and
    -- the message that asks for the job is published.
    pub upload_source-answers :
        (w : World E)
        → length (select (owned req.project_id req.owner_id) (V.rows w.rows))
          < max_sources_per_project
        → (source : Source) × let (r, after) = upload_source E ctx req w in
            let job_id = (E.uuid.new w.ids).0 in
            let m = job_message job_id (placed source) in
            (r ≡ ok (record { source_id = source.id; job_id = job_id }))
            × (after.objects ≡ kept_objects source w)
            × (after.topics ≡ (E.producer.publish ctx m.topic m.key m.payload w.topics).1)
            × IsExtension source.id req.project_id req.owner_id (V.rows w.rows) (V.rows after.rows)
    unfolding upload_source upload_saved check_project_access check_limits
    upload_source-answers w room =
        let w₁ = (on_peer E (E.projects.check_access ctx req.project_id) w).1 in
        let w₂ = (on_rows E (E.repo.count ctx req.project_id req.owner_id) w₁).1 in
        let w₃ = (on_rows E (E.repo.save ctx (new_source req)) w₂).1 in
        let granted = A.grants ctx req.project_id w.peer in
        let (n, known) = A.counts ctx req.project_id req.owner_id w.rows in
        let few = L.count_sound ctx req.project_id req.owner_id w.rows n known in
        let (source, new) = A.saves ctx (new_source req) w₂.rows in
        let c = process-IsComplete source w₃ in
        let (a, w') = process E ctx req source w₃ in
        let up : upload_source E ctx req w ≡ (a.result, w') = ground arith in
        let result : (upload_source E ctx req w).0
            ≡ ok (record { source_id = source.id; job_id = (E.uuid.new w.ids).0 }) =
          rw up c.answer in
        let (_, added, _) = upload_source-IsExtension E V L ctx req w _ result in
        let kept : IsExtension source.id req.project_id req.owner_id (V.rows w.rows)
            (V.rows w'.rows) =
          rw up at added in
        (source, rw up (c.answer, c.kept, c.sent, kept))
