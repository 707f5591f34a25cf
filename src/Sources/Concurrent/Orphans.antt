-- ===== src/Sources/Concurrent/Orphans.antt =====
-- Which request a row of the table belongs to, when uploads run at the same time.
pub mod Accounts
use sihkaromicro.Prelude.{
  ℕ, ℤ, ◌≤◌, ◌≡◌, refl, inl, inr, true, false, not, String, none, some, List, [], ◌∷◌, ◌++◌, arith,
  length, leb, select, update, find, All, ◌==ℤ◌, str_eq, if◌then◌else◌, eq_iff, ==ℤ_iff, Bool-cases,
}
use sihkaromicro.Runtime.Errors.{ok, Result-cases}
use sihkaromicro.Runtime.Context.{Context, background}
use sihkaromicro.Sources.Model.{Source, SourceStatus, type_url, status_uploaded, status_pending}
use sihkaromicro.Sources.Spec.{TableView, RepositoryLaws, has_id, with_status, with_minio_path}
use sihkaromicro.Sources.Ports.{Ports, World}
use sihkaromicro.Sources.Service.{UploadSourceRequest, max_sources_per_project, publish_create_job}
use sihkaromicro.Sources.Service.Upload.{new_source}
use sihkaromicro.Sources.Service.Upload.Atomic.{DeletesWhatIsThere}
use sihkaromicro.Sources.Concurrent.{
  Phase, asking, counting, saving, storing, linking, marking, naming, publishing, waiting, dropping,
  deleting, ended, sent_job, next,
}
use sihkaromicro.Sources.Concurrent.Counting.{length-select-update}
use sihkaromicro.Sources.Concurrent.Keys.{
  Key, passes, either, never, row_of, holds, lost, lost-wider, lost-added, lost-deleted,
  lost-missing, lost-sent,
}

module _ (E : Ports) (V : TableView E.repo.State) (L : RepositoryLaws E.repo V)
    (D : DeletesWhatIsThere E.repo V) (k : Key) where
  abbrev astray : Phase → World E → ℕ
  astray p w = lost (either k (holds p)) (V.rows w.rows)

  lost_status :
      (h : Key) (ctx : Context) (id : ℤ) (status : SourceStatus) (job_id : String)
      (s : E.repo.State)
      → lost h (V.rows (E.repo.update_status ctx id status job_id s).1) ≡ lost h (V.rows s)
  lost_status h ctx id status job_id s = ground (
    arith,
    L.rows-update_status ctx id status job_id s,
    length-select-update (λ r. not (passes h r)) (has_id id) (with_status status job_id (V.now s))
        (V.rows s) (λ r. refl),
  )

  lost_path :
      (h : Key) (ctx : Context) (id : ℤ) (path : String) (s : E.repo.State)
      → lost h (V.rows (E.repo.update_minio_path ctx id path s).1) ≡ lost h (V.rows s)
  lost_path h ctx id path s = ground (
    arith,
    L.rows-update_minio_path ctx id path s,
    length-select-update (λ r. not (passes h r)) (has_id id) (with_minio_path path (V.now s))
        (V.rows s) (λ r. refl),
  )

  lost_delete :
      (s : Source) (w : E.repo.State)
      → lost k (V.rows (E.repo.delete background s.id s.project_id s.owner_id w).1)
        ≤ lost (either k (row_of s)) (V.rows w)
  lost_delete s w =
      elim (Result-cases (E.repo.delete background s.id s.project_id s.owner_id w).0) [
        | inl (u, done) ↦
            rw (L.rows-delete background s.id s.project_id s.owner_id w, done)
              (lost-deleted k s (V.rows w))
        | inr (e, failed) ↦
            rw (L.rows-delete background s.id s.project_id s.owner_id w, failed)
              (lost-missing k s (V.rows w) (D s.id s.project_id s.owner_id w e failed))
      ]

  lost_save :
      (ctx : Context) (source r : Source) (s : E.repo.State)
      → (E.repo.save ctx source s).0 ≡ ok r
      → lost (either k (row_of r)) (V.rows (E.repo.save ctx source s).1)
        ≤ lost (either k never) (V.rows s)
  lost_save ctx source r s new = rw (L.rows-save ctx source s, new) (lost-added k r (V.rows s))

  module _ (ctx : Context) (req : UploadSourceRequest) where
    -- One call of a request leaves no more rows astray than there were.
    pub astray-next :
        (p : Phase) (w : World E) → let (p', w') = next E ctx req p w in astray p' w' ≤ astray p w
    unfolding next publish_create_job
    astray-next asking w =
        elim (Result-cases (E.projects.check_access ctx req.project_id w.peer).0) [
          | inl (true, granted) ↦ rw granted (omega arith)
          | inl (false, denied) ↦ rw denied (omega arith)
          | inr (e, failed) ↦ rw failed (omega arith)
        ]
    astray-next counting w =
        let same = L.rows-count ctx req.project_id req.owner_id w.rows in
        elim (Result-cases (E.repo.count ctx req.project_id req.owner_id w.rows).0) [
          | inr (e, failed) ↦ rw (failed, same) (omega arith)
          | inl (n, known) ↦ elim (Bool-cases (leb max_sources_per_project n)) [
            | inl full ↦ rw (known, same, full) (omega arith)
            | inr room ↦ rw (known, same, room) (omega arith)
          ]
        ]
    astray-next saving w = elim (Result-cases (E.repo.save ctx (new_source req) w.rows).0) [
      | inr (e, failed) ↦ rw (failed, L.rows-save ctx (new_source req) w.rows, failed) (omega arith)
      | inl (r, new) ↦ elim (Bool-cases (str_eq req.kind type_url)) [
        | inl url ↦ rw (new, url) (lost_save ctx (new_source req) r w.rows new)
        | inr file ↦ rw (new, file) (lost_save ctx (new_source req) r w.rows new)
      ]
    ]
    astray-next (storing source) w =
        elim (Result-cases
          (E.storage.upload ctx (E.storage.object_name req.owner_id source.id req.name) req.reader
            req.size req.content_type w.objects).0) [
              | inl (u, put) ↦ rw put (omega arith)
              | inr (e, failed) ↦ rw failed (omega arith)
            ]
    astray-next (linking source name) w =
        let same = lost_path (either k (row_of source)) ctx source.id name w.rows in
        elim (Result-cases (E.repo.update_minio_path ctx source.id name w.rows).0) [
          | inl (u, set) ↦ rw set (omega arith)
          | inr (e, failed) ↦ rw failed (omega arith)
        ]
    astray-next (marking source none) w =
        let same = lost_status (either k (row_of source)) ctx source.id status_uploaded "" w.rows in
        elim (Result-cases (E.repo.update_status ctx source.id status_uploaded "" w.rows).0) [
          | inl (u, set) ↦ rw set (omega arith)
          | inr (e, failed) ↦ rw failed (omega arith)
        ]
    astray-next (marking source (some name)) w =
        let same = lost_status (either k (row_of source)) ctx source.id status_uploaded "" w.rows in
        elim (Result-cases (E.repo.update_status ctx source.id status_uploaded "" w.rows).0) [
          | inl (u, set) ↦ rw set (omega arith)
          | inr (e, failed) ↦ rw failed (omega arith)
        ]
    astray-next (naming source) w = omega arith
    astray-next (publishing source job_id) w = lost-sent k source job_id _ (V.rows w.rows)
    astray-next (waiting source job_id) w =
        let same =
          lost_status (either k (row_of source)) ctx source.id status_pending job_id w.rows in
        let answered =
          lost-wider (either k (row_of source))
            (either k (holds (ended (ok (record { source_id = source.id; job_id = job_id })))))
            (V.rows (E.repo.update_status ctx source.id status_pending job_id w.rows).1)
            (λ r h. ground arith) in
        omega arith
    astray-next (dropping source name e) w = omega arith
    astray-next (deleting source e) w =
        let gone = lost_delete source w.rows in
        let answered =
          lost-wider k (either k never)
            (V.rows (E.repo.delete background source.id source.project_id source.owner_id w.rows).1)
            (λ r h. ground arith) in
        omega arith
    astray-next (ended r) w = omega arith
