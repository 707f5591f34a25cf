-- ===== src/Sources/Service/Deletion.antt =====
-- What `DeleteSource` does to the table, the topics and the objects.
use sihkaromicro.Prelude.{
  ℤ, ◌≡◌, ◌≢◌, ◌⊎◌, inl, inr, true, not, ◌&&◌, String, List, [], ◌∷◌, ◌++◌, some, arith, find,
  select, str_eq, eq_iff, Bool-cases,
}
use sihkaromicro.Runtime.Errors.{Error, ok, err, Result-cases}
use sihkaromicro.Runtime.Context.{Context, background}
use sihkaromicro.Sources.Model.{Source}
use sihkaromicro.Sources.Events.{cancel_job_payload}
use sihkaromicro.Sources.Spec.{
  TableView, RepositoryLaws, ProducerLaws, StorageLaws, ObjectView, Message, chosen,
}
use sihkaromicro.Sources.Ports.{Ports, World}
use sihkaromicro.Sources.Service.{
  check_project_access, publish_cancel_job, is_active, delete_rest, delete_source,
}

-- The message that cancels the job of a source.
abbrev pub cancel_job_message : String → Source → Message
cancel_job_message owner_id r = record {
  topic = "jobs.cancel";
  key = r.job_id;
  payload =
      cancel_job_payload (record { job_id = r.job_id; owner_id = owner_id; source_id = r.id });
}

-- The part after the row is deleted.
module _ (E : Ports) (ctx : Context) (owner_id : String) (r : Source) (w : World E) where
  result-delete_rest : (delete_rest E ctx owner_id r w).0 ≡ ok tt
  unfolding delete_rest publish_cancel_job
  result-delete_rest = ground arith

  rows-delete_rest : (delete_rest E ctx owner_id r w).1.rows ≡ w.rows
  unfolding delete_rest publish_cancel_job
  rows-delete_rest = ground arith

  sent-delete_rest :
      (sent : E.producer.State → List Message)
      → ProducerLaws E.producer sent
      → let w' = (delete_rest E ctx owner_id r w).1 in
        (sent w'.topics ≡ sent w.topics)
        ⊎ ((r.job_id ≢ "")
            × (is_active r ≡ true)
            × (sent w'.topics ≡ sent w.topics ++ cancel_job_message owner_id r ∷ []))
  unfolding delete_rest publish_cancel_job
  sent-delete_rest sent K =
      let m = cancel_job_message owner_id r in
      elim (Bool-cases (not (str_eq r.job_id "") && is_active r)) [
        | inl active ↦
            elim (Result-cases (E.producer.publish ctx m.topic m.key m.payload w.topics).0) [
              | inl (_, done) ↦ inr (
                ground (arith, eq_iff r.job_id ""),
                ground arith,
                ground (arith, K.sent-publish ctx m w.topics),
              )
              | inr (_, failed) ↦ elim (K.sent_at_most ctx m w.topics) [
                | inl none_sent ↦ inl (ground arith)
                | inr one_sent ↦
                    inr (ground (arith, eq_iff r.job_id ""), ground arith, ground arith)
              ]
            ]
        | inr idle ↦ inl (ground arith)
      ]

  object-delete_rest :
      (O : ObjectView E.storage.State)
      → StorageLaws E.storage O
      → (key : String) → key ≢ r.minio_path
      → O.object (delete_rest E ctx owner_id r w).1.objects key ≡ O.object w.objects key
  unfolding delete_rest publish_cancel_job
  object-delete_rest O M key other = elim (Bool-cases (str_eq r.minio_path "")) [
    | inl none_there ↦ ground arith
    | inr there ↦
        ground
          (arith, M.object-delete background r.minio_path w.objects key, eq_iff r.minio_path key)
  ]

module _ (E : Ports) (V : TableView E.repo.State) (L : RepositoryLaws E.repo V)
    (sent : E.producer.State → List Message) (K : ProducerLaws E.producer sent)
    (O : ObjectView E.storage.State) (M : StorageLaws E.storage O) (ctx : Context)
    (id project_id : ℤ) (owner_id : String) (w : World E) where
  -- A deleted source `r`: the row of this id, project and owner. Its row is gone, and only rows of
  -- this id, project and owner are. At most one message is sent, which cancels its job, and only if
  -- it has one that is active. No object but its own is deleted.
  pub record IsDeleted (r : Source) (w' : World E) : Type 0 where
    pub found : find (chosen id project_id owner_id) (V.rows w.rows) ≡ some r
    pub gone : V.rows w'.rows ≡ select (λ x. not (chosen id project_id owner_id x)) (V.rows w.rows)
    pub cancelled :
        (sent w'.topics ≡ sent w.topics)
        ⊎ ((r.job_id ≢ "")
            × (is_active r ≡ true)
            × (sent w'.topics ≡ sent w.topics ++ cancel_job_message owner_id r ∷ []))
    pub kept :
        (key : String) → key ≢ r.minio_path → O.object w'.objects key ≡ O.object w.objects key

  -- The world after the row is found and deleted.
  abbrev after : World E
  after = record w {
    peer = (E.projects.check_access ctx project_id w.peer).1;
    rows =
        (E.repo.delete ctx id project_id owner_id
          (E.repo.find ctx id project_id owner_id w.rows).1).1;
  }

  deleted_step :
      (r : Source)
      → (E.repo.find ctx id project_id owner_id w.rows).0 ≡ ok r
      → (delete_source E ctx id project_id owner_id w).0 ≡ ok tt
      → ((delete_source E ctx id project_id owner_id w).1 ≡ (delete_rest E ctx owner_id r after).1)
        × (V.rows after.rows ≡ select (λ x. not (chosen id project_id owner_id x)) (V.rows w.rows))
  unfolding delete_source check_project_access
  deleted_step r found done = (
    ground (arith, found),
    ground (
      arith,
      L.rows-find ctx id project_id owner_id w.rows,
      L.rows-delete ctx id project_id owner_id (E.repo.find ctx id project_id owner_id w.rows).1,
    ),
  )

  IsDeleted-found :
      (r : Source)
      → (E.repo.find ctx id project_id owner_id w.rows).0 ≡ ok r
      → (delete_source E ctx id project_id owner_id w).0 ≡ ok tt
      → IsDeleted r (delete_source E ctx id project_id owner_id w).1
  IsDeleted-found r found done =
      let (step, rows) = deleted_step r found done in
      rw step (record {
        found = L.find_sound ctx id project_id owner_id w.rows r found;
        gone = rw (rows-delete_rest E ctx owner_id r after) rows;
        cancelled = sent-delete_rest E ctx owner_id r after sent K;
        kept = object-delete_rest E ctx owner_id r after O M;
      })

  -- Over a lawful repository, producer and store, a deletion that succeeds has deleted a source:
  -- its row was there and is gone, with no row of another id, project or owner; at most one message
  -- was sent, which cancels its job, and only if it has an active one; and the objects under other
  -- names than its own are as they were.
  pub delete_source-IsDeleted :
      (delete_source E ctx id project_id owner_id w).0 ≡ ok tt
      → (r : Source) × IsDeleted r (delete_source E ctx id project_id owner_id w).1
  delete_source-IsDeleted done =
      elim (Result-cases (E.repo.find ctx id project_id owner_id w.rows).0) [
        | inl (r, found) ↦ (r, IsDeleted-found r found done)
        | inr (e, missing) ↦ unfold delete_source check_project_access in absurd (ground arith)
      ]

  -- Over a lawful repository, a deletion that returns an error has changed no row, no object and no
  -- topic.
  pub delete_source_err :
      (e : Error)
      → (delete_source E ctx id project_id owner_id w).0 ≡ err e
      → let w' = (delete_source E ctx id project_id owner_id w).1 in
        (V.rows w'.rows ≡ V.rows w.rows) × (w'.topics ≡ w.topics) × (w'.objects ≡ w.objects)
  unfolding delete_source check_project_access
  delete_source_err e failed =
      elim (Result-cases (E.repo.find ctx id project_id owner_id w.rows).0) [
        | inl (r, found) ↦ ground (
          arith,
          result-delete_rest E ctx owner_id r after,
          L.rows-find ctx id project_id owner_id w.rows,
          L.rows-delete ctx id project_id owner_id
              (E.repo.find ctx id project_id owner_id w.rows).1,
        )
        | inr (x, missing) ↦ ground (arith, L.rows-find ctx id project_id owner_id w.rows)
      ]
