-- ===== src/Sources/Service/Retry.antt =====
-- What `RetryJob` does to the table and to the topics.
use sihkaromicro.Prelude.{
  ℕ, ℤ, ◌≡◌, ◌⊎◌, inl, inr, String, List, [], ◌∷◌, ◌++◌, some, arith, find, update, eq_iff,
  Bool-cases,
}
use sihkaromicro.Runtime.Errors.{Error, ok, err, Result-cases}
use sihkaromicro.Runtime.Context.{Context}
use sihkaromicro.Sources.Model.{Source, status_uploaded, status_pending, status_failed}
use sihkaromicro.Sources.Apperr.{unavailable}
use sihkaromicro.Sources.Events.{create_job_payload}
use sihkaromicro.Sources.Spec.{
  TableView, RepositoryLaws, ProducerLaws, Message, chosen, has_id, with_status,
}
use sihkaromicro.Sources.Ports.{Ports, World}
use sihkaromicro.Sources.Service.{
  check_project_access, publish_create_job, is_retryable, resubmit, retry_job,
}

-- The message that asks for the chunking of a source.
abbrev pub create_job_message : String → String → Source → Message
create_job_message job_id owner_id r = record {
  topic = "jobs.chunking";
  key = job_id;
  payload = create_job_payload (record {
    job_id = job_id;
    kind = "chunking";
    owner_id = owner_id;
    source_id = r.id;
    minio_path = r.minio_path;
    file_type = r.kind;
    source_url = r.source_url;
  });
}

module _ (E : Ports) (V : TableView E.repo.State) (L : RepositoryLaws E.repo V)
    (sent : E.producer.State → List Message) (K : ProducerLaws E.producer sent) (ctx : Context)
    (id project_id : ℤ) (owner_id : String) (w : World E) where
  -- A retried source `r`: the row of this id, project and owner, in a state that can be retried; one
  -- message is sent for it, and its row becomes pending with the job, unless that update fails.
  pub record IsRetried (job_id : String) (r : Source) (w' : World E) : Type 0 where
    pub found : find (chosen id project_id owner_id) (V.rows w.rows) ≡ some r
    pub retryable : (r.status ≡ status_uploaded) ⊎ (r.status ≡ status_failed)
    pub published : sent w'.topics ≡ sent w.topics ++ create_job_message job_id owner_id r ∷ []
    pub pending :
        ((now : ℕ) × (V.rows w'.rows
            ≡ update (has_id r.id) (with_status status_pending job_id now) (V.rows w.rows)))
        ⊎ ((e : Error) × ((E.repo.update_status ctx r.id status_pending job_id
                (E.repo.find ctx id project_id owner_id w.rows).1).0
              ≡ err e)
            × (V.rows w'.rows ≡ V.rows w.rows))

  -- What the call has made of the table when it asks for the row.
  retry_found :
      (r : Source) (job_id : String)
      → (E.repo.find ctx id project_id owner_id w.rows).0 ≡ ok r
      → (retry_job E ctx id project_id owner_id w).0 ≡ ok job_id
      → IsRetried job_id r (retry_job E ctx id project_id owner_id w).1
  unfolding retry_job check_project_access resubmit publish_create_job
  retry_found r job_id found done = record {
    found = L.find_sound ctx id project_id owner_id w.rows r found;
    retryable = ground (arith, eq_iff r.status status_uploaded, eq_iff r.status status_failed);
    published =
        let m = create_job_message job owner_id r in ground (arith, K.sent-publish ctx m w.topics);
    pending = elim (Result-cases (E.repo.update_status ctx r.id status_pending job s).0) [
      | inl (_, written) ↦ inl (
        V.now s,
        ground (
          arith,
          L.rows-find ctx id project_id owner_id w.rows,
          L.rows-update_status ctx r.id status_pending job s,
        ),
      )
      | inr (e, failed) ↦ inr (
        e,
        ground arith,
        ground (
          arith,
          L.rows-find ctx id project_id owner_id w.rows,
          L.rows-update_status ctx r.id status_pending job s,
        ),
      )
    ];
  }
    where
      job : String
      job = (E.uuid.new w.ids).0

      s : E.repo.State
      s = (E.repo.find ctx id project_id owner_id w.rows).1

  -- Over a lawful repository and producer, a retry that returns a job has retried a source: the row
  -- of this id, project and owner was uploaded or failed; exactly one message was sent, the one
  -- that asks for its chunking under the returned job; and the row is now pending with this job,
  -- or, where that update failed, the rows are as they were.
  pub retry_job-IsRetried :
      (job_id : String)
      → (retry_job E ctx id project_id owner_id w).0 ≡ ok job_id
      → (r : Source) × IsRetried job_id r (retry_job E ctx id project_id owner_id w).1
  retry_job-IsRetried job_id done =
      elim (Result-cases (E.repo.find ctx id project_id owner_id w.rows).0) [
        | inl (r, found) ↦ (r, retry_found r job_id found done)
        | inr (e, missing) ↦ unfold retry_job check_project_access in absurd (ground arith)
      ]

  -- What a retry that fails has sent: nothing, or, where the broker has accepted the message of a
  -- publish that failed, the message for the row of this id, project and owner, which can be retried.
  abbrev pub SentAtMost : Error → World E → Type 0
  SentAtMost e w' =
      (sent w'.topics ≡ sent w.topics)
      ⊎ ((r : Source) × (find (chosen id project_id owner_id) (V.rows w.rows) ≡ some r)
          × ((r.status ≡ status_uploaded) ⊎ (r.status ≡ status_failed))
          × (e ≡ unavailable "message broker")
          × (sent w'.topics
              ≡ sent w.topics ++ create_job_message (E.uuid.new w.ids).0 owner_id r ∷ []))

  -- What the call has sent when it asks for the row.
  sent_found :
      (r : Source) (e : Error)
      → (E.repo.find ctx id project_id owner_id w.rows).0 ≡ ok r
      → (retry_job E ctx id project_id owner_id w).0 ≡ err e
      → SentAtMost e (retry_job E ctx id project_id owner_id w).1
  unfolding retry_job check_project_access resubmit publish_create_job
  sent_found r e found failed =
      let m = create_job_message (E.uuid.new w.ids).0 owner_id r in
      elim (K.sent_at_most ctx m w.topics) [
        | inl none_sent ↦ inl (ground arith)
        | inr one_sent ↦ elim (Bool-cases (is_retryable r)) [
          | inr cannot ↦ inl (ground arith)
          | inl can ↦ elim (Result-cases (E.projects.check_access ctx project_id w.peer).0) [
            | inr (y, unknown) ↦ inl (ground arith)
            | inl (granted, asked) ↦ elim (Bool-cases granted) [
              | inr closed_to_user ↦ inl (ground arith)
              | inl open_to_user ↦ inr (
                r,
                L.find_sound ctx id project_id owner_id w.rows r found,
                ground (arith, eq_iff r.status status_uploaded, eq_iff r.status status_failed),
                ground arith,
                ground arith,
              )
            ]
          ]
        ]
      ]

  -- Over a lawful repository and producer, a retry that returns an error has changed no row and no
  -- object. It has sent no message; or it returns that the broker is unavailable, and the broker has
  -- the message for the row of this id, project and owner all the same, which was uploaded or failed.
  pub retry_job_err :
      (e : Error)
      → (retry_job E ctx id project_id owner_id w).0 ≡ err e
      → let w' = (retry_job E ctx id project_id owner_id w).1 in
        (V.rows w'.rows ≡ V.rows w.rows) × (w'.objects ≡ w.objects) × SentAtMost e w'
  unfolding retry_job check_project_access resubmit publish_create_job
  retry_job_err e failed = elim (Result-cases (E.repo.find ctx id project_id owner_id w.rows).0) [
    | inl (r, found) ↦ (
      ground (arith, L.rows-find ctx id project_id owner_id w.rows),
      ground arith,
      sent_found r e found failed,
    )
    | inr (x, missing) ↦ (
      ground (arith, L.rows-find ctx id project_id owner_id w.rows),
      ground arith,
      inl (ground arith),
    )
  ]
