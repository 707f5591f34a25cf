-- ===== src/Tests/Service.antt =====
-- The operations of the service over the ports in memory.
use mathlib.Core.List.{Perm}
use sihkaromicro.Prelude.{
  arith, String, List, ◌++◌, inr, pos, ◌≡◌, ◌≢◌, refl, true, false, Bool, some, [], ◌∷◌, find,
  select, update,
}
use sihkaromicro.Runtime.Errors.{plain, Result, ok, err, sentinel, error_is, err_permission_denied}
use sihkaromicro.Runtime.Decimal.{show_ℕ}
use sihkaromicro.Runtime.Context.{background}
use sihkaromicro.Sources.Model.{Source, type_pdf}
use sihkaromicro.Sources.Apperr.{not_found, unavailable, from_gorm_error}
use sihkaromicro.Sources.Spec.{Message, ProducerLaws, owned, chosen, RepositoryLaws}
use sihkaromicro.Sources.Ports.{Ports, World, MessageProducer}
use sihkaromicro.Sources.Repository.{
  source_repository, find_by_project_id_and_owner_id, find_all_by_project_id_and_owner_id,
  update_status_by_source_id, delete_by_project_id_and_owner_id,
}
use sihkaromicro.Sources.Repository.Laws.{source_repository-RepositoryLaws}
use sihkaromicro.Sources.Service.{
  SourceDetail, check_project_access, publish_create_job, publish_cancel_job, sign, sign_all,
  get_source, list_sources, delete_rest, delete_source, resubmit, retry_job,
}
use sihkaromicro.Sources.Service.Upload.{upload_source}
use sihkaromicro.Sources.Service.Refusal.{IsRefused, no_access-IsRefused}
use sihkaromicro.Sources.Service.Reading.{get_source-owned, list_sources-owned}
use sihkaromicro.Sources.Service.Retry.{
  IsRetried, SentAtMost, create_job_message, retry_job-IsRetried, retry_job_err,
}
use sihkaromicro.Sources.Service.Deletion.{IsDeleted, delete_source-IsDeleted, delete_source_err}
use sihkaromicro.Tests.Memory.{
  ports, bucket, start, table, table_view, table-DatabaseLaws, repo_laws, topic_log-ProducerLaws,
  object_view, bucket-StorageLaws,
}
use sihkaromicro.Tests.Upload.{request}

abbrev pub row : Source
row = record {
  id = pos 1;
  project_id = pos 5;
  owner_id = "ann";
  name = "a.pdf";
  kind = type_pdf;
  status = "failed";
  size = pos 3;
  minio_path = "ann/a.pdf";
  job_id = "job-9";
  error = "";
  source_url = "";
  created_at = 7;
  updated_at = 7;
}

abbrev pub stored : World (ports bucket true)
stored = record (start true) { rows = row ∷ []; objects = ("ann/a.pdf", 1 ∷ 2 ∷ 3 ∷ []) ∷ [] }

abbrev detail : SourceDetail
detail = record { source = row; signed_url = "https://store/ann/a.pdf" }

-- Opens what the operations call.
opened : Unit {0}
unfolding find select update find_by_project_id_and_owner_id find_all_by_project_id_and_owner_id
    update_status_by_source_id delete_by_project_id_and_owner_id check_project_access
    publish_create_job publish_cancel_job sign sign_all get_source list_sources delete_rest
    delete_source resubmit retry_job show_ℕ from_gorm_error error_is
opened = tt

got : (get_source (ports bucket true) background (pos 1) (pos 5) "ann" stored).0 ≡ ok detail
unfolding opened
got = refl

listed : (list_sources (ports bucket true) background (pos 5) "ann" stored).0 ≡ ok (detail ∷ [])
unfolding opened
listed = refl

retried : (retry_job (ports bucket true) background (pos 1) (pos 5) "ann" stored).0 ≡ ok "job-0"
unfolding opened
retried = refl

not_retried :
    (retry_job (ports bucket true) background (pos 2) (pos 5) "ann" stored).0
    ≡ err (not_found "source FindByProjectIDAndOwnerID")
unfolding opened
not_retried = refl

deleted : (delete_source (ports bucket true) background (pos 1) (pos 5) "ann" stored).0 ≡ ok tt
unfolding opened
deleted = refl

not_deleted :
    (delete_source (ports bucket true) background (pos 1) (pos 5) "bob" stored).0
    ≡ err (not_found "source FindByProjectIDAndOwnerID")
unfolding opened
not_deleted = refl

abbrev after_retry : World (ports bucket true)
after_retry = (retry_job (ports bucket true) background (pos 1) (pos 5) "ann" stored).1

abbrev after_delete : World (ports bucket true)
after_delete = (delete_source (ports bucket true) background (pos 1) (pos 5) "ann" stored).1

abbrev after_failed_delete : World (ports bucket true)
after_failed_delete = (delete_source (ports bucket true) background (pos 1) (pos 5) "bob" stored).1

abbrev Refuses : {A : Type 0} → Result A × World (ports bucket false) → Type 0
Refuses r = IsRefused (ports bucket false) (sentinel err_permission_denied) (start false) r.0 r.1

is_closed : ◌≢◌ {A = Result Bool} (ok false) (ok true)
is_closed h = ground arith

no_access-IsRefused_example :
    Refuses (get_source (ports bucket false) background (pos 1) (pos 5) "ann" (start false))
    × Refuses (list_sources (ports bucket false) background (pos 5) "ann" (start false))
    × Refuses (delete_source (ports bucket false) background (pos 1) (pos 5) "ann" (start false))
    × Refuses (retry_job (ports bucket false) background (pos 1) (pos 5) "ann" (start false))
    × Refuses (upload_source (ports bucket false) background request (start false))
no_access-IsRefused_example =
    no_access-IsRefused (ports bucket false) background (pos 5) (start false) is_closed (pos 1)
      "ann" request refl

get_source-owned_example :
    (find (chosen (pos 1) (pos 5) "ann") (row ∷ []) ≡ some row)
    × ◌≡◌ {A = Result Bool} (ok true) (ok true)
    × ((get_source (ports bucket true) background (pos 1) (pos 5) "ann" stored).1.rows ≡ row ∷ [])
get_source-owned_example =
    get_source-owned (ports bucket true) background table_view repo_laws (pos 1) (pos 5) "ann"
      stored detail got

list_sources-owned_example :
    Perm (row ∷ []) (select (owned (pos 5) "ann") (row ∷ []))
    × ◌≡◌ {A = Result Bool} (ok true) (ok true)
list_sources-owned_example =
    list_sources-owned (ports bucket true) background table_view repo_laws (pos 5) "ann" stored
      (detail ∷ []) listed

retry_job-IsRetried_example :
    (r : Source) × IsRetried
      (ports bucket true)
      table_view
      repo_laws
      (λ s. s)
      topic_log-ProducerLaws
      background
      (pos 1)
      (pos 5)
      "ann"
      stored
      "job-0"
      r
      after_retry
retry_job-IsRetried_example =
    retry_job-IsRetried (ports bucket true) table_view repo_laws (λ s. s) topic_log-ProducerLaws
      background (pos 1) (pos 5) "ann" stored "job-0" retried

-- A broker that takes a message and then does not answer in time.
abbrev slow : MessageProducer
slow = record {
  State = List Message;
  publish = λ ctx topic key payload s. (
    err (plain "context deadline exceeded"),
    s ++ (record { topic = topic; key = key; payload = payload }) ∷ [],
  );
}

slow-ProducerLaws : ProducerLaws slow (λ s. s)
slow-ProducerLaws = record {
  sent-publish = λ ctx m s h. absurd cc;
  sent_at_most = λ ctx m s. inr refl;
}

abbrev slow_ports : Ports
slow_ports = record (ports bucket true) { producer = slow }

abbrev stored_slow : World slow_ports
stored_slow = record {
  rows = row ∷ [];
  peer = tt;
  topics = [];
  objects = ("ann/a.pdf", 1 ∷ 2 ∷ 3 ∷ []) ∷ [];
  ids = 0;
}

abbrev after_slow_retry : Result String × World slow_ports
after_slow_retry = retry_job slow_ports background (pos 1) (pos 5) "ann" stored_slow

slow_retry : after_slow_retry.0 ≡ err (unavailable "message broker")
unfolding opened
slow_retry = refl

slow_message : after_slow_retry.1.topics ≡ create_job_message "job-0" "ann" row ∷ []
unfolding opened
slow_message = refl

retry_job_err_example :
    (after_slow_retry.1.rows ≡ row ∷ [])
    × (after_slow_retry.1.objects ≡ stored_slow.objects)
    × SentAtMost slow_ports table_view repo_laws
        (λ s. s)
        slow-ProducerLaws
        background
        (pos 1)
        (pos 5)
        "ann"
        stored_slow
        (unavailable "message broker")
        after_slow_retry.1
retry_job_err_example =
    retry_job_err slow_ports table_view repo_laws (λ s. s) slow-ProducerLaws background (pos 1)
      (pos 5) "ann" stored_slow (unavailable "message broker") slow_retry

delete_source-IsDeleted_example :
    (r : Source) × IsDeleted
      (ports bucket true)
      table_view
      repo_laws
      (λ s. s)
      topic_log-ProducerLaws
      object_view
      bucket-StorageLaws
      background
      (pos 1)
      (pos 5)
      "ann"
      stored
      r
      after_delete
delete_source-IsDeleted_example =
    delete_source-IsDeleted (ports bucket true) table_view repo_laws (λ s. s) topic_log-ProducerLaws
      object_view bucket-StorageLaws background (pos 1) (pos 5) "ann" stored deleted

delete_source_err_example :
    (after_failed_delete.rows ≡ row ∷ [])
    × (after_failed_delete.topics ≡ [])
    × (after_failed_delete.objects ≡ stored.objects)
delete_source_err_example =
    delete_source_err (ports bucket true) table_view repo_laws (λ s. s) topic_log-ProducerLaws
      object_view bucket-StorageLaws background (pos 1) (pos 5) "bob" stored
      (not_found "source FindByProjectIDAndOwnerID") not_deleted

source_repository-RepositoryLaws_example : RepositoryLaws (source_repository table) table_view
source_repository-RepositoryLaws_example =
    source_repository-RepositoryLaws table table_view table-DatabaseLaws
