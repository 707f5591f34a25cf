-- ===== src/Sources/Repository/Laws.antt =====
-- The repository over gorm and the laws of the ports.
use sihkaromicro.Prelude.{
  ℤ, ◌≡◌, ◌≢◌, refl, true, false, not, Bool, String, List, [], ◌∷◌, none, arith, length, select,
  find, update, inl, inr,
}
use sihkaromicro.Runtime.Errors.{
  Error, Result, Result-cases, ok, err, error_is, err_not_found, gorm_record_not_found,
}
use sihkaromicro.Runtime.Context.{Context}
use sihkaromicro.Sources.Model.{Source, SourceStatus}
use sihkaromicro.Sources.Apperr.{from_gorm_error}
use sihkaromicro.Sources.Spec.{
  TableView, RepositoryLaws, chosen, has_id, if_ok, with_status, with_minio_path,
}
use sihkaromicro.Sources.Database.{Database, DatabaseLaws, set_status, set_job_id, set_minio_path}
use sihkaromicro.Sources.Repository.{
  convert, source_repository, save, find_by_project_id_and_owner_id, update_status_by_source_id,
  delete_by_project_id_and_owner_id, find_all_by_project_id_and_owner_id,
  count_by_project_id_and_owner_id, update_minio_path,
}

-- Where no row passes a test, dropping those that pass it drops none.
select-not_none :
    (p : Source → Bool) (rows : List Source)
    → length (select p rows) ≡ 0
    → select (λ r. not (p r)) rows ≡ rows
unfolding select
select-not_none p [] h = refl
select-not_none p (r ∷ rows) h = ground (arith, select-not_none p rows)

find_none :
    (p : Source → Bool) (rows : List Source) → find p rows ≡ none → length (select p rows) ≡ 0
unfolding select find
find_none p [] h = refl
find_none p (r ∷ rows) h = ground (arith, find_none p rows)

none_of_length :
    (p : Source → Bool) (rows : List Source) → length (select p rows) ≡ 0 → find p rows ≡ none
unfolding select find
none_of_length p [] h = refl
none_of_length p (r ∷ rows) h = ground (arith, none_of_length p rows)

-- The conversion makes a "not found" of gorm's "record not found", and of nothing else.
pub from_gorm_error-not_found :
    (e : Error) (entity : String)
    → error_is e err_not_found ≡ false
    → error_is (from_gorm_error e entity) err_not_found ≡ error_is e gorm_record_not_found
unfolding from_gorm_error error_is
from_gorm_error-not_found e entity h = ground arith

convert-eq-ok {ℓ} :
    {A : Type ℓ} (r : Result A) (entity : String) {a : A} → convert r entity ≡ ok a → r ≡ ok a
convert-eq-ok (ok b) entity h = h
convert-eq-ok (err e) entity h = cc

module _ (D : Database) (V : TableView D.State) (L : DatabaseLaws D V) where
  find_missing :
      (ctx : Context) (id project_id : ℤ) (owner_id : String) (s : D.State) (e : Error)
      → (find_by_project_id_and_owner_id D ctx id project_id owner_id s).0 ≡ err e
      → error_is e err_not_found ≡ true
      → find (chosen id project_id owner_id) (V.rows s) ≡ none
  unfolding find_by_project_id_and_owner_id
  find_missing ctx id project_id owner_id s e h nf =
      elim (Result-cases (D.first ctx (chosen id project_id owner_id) s).0) [
        | inl (r, found) ↦ ground (arith, found)
        | inr (e₀, failed) ↦ L.first_missing ctx _ s e₀ failed (
            ground (
              arith,
              from_gorm_error-not_found e₀ "source FindByProjectIDAndOwnerID"
                  (L.first_foreign ctx _ s e₀ failed),
            ))
      ]

  delete_found :
      (ctx : Context) (id project_id : ℤ) (owner_id : String) (s : D.State)
      → (delete_by_project_id_and_owner_id D ctx id project_id owner_id s).0 ≡ ok tt
      → find (chosen id project_id owner_id) (V.rows s) ≢ none
  unfolding delete_by_project_id_and_owner_id
  delete_found ctx id project_id owner_id s h absent =
      let p = chosen id project_id owner_id in
      let nothing = find_none p (V.rows s) absent in
      elim (Result-cases (D.delete_where ctx p s).0) [
        | inl (n, removed) ↦ ground (arith, L.delete_where_affected ctx p s n removed)
        | inr (e, failed) ↦ ground arith
      ]

  delete_missing :
      (ctx : Context) (id project_id : ℤ) (owner_id : String) (s : D.State) (e : Error)
      → (delete_by_project_id_and_owner_id D ctx id project_id owner_id s).0 ≡ err e
      → error_is e err_not_found ≡ true
      → find (chosen id project_id owner_id) (V.rows s) ≡ none
  unfolding delete_by_project_id_and_owner_id
  delete_missing ctx id project_id owner_id s e h nf =
      let p = chosen id project_id owner_id in
      elim (Result-cases (D.delete_where ctx p s).0) [
        | inl (n, removed) ↦
            ground (arith, L.delete_where_affected ctx p s n removed, none_of_length p (V.rows s))
        | inr (e₀, failed) ↦
            let (foreign, known) = L.delete_where_foreign ctx p s e₀ failed in
            let same = from_gorm_error-not_found e₀ "source DeleteByProjectIDAndOwnerID" foreign in
            absurd (ground arith)
      ]

  rows-delete :
      (ctx : Context) (id project_id : ℤ) (owner_id : String) (s : D.State)
      → V.rows (delete_by_project_id_and_owner_id D ctx id project_id owner_id s).1
        ≡ if_ok
            (delete_by_project_id_and_owner_id D ctx id project_id owner_id s).0
            (λ _. select (λ r. not (chosen id project_id owner_id r)) (V.rows s))
            (V.rows s)
  unfolding delete_by_project_id_and_owner_id
  rows-delete ctx id project_id owner_id s = ground (
    arith,
    L.rows-delete_where ctx (chosen id project_id owner_id) s,
    L.delete_where_affected ctx (chosen id project_id owner_id) s 0,
    select-not_none (chosen id project_id owner_id) (V.rows s),
  )

  rows-update_status :
      (ctx : Context) (id : ℤ) (status : SourceStatus) (job_id : String) (s : D.State)
      → V.rows (update_status_by_source_id D ctx id status job_id s).1
        ≡ if_ok
            (update_status_by_source_id D ctx id status job_id s).0
            (λ _. update (has_id id) (with_status status job_id (V.now s)) (V.rows s))
            (V.rows s)
  unfolding update_status_by_source_id
  rows-update_status ctx id status job_id s =
      ground (arith, L.rows-updates ctx (has_id id) (set_status status ∷ set_job_id job_id ∷ []) s)

  rows-update_minio_path :
      (ctx : Context) (id : ℤ) (path : String) (s : D.State)
      → V.rows (update_minio_path D ctx id path s).1
        ≡ if_ok
            (update_minio_path D ctx id path s).0
            (λ _. update (has_id id) (with_minio_path path (V.now s)) (V.rows s))
            (V.rows s)
  unfolding update_minio_path
  rows-update_minio_path ctx id path s =
      ground (arith, L.rows-updates ctx (has_id id) (set_minio_path path ∷ []) s)

  -- Over a lawful database the repository meets the laws of a table of sources: which rows each of
  -- its seven operations leaves; that the row saved has a new id and the columns given, with the
  -- default status for an empty one; that the row found, the list and the count are those of the id,
  -- project and owner; that a deletion succeeds only where such a row was; and that finding and
  -- deleting answer `not found` only where there is none.
  pub source_repository-RepositoryLaws : RepositoryLaws (source_repository D) V
  unfolding save find_by_project_id_and_owner_id update_status_by_source_id
      delete_by_project_id_and_owner_id find_all_by_project_id_and_owner_id
      count_by_project_id_and_owner_id update_minio_path
  source_repository-RepositoryLaws = record {
    rows-save = L.rows-create;
    save_stored = L.create_stored;
    save_fresh = L.create_fresh;
    rows-find = λ ctx id project_id owner_id s. L.rows-first ctx _ s;
    find_sound = λ ctx id project_id owner_id s r h. L.first_sound ctx _ s r (convert-eq-ok _ _ h);
    find_missing = find_missing;
    rows-find_all = λ ctx project_id owner_id s. L.rows-find_where ctx _ s;
    find_all_sound =
        λ ctx project_id owner_id s rs h. L.find_where_sound ctx _ s rs (convert-eq-ok _ _ h);
    rows-count = λ ctx project_id owner_id s. L.rows-count_where ctx _ s;
    count_sound =
        λ ctx project_id owner_id s n h. L.count_where_sound ctx _ s n (convert-eq-ok _ _ h);
    rows-update_status = rows-update_status;
    rows-update_minio_path = rows-update_minio_path;
    delete_found = delete_found;
    delete_missing = delete_missing;
    rows-delete = rows-delete;
  }
