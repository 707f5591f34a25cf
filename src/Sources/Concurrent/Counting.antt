-- ===== src/Sources/Concurrent/Counting.antt =====
-- What one call does to the number of rows of a project and owner.
use sihkaromicro.Prelude.{
  ℕ, ℤ, ◌+◌, ◌≤◌, ◌<◌, ◌≡◌, refl, ap, ◌⊎◌, inl, inr, Bool, not, String, List, [], ◌∷◌, ◌++◌, arith,
  length, select, update, if◌then◌else◌, eq_iff, ==ℤ_iff, Bool-cases,
}
use sihkaromicro.Runtime.Errors.{Result-cases}
use sihkaromicro.Runtime.Context.{Context, background}
use sihkaromicro.Sources.Model.{Source, SourceStatus, status_uploaded, status_pending}
use sihkaromicro.Sources.Spec.{
  TableView, RepositoryLaws, IsStored, owned, has_id, chosen, with_status, with_minio_path,
}
use sihkaromicro.Sources.Ports.{Ports, World}
use sihkaromicro.Sources.Service.{UploadSourceRequest, max_sources_per_project, publish_create_job}
use sihkaromicro.Sources.Service.Upload.{new_source}
use sihkaromicro.Sources.Concurrent.{
  Phase, asking, counting, saving, storing, linking, marking, naming, publishing, waiting, dropping,
  deleting, ended, counted, next,
}

pub length-select-update :
    (p q : Source → Bool) (f : Source → Source) (rows : List Source)
    → ((r : Source) → p (f r) ≡ p r)
    → length (select p (update q f rows)) ≡ length (select p rows)
unfolding select update
length-select-update p q f [] h = refl
length-select-update p q f (r ∷ rows) h = ground (arith, h r, length-select-update p q f rows h)

pub length-select-select :
    (p q : Source → Bool) (rows : List Source)
    → length (select p (select q rows)) ≤ length (select p rows)
unfolding select
length-select-select p q [] = omega arith
length-select-select p q (r ∷ rows) = ground (arith, length-select-select p q rows)

pub length-select_last :
    (p : Source → Bool) (rows : List Source) (r : Source)
    → length (select p (rows ++ r ∷ [])) ≡ length (select p rows) + (if p r then 1 else 0)
unfolding select
length-select_last p [] r = ground arith
length-select_last p (x ∷ rows) r = ground (arith, length-select_last p rows r)

module _ (E : Ports) (V : TableView E.repo.State) (L : RepositoryLaws E.repo V) (project_id : ℤ)
    (owner_id : String) where
  abbrev pub mine : Source → Bool
  mine = owned project_id owner_id

  -- The rows of the project and owner.
  abbrev pub held : E.repo.State → ℕ
  held s = length (select mine (V.rows s))

  held_status :
      (ctx : Context) (id : ℤ) (status : SourceStatus) (job_id : String) (s : E.repo.State)
      → held (E.repo.update_status ctx id status job_id s).1 ≡ held s
  held_status ctx id status job_id s = ground (
    arith,
    L.rows-update_status ctx id status job_id s,
    length-select-update mine (has_id id) (with_status status job_id (V.now s)) (V.rows s)
        (λ r. refl),
  )

  held_path :
      (ctx : Context) (id : ℤ) (path : String) (s : E.repo.State)
      → held (E.repo.update_minio_path ctx id path s).1 ≡ held s
  held_path ctx id path s = ground (
    arith,
    L.rows-update_minio_path ctx id path s,
    length-select-update mine (has_id id) (with_minio_path path (V.now s)) (V.rows s) (λ r. refl),
  )

  held_delete :
      (ctx : Context) (id project : ℤ) (owner : String) (s : E.repo.State)
      → held (E.repo.delete ctx id project owner s).1 ≤ held s
  held_delete ctx id project owner s = ground (
    arith,
    L.rows-delete ctx id project owner s,
    length-select-select mine (λ r. not (chosen id project owner r)) (V.rows s),
  )

  held_count :
      (ctx : Context) (project : ℤ) (owner : String) (s : E.repo.State)
      → held (E.repo.count ctx project owner s).1 ≡ held s
  held_count ctx project owner s = ground (arith, L.rows-count ctx project owner s)

  mine_stored : (source r : Source) → IsStored source r → mine r ≡ mine source
  mine_stored source r h = ap mine h.same

  -- A row that a request of this project and owner is about to add.
  abbrev pub about_to_add : UploadSourceRequest → Phase → ℕ
  about_to_add req saving = if mine (new_source req) then 1 else 0
  about_to_add req _ = 0

  about_to_add-le : (req : UploadSourceRequest) (p : Phase) → about_to_add req p ≤ 1
  about_to_add-le req p = ground arith

  module _ (ctx : Context) (req : UploadSourceRequest) where
    held_save :
        (s : E.repo.State)
        → held (E.repo.save ctx (new_source req) s).1
          ≤ held s + (if mine (new_source req) then 1 else 0)
    held_save s = elim (Result-cases (E.repo.save ctx (new_source req) s).0) [
      | inl (r, new) ↦ ground (
        arith,
        L.rows-save ctx (new_source req) s,
        length-select_last mine (V.rows s) r,
        mine_stored (new_source req) r (L.save_stored ctx (new_source req) r s new),
      )
      | inr (e, failed) ↦ ground (arith, L.rows-save ctx (new_source req) s)
    ]

    -- The check that lets a request add a row has seen less rows than the limit.
    held-counted :
        (s : E.repo.State)
        → let (r, s') = E.repo.count ctx req.project_id req.owner_id s in
          (about_to_add req (counted r) ≡ 0) ⊎ (held s' < max_sources_per_project)
    unfolding new_source
    held-counted s = elim (Result-cases (E.repo.count ctx req.project_id req.owner_id s).0) [
      | inr (e, failed) ↦ inl (ground arith)
      | inl (n, known) ↦ elim (Bool-cases (mine (new_source req))) [
        | inr other ↦ inl (ground arith)
        | inl same ↦
            let project : req.project_id ≡ project_id =
              ground (arith, ==ℤ_iff req.project_id project_id) in
            let owner : req.owner_id ≡ owner_id = ground (arith, eq_iff req.owner_id owner_id) in
            let seen : n ≡ held s =
              rw (project, owner) at (L.count_sound ctx req.project_id req.owner_id s n known) in
            ground (arith, seen, held_count ctx req.project_id req.owner_id s)
      ]
    ]

    -- One call: either what is held and what is about to be added do not grow together, or less than
    -- the limit is held.
    pub held-next :
        (p : Phase) (w : World E)
        → let (p', w') = next E ctx req p w in
          (held w'.rows + about_to_add req p' ≤ held w.rows + about_to_add req p)
          ⊎ ((held w'.rows < max_sources_per_project) × (about_to_add req p' ≤ 1))
    unfolding next publish_create_job
    held-next asking w = inl (ground arith)
    held-next counting w = ground (
      arith,
      held-counted w.rows,
      held_count ctx req.project_id req.owner_id w.rows,
      about_to_add-le req (counted (E.repo.count ctx req.project_id req.owner_id w.rows).0),
    )
    held-next saving w = inl (ground (arith, held_save w.rows))
    held-next (storing source) w = inl (ground arith)
    held-next (linking source name) w = inl (ground (arith, held_path ctx source.id name w.rows))
    held-next (marking source name) w =
        inl (ground (arith, held_status ctx source.id status_uploaded "" w.rows))
    held-next (naming source) w = inl (ground arith)
    held-next (publishing source job_id) w = inl (ground arith)
    held-next (waiting source job_id) w =
        inl (ground (arith, held_status ctx source.id status_pending job_id w.rows))
    held-next (dropping source name e) w = inl (ground arith)
    held-next (deleting source e) w =
        inl (
          ground (arith, held_delete background source.id source.project_id source.owner_id w.rows))
    held-next (ended r) w = inl (omega arith)
