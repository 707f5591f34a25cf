-- ===== src/Sources/Rows.antt =====
-- Lemmas on the rows of the table: what an update and a deletion by id do to one new row.
use sihkaromicro.Prelude.{
  ℤ, ◌≡◌, ◌≢◌, refl, not, String, List, [], ◌∷◌, ◌++◌, ◌∙◌, arith, select, update, All, ==ℤ_iff,
  eq_iff,
}
use sihkaromicro.Sources.Model.{Source}
use sihkaromicro.Sources.Spec.{has_id, chosen}

abbrev pub LacksId : ℤ → List Source → Type 0
LacksId id rows = All (λ r. r.id ≢ id) rows

pub update-LacksId :
    (id : ℤ) (f : Source → Source) (rows : List Source)
    → LacksId id rows
    → update (has_id id) f rows ≡ rows
unfolding update
update-LacksId id f [] h = refl
update-LacksId id f (r ∷ rows) (new, h) =
    ground (arith, ==ℤ_iff r.id id, update-LacksId id f rows h)

pub select-LacksId :
    (id project_id : ℤ) (owner_id : String) (rows : List Source)
    → LacksId id rows
    → select (λ r. not (chosen id project_id owner_id r)) rows ≡ rows
unfolding select
select-LacksId id project_id owner_id [] h = refl
select-LacksId id project_id owner_id (r ∷ rows) (new, h) =
    ground (arith, ==ℤ_iff r.id id, select-LacksId id project_id owner_id rows h)

-- `after` is `before` and one more row at the end, with this id, project and owner.
pub record IsExtension (id project_id : ℤ) (owner_id : String) (before after : List Source)
    : Type 0 where
  pub row : Source
  pub last : after ≡ before ++ row ∷ []
  pub row_id : row.id ≡ id
  pub row_project : row.project_id ≡ project_id
  pub row_owner : row.owner_id ≡ owner_id

update-append :
    (id : ℤ) (f : Source → Source) (r : Source) (rows : List Source)
    → LacksId id rows
    → r.id ≡ id
    → update (has_id id) f (rows ++ r ∷ []) ≡ rows ++ f r ∷ []
unfolding update
update-append id f r [] h e = ground (arith, ==ℤ_iff r.id id)
update-append id f r (x ∷ rows) (new, h) e =
    ground (arith, ==ℤ_iff x.id id, update-append id f r rows h e)

pub select-append_chosen :
    (id project_id : ℤ) (owner_id : String) (r : Source) (rows : List Source)
    → LacksId id rows
    → r.id ≡ id
    → r.project_id ≡ project_id
    → r.owner_id ≡ owner_id
    → select (λ x. not (chosen id project_id owner_id x)) (rows ++ r ∷ []) ≡ rows
unfolding select
select-append_chosen id project_id owner_id r [] h e p o =
    ground (arith, ==ℤ_iff r.id id, ==ℤ_iff r.project_id project_id, eq_iff r.owner_id owner_id)
select-append_chosen id project_id owner_id r (x ∷ rows) (new, h) e p o =
    ground (arith, ==ℤ_iff x.id id, select-append_chosen id project_id owner_id r rows h e p o)

-- A change of columns that leaves the id, the project and the owner.
pub record KeepsKey (f : Source → Source) : Type 0 where
  pub same_id : (r : Source) → (f r).id ≡ r.id
  pub same_project : (r : Source) → (f r).project_id ≡ r.project_id
  pub same_owner : (r : Source) → (f r).owner_id ≡ r.owner_id

module _ {id project_id : ℤ} {owner_id : String} {before after : List Source}
    (fresh : LacksId id before) (e : IsExtension id project_id owner_id before after) where
  pub update-IsExtension :
      (f : Source → Source)
      → KeepsKey f
      → IsExtension id project_id owner_id before (update (has_id id) f after)
  update-IsExtension f k = record {
    row = f e.row;
    last = rw e.last (update-append id f e.row before fresh e.row_id);
    row_id = k.same_id e.row ∙ e.row_id;
    row_project = k.same_project e.row ∙ e.row_project;
    row_owner = k.same_owner e.row ∙ e.row_owner;
  }

  pub select-IsExtension : select (λ x. not (chosen id project_id owner_id x)) after ≡ before
  select-IsExtension = rw e.last (
      select-append_chosen id project_id owner_id e.row before fresh e.row_id e.row_project
        e.row_owner)
