-- ===== src/Projects/Database.antt =====
-- The table `projects` behind gorm, which is not part of the repository: its operations as the
-- repository calls them, and what their documentation promises.
use mathlib.Core.List.{Perm}
use sihkaromicro.Prelude.{
  ℕ, zero, suc, ℤ, pos, negsuc, ◌≡◌, ◌==ℤ◌, Bool, true, ◌&&◌, not, String, none, some, List, [],
  ◌∷◌, ◌++◌, length, select, find, str_eq,
}
use sihkaromicro.Runtime.Errors.{Error, ok, err, error_is, gorm_record_not_found}
use sihkaromicro.Runtime.Context.{Context}
use sihkaromicro.Runtime.Calls.{Call}
use sihkaromicro.Sources.Spec.{if_ok}
use sihkaromicro.Projects.Model.{Project}

-- `id = ? AND owner_id = ?`
abbrev pub chosen : String → ℤ → Project → Bool
chosen owner_id id p = p.id ==ℤ id && str_eq p.owner_id owner_id

-- `owner_id = ?`
abbrev pub owned : String → Project → Bool
owned owner_id p = str_eq p.owner_id owner_id

-- The first `n` items, and those after them.
unfoldable pub take : ℕ → List Project → List Project
take zero ps = []
take (suc n) [] = []
take (suc n) (p ∷ ps) = p ∷ take n ps

unfoldable pub drop : ℕ → List Project → List Project
drop zero ps = ps
drop (suc n) [] = []
drop (suc n) (p ∷ ps) = drop n ps

-- `Offset` and `Limit`: gorm leaves out one that is negative.
abbrev pub skip : ℤ → List Project → List Project
skip (pos n) ps = drop n ps
skip (negsuc n) ps = ps

abbrev pub limit_to : ℤ → List Project → List Project
limit_to (pos n) ps = take n ps
limit_to (negsuc n) ps = ps

-- `page_where ctx p offset limit`: Where, Offset, Limit and Find.
pub record Database : Type 1 where
  pub State : Type 0
  pub create : Context → Project → Call State Project
  pub first : Context → (Project → Bool) → Call State Project
  pub count_where : Context → (Project → Bool) → Call State ℕ
  pub page_where : Context → (Project → Bool) → ℤ → ℤ → Call State (List Project)
  pub delete_where : Context → (Project → Bool) → Call State ℕ  -- RowsAffected

-- The stored row is the given one with its id and its times set.
pub record IsStored (given stored : Project) : Type 0 where
  pub owner : stored.owner_id ≡ given.owner_id
  pub title : stored.title ≡ given.title

pub record DatabaseLaws (D : Database) (rows : D.State → List Project) : Type 0 where
  pub rows-create :
      (ctx : Context) (project : Project) (s : D.State)
      → rows (D.create ctx project s).1
        ≡ if_ok (D.create ctx project s).0 (λ r. rows s ++ r ∷ []) (rows s)
  pub create_stored :
      (ctx : Context) (project r : Project) (s : D.State)
      → (D.create ctx project s).0 ≡ ok r
      → IsStored project r
  pub rows-first :
      (ctx : Context) (p : Project → Bool) (s : D.State) → rows (D.first ctx p s).1 ≡ rows s
  pub first_sound :
      (ctx : Context) (p : Project → Bool) (s : D.State) (r : Project)
      → (D.first ctx p s).0 ≡ ok r
      → find p (rows s) ≡ some r
  pub first_missing :
      (ctx : Context) (p : Project → Bool) (s : D.State) (e : Error)
      → (D.first ctx p s).0 ≡ err e
      → error_is e gorm_record_not_found ≡ true
      → find p (rows s) ≡ none
  pub rows-count_where :
      (ctx : Context) (p : Project → Bool) (s : D.State) → rows (D.count_where ctx p s).1 ≡ rows s
  pub count_where_sound :
      (ctx : Context) (p : Project → Bool) (s : D.State) (n : ℕ)
      → (D.count_where ctx p s).0 ≡ ok n
      → n ≡ length (select p (rows s))
  pub rows-page_where :
      (ctx : Context) (p : Project → Bool) (offset limit : ℤ) (s : D.State)
      → rows (D.page_where ctx p offset limit s).1 ≡ rows s
  -- SQL promises no order where none is asked for, also not the same one twice.
  pub page_where_sound :
      (ctx : Context) (p : Project → Bool) (offset limit : ℤ) (s : D.State) (ps : List Project)
      → (D.page_where ctx p offset limit s).0 ≡ ok ps
      → (order : List Project) × Perm order (select p (rows s))
        × (ps ≡ limit_to limit (skip offset order))
  pub rows-delete_where :
      (ctx : Context) (p : Project → Bool) (s : D.State)
      → rows (D.delete_where ctx p s).1
        ≡ if_ok (D.delete_where ctx p s).0 (λ _. select (λ r. not (p r)) (rows s)) (rows s)
  pub delete_where_affected :
      (ctx : Context) (p : Project → Bool) (s : D.State) (n : ℕ)
      → (D.delete_where ctx p s).0 ≡ ok n
      → n ≡ length (select p (rows s))
