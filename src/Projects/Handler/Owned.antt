-- ===== src/Projects/Handler/Owned.antt =====
-- What the operations on projects do for a user.
use mathlib.Core.Nat as Nat
use mathlib.Core.List as Lists
use mathlib.Core.List.{Perm}
use mathlib.Core.List.Perm
use sihkaromicro.Prelude.{
  ap, sym, ℕ, zero, suc, ◌-◌, ◌*◌, negsuc, pos_part, leb, if◌then◌else◌, ℤ, pos, ◌-ℤ◌, ◌*ℤ◌, ◌∙◌,
  ◌≡◌, ◌≢◌, refl, inl, inr, not, Bool, String, List, [], ◌∷◌, ◌++◌, none, arith, length, select,
  find, eq_iff,
}
use sihkaromicro.Runtime.Errors.{Error, ok, err, Result-cases}
use sihkaromicro.Runtime.Context.{Context}
use sihkaromicro.Projects.Model.{Project, PageWrapper}
use sihkaromicro.Projects.Database.{
  Database, DatabaseLaws, IsStored, chosen, owned, take, drop, skip,
}
use sihkaromicro.Projects.Repository
use sihkaromicro.Projects.Repository.{save, page}
use sihkaromicro.Projects.Service.{new_project, create, delete, list}

select_rest :
    (p : Project → Bool) (ps : List Project)
    → length (select p ps) ≡ 0
    → select (λ x. not (p x)) ps ≡ ps
unfolding select
select_rest p [] h = refl
select_rest p (x ∷ ps) h = ground (arith, select_rest p ps)

find_none : (p : Project → Bool) (ps : List Project) → find p ps ≡ none → length (select p ps) ≡ 0
unfolding select find
find_none p [] h = refl
find_none p (x ∷ ps) h = ground (arith, find_none p ps)

length-take :
    (n : ℕ) (ps : List Project) → length (take n ps) ≡ (if leb n (length ps) then n else length ps)
unfolding take
length-take zero ps = ground arith
length-take (suc n) [] = ground arith
length-take (suc n) (p ∷ ps) = ground (arith, length-take n ps)

length-drop : (n : ℕ) (ps : List Project) → length (drop n ps) ≡ length ps - n
unfolding drop
length-drop zero ps = ground arith
length-drop (suc n) [] = ground arith
length-drop (suc n) (p ∷ ps) = ground (arith, length-drop n ps)

-- The library counts with other numbers.
native : Nat.ℕ → ℕ
native Nat.ℕ.zero = 0
native (Nat.ℕ.suc n) = suc (native n)

native-length : (ps : List Project) → native (Lists.length ps) ≡ length ps
unfolding native
native-length [] = refl
native-length (p ∷ ps) = ap suc (native-length ps)

length-Perm : (ps qs : List Project) → Perm ps qs → length ps ≡ length qs
length-Perm ps qs same =
    sym (native-length ps) ∙ (ap native (Perm.length-eq same) ∙ native-length qs)

-- An offset that is a product of a negative number is left out.
skip_product :
    (a : ℤ) (size : ℕ) (ps : List Project) → skip (a *ℤ pos size) ps ≡ drop (pos_part a * size) ps
unfolding drop
skip_product (pos n) size ps = ground arith
skip_product (negsuc n) zero ps = ground arith
skip_product (negsuc n) (suc size) ps = ground arith

module _ (D : Database) (rows : D.State → List Project) (L : DatabaseLaws D rows) (ctx : Context)
    (owner_id : String) (s : D.State) where
  -- Over a lawful database, a project that is created has a title and is the new last row, with the
  -- user as the owner and this title; where there is an error, the rows are as they were.
  pub create_adds_row :
      (title : String)
      → ((p : Project)
          → (create D ctx owner_id title s).0 ≡ ok p
          → (title ≢ "")
            × (p.owner_id ≡ owner_id)
            × (p.title ≡ title)
            × (rows (create D ctx owner_id title s).1 ≡ rows s ++ p ∷ []))
        × ((e : Error)
            → (create D ctx owner_id title s).0 ≡ err e
            → rows (create D ctx owner_id title s).1 ≡ rows s)
  unfolding create save
  create_adds_row title =
      let given : Project = new_project owner_id title in
      let at_rows = L.rows-create ctx given s in
      let titled = eq_iff title "" in
      (
        λ p h.
            let stored : IsStored given p = L.create_stored ctx given p s (ground arith) in
            (ground arith, stored.owner, stored.title, ground (arith, at_rows)),
        λ e h. ground (arith, at_rows),
      )

  -- Over a lawful database, a deletion that succeeds removes the rows of this project and owner, of
  -- which there was one, and no other; one that fails removes nothing.
  pub delete_removes_row :
      (project_id : ℤ)
      → ((delete D ctx owner_id project_id s).0 ≡ ok tt
          → (find (chosen owner_id project_id) (rows s) ≢ none)
            × (rows (delete D ctx owner_id project_id s).1
                ≡ select (λ p. not (chosen owner_id project_id p)) (rows s)))
        × ((e : Error)
            → (delete D ctx owner_id project_id s).0 ≡ err e
            → rows (delete D ctx owner_id project_id s).1 ≡ rows s)
  unfolding delete Repository.delete
  delete_removes_row project_id =
      let p = chosen owner_id project_id in
      let at_rows = L.rows-delete_where ctx p s in
      elim (Result-cases (D.delete_where ctx p s).0) [
        | inl (n, removed) ↦
            let affected = L.delete_where_affected ctx p s n removed in
            (
              λ h. (
                λ absent. let nothing = find_none p (rows s) absent in ground arith,
                ground (arith, at_rows),
              ),
              λ e h. ground (arith, at_rows, affected, select_rest p (rows s)),
            )
        | inr (x, failed) ↦ (λ h. absurd (ground arith), λ e h. ground (arith, at_rows))
      ]

  -- Over a lawful database, and for a page size that is not negative: a page counts all projects of
  -- the user. In some order of these, it holds the ones from the place (number - 1) * size on, the
  -- first page also for a number below one; they are as many as the size, or as are left from that
  -- place on if these are fewer. The rows are as they were.
  pub list_is_page :
      (number : ℤ) (size : ℕ) (w : PageWrapper)
      → (list D ctx owner_id number (pos size) s).0 ≡ ok w
      → let owned_rows = select (owned owner_id) (rows s) in
        let start = pos_part (number -ℤ pos 1) * size in
        (w.total ≡ length owned_rows)
        × ((order : List Project) × Perm order owned_rows
            × (w.data_rows ≡ take size (drop start order)))
        × (length w.data_rows
            ≡ (if leb size (length owned_rows - start) then size else length owned_rows - start))
        × (rows (list D ctx owner_id number (pos size) s).1 ≡ rows s)
  unfolding list page
  list_is_page number size w h =
      let p = owned owner_id in
      let s₁ = (D.count_where ctx p s).1 in
      let offset = (number -ℤ pos 1) *ℤ pos size in
      let start = pos_part (number -ℤ pos 1) * size in
      let counted = L.rows-count_where ctx p s in
      let paged = L.rows-page_where ctx p offset (pos size) s₁ in
      elim (Result-cases (D.count_where ctx p s).0) [
        | inr (x, failed) ↦ absurd (ground arith)
        | inl (n, count) ↦ elim (Result-cases (D.page_where ctx p offset (pos size) s₁).0) [
          | inr (x, failed) ↦ absurd (ground arith)
          | inl (ps, found) ↦
              let total : w.total ≡ n = ground arith in
              let items : w.data_rows ≡ ps = ground arith in
              let (order, perm, window) = L.page_where_sound ctx p offset (pos size) s₁ ps found in
              let here : w.data_rows ≡ take size (drop start order) =
                items ∙ (window ∙ ap (take size) (skip_product (number -ℤ pos 1) size order)) in
              let ordered : Perm order (select p (rows s)) = rw counted at perm in
              (
                total ∙ L.count_where_sound ctx p s n count,
                (order, ordered, here),
                ap (λ (ps' : List Project). length ps') here
                    ∙ (length-take size (drop start order)
                        ∙ rw
                            (length-drop start order, length-Perm order (select p (rows s)) ordered)
                            refl),
                ground arith,
              )
        ]
      ]
