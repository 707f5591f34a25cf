-- ===== src/Logging/Pretty/Attributes.antt =====
-- The attributes that a handler writes, through any chain of handlers made from one another.
use sihkaromicro.Prelude.{
  append_assoc, append_nil, ℕ, ◌≡◌, refl, ap, sym, ◌∙◌, inl, inr, true, not, String, ◌<>◌, List, [],
  ◌∷◌, ◌++◌, select, Bool-cases,
}
use sihkaromicro.Logging.Slices.{items, contents}
use sihkaromicro.Logging.Slices.Laws.{contents-append}
use sihkaromicro.Logging.Pretty.{
  Attr, Record, Library, PrettyHandler, Output, is_empty, level_text, append_attr, append_attrs,
  cyan, white, handle, with_attrs, with_group, new_pretty_handler,
}

-- A step from one handler to a handler made from it.
pub data Change : Type 0 where
  adding : List Attr → Change
  grouping : String → Change

module _ (lib : Library) (grow : ℕ → ℕ) where
  abbrev pub change : Change → PrettyHandler lib → Output → PrettyHandler lib × Output
  change (adding attrs) h out = with_attrs lib grow h attrs out
  change (grouping name) h out = (with_group lib h name, out)

  unfoldable pub changes : List Change → PrettyHandler lib → Output → PrettyHandler lib × Output
  changes [] h out = (h, out)
  changes (c ∷ cs) h out = let (h', out') = change c h out in changes cs h' out'

  unfoldable pub added : List Change → List Attr
  added [] = []
  added (adding attrs ∷ cs) = attrs ++ added cs
  added (grouping name ∷ cs) = added cs

  abbrev pub attrs_of : PrettyHandler lib → Output → List Attr
  attrs_of h out = contents out.heap h.attrs

  attrs-changes :
      (cs : List Change) (h : PrettyHandler lib) (out : Output)
      → let (h', out') = changes cs h out in
        (attrs_of h' out' ≡ attrs_of h out ++ added cs) × (out'.lines ≡ out.lines)
  unfolding changes added with_attrs with_group
  attrs-changes [] h out = (sym (append_nil (attrs_of h out)), refl)
  attrs-changes (grouping name ∷ cs) h out = attrs-changes cs (with_group lib h name) out
  attrs-changes (adding attrs ∷ cs) h out =
      let (h', out') = with_attrs lib grow h attrs out in
      let (rest, lines) = attrs-changes cs h' out' in
      (
        rest
            ∙ ap (λ t. t ++ added cs) (contents-append grow h.attrs attrs out.heap)
            ∙ append_assoc (attrs_of h out) attrs (added cs),
        lines,
      )

  append_attrs-append :
      (b : String) (xs ys : List Attr)
      → append_attrs lib (append_attrs lib b xs) ys ≡ append_attrs lib b (xs ++ ys)
  unfolding append_attrs
  append_attrs-append b [] ys = refl
  append_attrs-append b (x ∷ xs) ys = append_attrs-append (append_attr lib b x) xs ys

  append_attr-empty : (b : String) (a : Attr) → is_empty a ≡ true → append_attr lib b a ≡ b
  unfolding append_attr
  append_attr-empty b a h = rw h

  append_attrs-select :
      (b : String) (xs : List Attr)
      → append_attrs lib b xs ≡ append_attrs lib b (select (λ a. not (is_empty a)) xs)
  unfolding append_attrs select
  append_attrs-select b [] = refl
  append_attrs-select b (x ∷ xs) = elim (Bool-cases (is_empty x)) [
    | inl empty ↦ rw (empty, append_attr-empty b x empty) (append_attrs-select b xs)
    | inr full ↦ rw full (append_attrs-select (append_attr lib b x) xs)
  ]

  -- A line of the format, with these attributes.
  abbrev pub line : Record → List Attr → String
  line r attrs =
      lib.paint white (lib.time_string r.time)
      <> (" "
          <> (level_text lib r.level
              <> (" "
                  <> (lib.paint cyan r.message <> (" " <> (append_attrs lib "" attrs <> "\n"))))))

  -- A handler that was made from the root by any additions of attributes and groups, one after the
  -- other, writes one line for a record: with the attributes that were added, in this order, and then
  -- those of the record, without the empty ones.
  pub handle-changes :
      (base : lib.Base) (cs : List Change) (r : Record) (out : Output)
      → let (h, out') = changes cs (new_pretty_handler lib base) out in
        (handle lib h r out').lines
        ≡ out.lines ++ line r (select (λ a. not (is_empty a)) (added cs ++ r.attrs)) ∷ []
  unfolding handle new_pretty_handler items
  handle-changes base cs r out =
      let (attrs, lines) = attrs-changes cs (new_pretty_handler lib base) out in
      rw
        (
          attrs,
          lines,
          append_attrs-append "" (added cs) r.attrs,
          append_attrs-select "" (added cs ++ r.attrs),
        )
        refl
