-- ===== src/Tests/Logging.antt =====
-- Loggers over a library that marks colours.
use sihkaromicro.Prelude.{ℕ, suc, ◌≡◌, refl, inl, inr, arith, String, none, some, [], ◌∷◌, select}
use sihkaromicro.Logging.Slices.{contents, append, items, put}
use sihkaromicro.Logging.Slices.Laws.{IsIn}
use sihkaromicro.Logging.Pretty.{
  Attr, Record, level_info, Library, PrettyHandler, Output, new_pretty_handler, handle, with_attrs,
  append_attr, append_attrs, with_group,
}
use sihkaromicro.Logging.Pretty.Attributes.{adding, grouping, changes, added, handle-changes}
use sihkaromicro.Logging.Pretty.Siblings.{siblings_apart, siblings_mixed}

abbrev plain_text : Library
plain_text = record {
  paint = λ c text. text;
  level_string = λ level. "INFO";
  time_string = λ time. "[00:00]";
  Base = Unit {0};
  base_with_group = λ b name. b;
}

abbrev attr : String → String → Attr
attr key value = record { key = key; value = some value }

-- New arrays have room for one item more.
abbrev grow : ℕ → ℕ
grow n = suc n

abbrev silent : Output
silent = record { heap = record { next = 1; cells = λ a i. attr "" "" }; lines = [] }

abbrev root : PrettyHandler plain_text
root = new_pretty_handler plain_text tt

abbrev hello : Record
hello = record { time = 0; level = level_info; message = "hello"; attrs = attr "id" "7" ∷ [] }

handle-changes_example :
    let cs =
      adding (attr "op" "run" ∷ [])
      ∷ grouping "g"
      ∷ adding ((record { key = ""; value = none }) ∷ [])
      ∷ [] in
    let (h, out) = changes plain_text grow cs root silent in
    (handle plain_text h hello out).lines ≡ "[00:00] INFO: hello  [op: run] [id: 7]\n" ∷ []
unfolding handle new_pretty_handler items changes added with_attrs with_group append_attrs
    append_attr append put select
handle-changes_example =
    handle-changes plain_text grow tt
      (adding (attr "op" "run" ∷ [])
        ∷ grouping "g"
        ∷ adding ((record { key = ""; value = none }) ∷ [])
        ∷ [])
      hello silent

root-IsIn : IsIn silent.heap root.attrs
unfolding new_pretty_handler
root-IsIn = record { fits = omega arith; exists = inr refl }

siblings_apart_example :
    let (first, out₁) = with_attrs plain_text grow root (attr "a" "1" ∷ []) silent in
    let (second, out₂) = with_attrs plain_text grow root (attr "b" "2" ∷ []) out₁ in
    (contents out₂.heap first.attrs ≡ attr "a" "1" ∷ [])
    × (contents out₂.heap second.attrs ≡ attr "b" "2" ∷ [])
unfolding new_pretty_handler items with_attrs append put
siblings_apart_example =
    siblings_apart plain_text grow root silent root-IsIn (λ n. omega arith) (attr "a" "1" ∷ [])
      (attr "b" "2" ∷ []) refl (omega arith) (omega arith)

-- A logger with one attribute, whose array has room for a second one.
abbrev child : PrettyHandler plain_text × Output
child = with_attrs plain_text grow root (attr "a" "1" ∷ []) silent

child-IsIn : IsIn child.1.heap child.0.attrs
unfolding new_pretty_handler with_attrs append
child-IsIn = record { fits = omega arith; exists = inl (omega arith) }

siblings_mixed_example :
    let (first, out₁) = with_attrs plain_text grow child.0 (attr "b" "2" ∷ []) child.1 in
    let (second, out₂) = with_attrs plain_text grow child.0 (attr "c" "3" ∷ []) out₁ in
    contents out₂.heap first.attrs ≡ attr "a" "1" ∷ attr "c" "3" ∷ []
unfolding new_pretty_handler items with_attrs append put
siblings_mixed_example =
    siblings_mixed plain_text grow child.0 child.1 child-IsIn (attr "b" "2") (attr "c" "3")
      (omega arith)
