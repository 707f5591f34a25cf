-- ===== src/Logging/Pretty.antt =====
-- sources/pkg/logger/handler/slogpretty.go: a handler of log records that writes one coloured line
-- for each. The packages slog, color and time are parameters; the lines written are a list.
pub mod Attributes
pub mod Siblings
use sihkaromicro.Prelude.{
  ℕ, ℤ, pos, negsuc, ◌==ℤ◌, Bool, false, String, ◌<>◌, Option, none, some, List, [], ◌∷◌, ◌++◌,
  str_eq, if◌then◌else◌,
}
use sihkaromicro.Logging.Slices.{Heap, Slice, nil, contents, append}

-- An attribute; a value is its text under %v, and the zero Value holds nothing.
pub record Attr : Type 0 where
  pub key : String
  pub value : Option String

pub record Record : Type 0 where
  pub time : ℕ
  pub level : ℤ
  pub message : String
  pub attrs : List Attr

abbrev pub level_debug : ℤ
level_debug = negsuc 3

abbrev pub level_info : ℤ
level_info = pos 0

abbrev pub level_warn : ℤ
level_warn = pos 4

abbrev pub level_error : ℤ
level_error = pos 8

pub data Colour : Type 0 where
  magenta blue yellow red white hi_white cyan : Colour

-- What the libraries make of a text in a colour, a level and a time, and the base handler, which the
-- groups are passed on to.
pub record Library : Type 1 where
  pub paint : Colour → String → String
  pub level_string : ℤ → String
  pub time_string : ℕ → String
  pub Base : Type 0
  pub base_with_group : Base → String → Base

-- `opts` and the writer `l` are the same for all handlers that come from one.
pub record PrettyHandler (lib : Library) : Type 0 where
  pub base : lib.Base
  pub attrs : Slice

-- What the handlers share: the arrays of attributes, and the lines that were written.
pub record Output : Type 0 where
  pub heap : Heap Attr
  pub lines : List String

-- `a.Equal(slog.Attr{})`
abbrev pub is_empty : Attr → Bool
is_empty a = elim a.value [ none ↦ str_eq a.key "" | some _ ↦ false ]

abbrev value_text : Option String → String
value_text none = "<nil>"
value_text (some text) = text

module _ (lib : Library) where
  unfoldable pub new_pretty_handler : lib.Base → PrettyHandler lib
  new_pretty_handler base = record { base = base; attrs = nil }

  abbrev pub level_text : ℤ → String
  level_text level =
      let text = lib.level_string level <> ":" in
      if level ==ℤ level_debug
      then lib.paint magenta text
      else if level ==ℤ level_info
      then lib.paint blue text
      else if level ==ℤ level_warn
      then lib.paint yellow text
      else if level ==ℤ level_error
      then lib.paint red text
      else text

  -- The builder with the attribute behind what it has.
  unfoldable pub append_attr : String → Attr → String
  append_attr b a =
      if is_empty a
      then b
      else (b
          <> (" "
              <> (lib.paint white "["
                  <> (lib.paint hi_white a.key
                      <> (": " <> (value_text a.value <> lib.paint white "]"))))))

  unfoldable pub append_attrs : String → List Attr → String
  append_attrs b [] = b
  append_attrs b (a ∷ attrs) = append_attrs (append_attr b a) attrs

  -- `h.l.Println` puts spaces between its arguments and ends the line.
  unfoldable pub handle : PrettyHandler lib → Record → Output → Output
  handle h r out =
      let b = append_attrs (append_attrs "" (contents out.heap h.attrs)) r.attrs in
      let line =
        lib.paint white (lib.time_string r.time)
        <> (" "
            <> (level_text r.level
                <> (" " <> (lib.paint cyan r.message <> (" " <> (b <> "\n")))))) in
      record out { lines = out.lines ++ line ∷ [] }

  -- The capacity of a new array is the implementation's choice.
  unfoldable pub with_attrs :
      (ℕ → ℕ) → PrettyHandler lib → List Attr → Output → PrettyHandler lib × Output
  with_attrs grow h attrs out =
      let (s, heap) = append grow h.attrs attrs out.heap in
      (record h { attrs = s }, record out { heap = heap })

  unfoldable pub with_group : PrettyHandler lib → String → PrettyHandler lib
  with_group h name = record h { base = lib.base_with_group h.base name }
