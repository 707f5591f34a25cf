-- ===== src/Runtime/Text.antt =====
-- `strings.TrimPrefix` of package strings.
use Prim.Native.Char.{code}
use Prim.Native.String.{[], ◌∷◌}
use text.Mathlib.TextLemmas.{nil-append, cons-append}
use sihkaromicro.Prelude.{◌≡◌, refl, String, ◌<>◌, Option, none, some, ◌==◌, if◌then◌else◌, arith}

-- The rest of a text behind a prefix, if it has that prefix.
strip_prefix? : String → String → Option String
strip_prefix? s [] = some s
strip_prefix? [] (c ∷ p) = none
strip_prefix? (d ∷ s) (c ∷ p) =
    let rest = strip_prefix? s p in if code d == code c then rest else none

abbrev or_whole : Option String → String → String
or_whole none s = s
or_whole (some rest) s = rest

unfoldable pub trim_prefix : String → String → String
unfolding strip_prefix?
trim_prefix s prefix = or_whole (strip_prefix? s prefix) s

strip_prefix?-append : (p s : String) → strip_prefix? (p <> s) p ≡ some s
unfolding strip_prefix?
strip_prefix?-append [] s = rw (nil-append s)
strip_prefix?-append (c ∷ p) s = rw (cons-append c p s) (ground (arith, strip_prefix?-append p s))

-- What stands behind a prefix comes back when the prefix is trimmed.
pub trim_prefix-append : (p s : String) → trim_prefix (p <> s) p ≡ s
unfolding trim_prefix
trim_prefix-append p s = rw (strip_prefix?-append p s)

trim_examples : trim_prefix "Bearer abc" "Bearer " <> trim_prefix "Basic x" "Bearer " ≡ "abcBasic x"
unfolding trim_prefix
trim_examples = refl
