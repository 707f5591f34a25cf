-- ===== src/Runtime/Split.antt =====
-- `strings.Split` of package strings for a separator of one character, and `strings.Join`.
use Prim.Native.Char.{Char, code}
use Prim.Native.String.{[], ◌∷◌}
use text.Mathlib.TextLemmas.{nil-append, cons-append}
use sihkaromicro.Prelude.{
  ◌≡◌, ◌≢◌, refl, ap, ◌∙◌, String, ◌<>◌, List, [], ◌∷◌, ◌==◌, if◌then◌else◌, arith, All,
}

abbrev onto_first : Char → List String → List String
onto_first c [] = (c ∷ []) ∷ []
onto_first c (p ∷ ps) = (c ∷ p) ∷ ps

unfoldable pub split : Char → String → List String
split sep [] = [] ∷ []
split sep (c ∷ s) =
    let rest = split sep s in if code c == code sep then [] ∷ rest else onto_first c rest

unfoldable pub join : String → List String → String
join sep [] = ""
join sep (s ∷ []) = s
join sep (s ∷ t ∷ ts) = s <> (sep <> join sep (t ∷ ts))

-- A text without the separator.
unfoldable pub Lacks : Char → String → Type 0
Lacks sep [] = Unit
Lacks sep (c ∷ s) = (code c ≢ code sep) × Lacks sep s

split-plain : (sep : Char) (s : String) → Lacks sep s → split sep s ≡ s ∷ []
unfolding split Lacks
split-plain sep [] h = refl
split-plain sep (c ∷ s) (other, h) = ground (arith, split-plain sep s h)

-- A text without the separator is the first one of the split.
pub split-append :
    (sep : Char) (s t : String) → Lacks sep s → split sep (s <> ((sep ∷ []) <> t)) ≡ s ∷ split sep t
unfolding split Lacks
split-append sep [] t h =
    rw (nil-append ((sep ∷ []) <> t), cons-append sep [] t, nil-append t) (ground arith)
split-append sep (c ∷ s) t (other, h) =
    rw (cons-append c s ((sep ∷ []) <> t)) (ground (arith, split-append sep s t h))

-- Texts without the separator come back when their join is split.
pub split-join :
    (sep : Char) (s : String) (ts : List String)
    → All (Lacks sep) (s ∷ ts)
    → split sep (join (sep ∷ []) (s ∷ ts)) ≡ s ∷ ts
unfolding join
split-join sep s [] (h, hs) = split-plain sep s h
split-join sep s (t ∷ ts) (h, hs) =
    split-append sep s (join (sep ∷ []) (t ∷ ts)) h ∙ ap (λ l. s ∷ l) (split-join sep t ts hs)
