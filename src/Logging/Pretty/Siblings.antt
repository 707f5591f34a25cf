-- ===== src/Logging/Pretty/Siblings.antt =====
-- Two loggers that are made from one: when the second changes what the first writes.
use sihkaromicro.Prelude.{
  ℕ, ◌+◌, ◌≤◌, ◌<◌, ◌≡◌, ap, ◌∙◌, inl, inr, List, [], ◌∷◌, ◌++◌, arith, length,
}
use sihkaromicro.Logging.Slices.{Heap, Slice, contents, append}
use sihkaromicro.Logging.Slices.Laws.{IsIn, contents-append, contents-append_other, append-IsIn}
use sihkaromicro.Logging.Pretty.{Attr, Library, PrettyHandler, Output, with_attrs}

-- In place, the slice does not depend on the item.
append-one :
    (grow : ℕ → ℕ) (s : Slice) (x y : Attr) (h h' : Heap Attr)
    → s.size < s.cap
    → (append grow s (x ∷ []) h).0 ≡ (append grow s (y ∷ []) h').0
unfolding append
append-one grow s x y h h' room = ground arith

module _ (lib : Library) (grow : ℕ → ℕ) (h : PrettyHandler lib) (out : Output)
    (inside : IsIn out.heap h.attrs) where
  -- Where the slice of a handler is full, as that of the root is, two handlers made from it with
  -- attributes keep apart: the first one has its own attributes after the second is made.
  pub siblings_apart :
      ((n : ℕ) → n ≤ grow n)
      → (xs ys : List Attr) → h.attrs.size ≡ h.attrs.cap
      → 1 ≤ length xs
      → 1 ≤ length ys
      → let (first, out₁) = with_attrs lib grow h xs out in
        let (second, out₂) = with_attrs lib grow h ys out₁ in
        (contents out₂.heap first.attrs ≡ contents out.heap h.attrs ++ xs)
        × (contents out₂.heap second.attrs ≡ contents out.heap h.attrs ++ ys)
  unfolding with_attrs
  siblings_apart enough xs ys full some_xs some_ys =
      let (s, heap) = append grow h.attrs xs out.heap in
      let over : h.attrs.cap < h.attrs.size + length ys = omega arith in
      let over' : h.attrs.cap < h.attrs.size + length xs = omega arith in
      (
        contents-append_other grow h.attrs ys heap s
              (append-IsIn grow h.attrs xs out.heap enough inside) (inr over)
            ∙ contents-append grow h.attrs xs out.heap,
        contents-append grow h.attrs ys heap
            ∙ ap (λ t. t ++ ys)
                (contents-append_other grow h.attrs xs out.heap h.attrs inside (inr over')),
      )

  -- Where the slice of a handler has room, the second of two handlers made from it with one attribute
  -- each puts its attribute into the place of the first one's.
  pub siblings_mixed :
      (x y : Attr)
      → h.attrs.size < h.attrs.cap
      → let (first, out₁) = with_attrs lib grow h (x ∷ []) out in
        let (second, out₂) = with_attrs lib grow h (y ∷ []) out₁ in
        contents out₂.heap first.attrs ≡ contents out.heap h.attrs ++ y ∷ []
  unfolding with_attrs
  siblings_mixed x y room =
      let heap = (append grow h.attrs (x ∷ []) out.heap).1 in
      let heap' = (append grow h.attrs (y ∷ []) heap).1 in
      ap (contents heap') (append-one grow h.attrs x y out.heap heap room)
      ∙ contents-append grow h.attrs (y ∷ []) heap
      ∙ ap (λ t. t ++ y ∷ [])
          (contents-append_other grow h.attrs (x ∷ []) out.heap h.attrs inside
            (inl (inr (omega arith))))
