-- ===== src/Logging/Slices/Laws.antt =====
-- What `append` gives, and what it does to the other slices.
use sihkaromicro.Prelude.{
  append_assoc, append_nil, ℕ, zero, suc, ◌+◌, ◌≤◌, ◌<◌, ◌≡◌, ◌≢◌, refl, ap, sym, ◌∙◌, ◌⊎◌, inl,
  inr, List, [], ◌∷◌, ◌++◌, length, leb, ◌==◌, arith, if◌then◌else◌, Bool-cases,
}
use sihkaromicro.Logging.Slices.{Heap, Slice, items, contents, put, append}

-- A slice whose array exists and whose size is within its capacity; a nil slice has no array.
pub record IsIn {A : Type 0} (h : Heap A) (s : Slice) : Type 0 where
  pub fits : s.size ≤ s.cap
  pub exists : (s.array < h.next) ⊎ (s.cap ≡ 0)

module _ {A : Type 0} where
  put-below : (f : ℕ → A) (i : ℕ) (xs : List A) (j : ℕ) → j < i → put f i xs j ≡ f j
  unfolding put
  put-below f i [] j h = refl
  put-below f i (x ∷ xs) j h =
      ground (arith, put-below (λ k. if k == i then x else f k) (suc i) xs j (omega arith))

  items-same : (f g : ℕ → A) (n : ℕ) → ((j : ℕ) → j < n → f j ≡ g j) → items f n ≡ items g n
  unfolding items
  items-same f g zero h = refl
  items-same f g (suc n) h =
      rw (items-same f g n (λ j l. h j (omega arith)), h n (omega arith)) refl

  items-put :
      (f : ℕ → A) (i : ℕ) (xs : List A) → items (put f i xs) (i + length xs) ≡ items f i ++ xs
  unfolding put items
  items-put f i [] =
      let none_more : i + length {A = A} [] ≡ i = omega arith in
      ap (items (put f i [])) none_more
      ∙ items-same (put f i []) f i (λ j l. refl)
      ∙ sym (append_nil (items f i))
  items-put f i (x ∷ xs) =
      let g = λ (k : ℕ). if k == i then x else f k in
      let before : items g i ≡ items f i = items-same g f i (λ j l. ground arith) in
      let here : g i ≡ x = ground arith in
      let one : items g (suc i) ≡ items f i ++ x ∷ [] =
        ap (λ t. t ++ g i ∷ []) before ∙ ap (λ t. items f i ++ t ∷ []) here in
      let longer : i + length (x ∷ xs) ≡ suc i + length xs = omega arith in
      ap (items (put f i (x ∷ xs))) longer
      ∙ items-same _ (put g (suc i) xs) (suc i + length xs) (λ j l. refl)
      ∙ items-put g (suc i) xs
      ∙ ap (λ t. t ++ xs) one
      ∙ append_assoc (items f i) (x ∷ []) xs

  module _ (grow : ℕ → ℕ) (s : Slice) (xs : List A) (h : Heap A) where
    -- The result holds what the slice held, and then the new items.
    pub contents-append : let (s', h') = append grow s xs h in contents h' s' ≡ contents h s ++ xs
    unfolding append
    contents-append = elim (Bool-cases (leb (s.size + length xs) s.cap)) [
      | inl room ↦ rw room (
          items-same _ (put (h.cells s.array) s.size xs) (s.size + length xs) (λ j l. ground arith)
          ∙ items-put (h.cells s.array) s.size xs)
      | inr full ↦ rw full (
          items-same _ (put (h.cells s.array) s.size xs) (s.size + length xs) (λ j l. ground arith)
          ∙ items-put (h.cells s.array) s.size xs)
    ]

    -- A slice that does not reach past the end of `s` in its array holds what it held.
    pub contents-append_other :
        (t : Slice)
        → IsIn h t
        → ((t.array ≢ s.array) ⊎ (t.size ≤ s.size)) ⊎ (s.cap < s.size + length xs)
        → contents (append grow s xs h).1 t ≡ contents h t
    unfolding append
    contents-append_other t inside apart =
        let fits = inside.fits in
        let exists = inside.exists in
        elim (Bool-cases (leb (s.size + length xs) s.cap)) [
          | inl room ↦ rw room (
              items-same _ (h.cells t.array) t.size
                (λ j l. ground (arith, put-below (h.cells s.array) s.size xs j)))
          | inr full ↦ rw full (items-same _ (h.cells t.array) t.size (λ j l. ground arith))
        ]

    pub append-IsIn :
        ((n : ℕ) → n ≤ grow n) → IsIn h s → let (s', h') = append grow s xs h in IsIn h' s'
    unfolding append
    append-IsIn enough inside =
        let fits = inside.fits in
        let exists = inside.exists in
        elim (Bool-cases (leb (s.size + length xs) s.cap)) [
          | inl room ↦ rw room (record { fits = ground arith; exists = exists })
          | inr full ↦
              rw full (record { fits = enough (s.size + length xs); exists = inl (omega arith) })
        ]
