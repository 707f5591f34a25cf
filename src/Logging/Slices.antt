-- ===== src/Logging/Slices.antt =====
-- Go's slices, as far as sources/pkg/logger/handler/slogpretty.go uses them: arrays that slices
-- share, and `append`, which writes in place where the capacity allows it.
pub mod Laws
use sihkaromicro.Prelude.{ℕ, zero, suc, ◌+◌, List, [], ◌∷◌, ◌++◌, length, leb, ◌==◌, if◌then◌else◌}

-- The arrays made so far are those below `next`.
pub record Heap (A : Type 0) : Type 0 where
  pub next : ℕ
  pub cells : ℕ → ℕ → A

-- A slice starts at the first cell of its array. The nil slice has no capacity.
pub record Slice : Type 0 where
  pub array : ℕ
  pub size : ℕ
  pub cap : ℕ

abbrev pub nil : Slice
nil = record { array = 0; size = 0; cap = 0 }

module _ {A : Type 0} where
  -- The first cells of an array.
  unfoldable pub items : (ℕ → A) → ℕ → List A
  items f zero = []
  items f (suc n) = items f n ++ f n ∷ []

  abbrev pub contents : Heap A → Slice → List A
  contents h s = items (h.cells s.array) s.size

  -- The cells from `i` on are written.
  unfoldable pub put : (ℕ → A) → ℕ → List A → ℕ → A
  put f i [] j = f j
  put f i (x ∷ xs) j = put (λ k. if k == i then x else f k) (suc i) xs j

  abbrev pub write : Heap A → ℕ → (ℕ → A) → Heap A
  write h array cells = record h { cells = λ k. if k == array then cells else h.cells k }

  -- `append(s, xs...)`; the capacity of a new array is the implementation's choice.
  unfoldable pub append : (ℕ → ℕ) → Slice → List A → Heap A → Slice × Heap A
  append grow s xs h =
      let size = s.size + length xs in
      if leb size s.cap
      then (record s { size = size }, write h s.array (put (h.cells s.array) s.size xs))
      else (
        record { array = h.next; size = size; cap = grow size },
        record (write h h.next (put (h.cells s.array) s.size xs)) { next = suc h.next },
      )
