-- ===== src/Runtime/Decimal/Reading.antt =====
-- An integer is read back from its decimal digits.
use Prim.Native.Char.{Char, code}
use Prim.Native.String.{[], ◌∷◌}
use text.Mathlib.TextLemmas.{nil-append, cons-append}
use sihkaromicro.Prelude.{
  ℕ, ℤ, pos, negsuc, zero, suc, ◌+◌, ◌-◌, ◌*◌, ◌/◌, ◌%◌, ◌<◌, ◌≡◌, ◌≢◌, refl, ap, ◌∙◌, String, ltb,
  ◌==◌, if◌then◌else◌, inl, inr, Bool-cases, arith,
}
use sihkaromicro.Runtime.Decimal.{digit, digits, show_ℕ, show_ℤ}
use sihkaromicro.Runtime.Split.{Lacks}

-- The number of the digits after `before`.
read : ℕ → String → ℕ
read before [] = before
read before (c ∷ s) = read (before * 10 + (code c - 48)) s

code-digit : (n : ℕ) → n < 10 → code (digit n) ≡ 48 + n
code-digit zero h = refl
code-digit (suc zero) h = refl
code-digit (suc (suc zero)) h = refl
code-digit (suc (suc (suc zero))) h = refl
code-digit (suc (suc (suc (suc zero)))) h = refl
code-digit (suc (suc (suc (suc (suc zero))))) h = refl
code-digit (suc (suc (suc (suc (suc (suc zero)))))) h = refl
code-digit (suc (suc (suc (suc (suc (suc (suc zero))))))) h = refl
code-digit (suc (suc (suc (suc (suc (suc (suc (suc zero)))))))) h = refl
code-digit (suc (suc (suc (suc (suc (suc (suc (suc (suc zero))))))))) h = refl
code-digit (suc (suc (suc (suc (suc (suc (suc (suc (suc (suc n)))))))))) h = absurd (ground arith)

read-digits : (fuel n : ℕ) (rest : String) → n < fuel → read 0 (digits fuel n rest) ≡ read n rest
unfolding read digits
read-digits zero n rest h = absurd (ground arith)
read-digits (suc fuel) n rest h = elim (Bool-cases (ltb n 10)) [
  | inl one ↦ ground (arith, code-digit n)
  | inr more ↦
      let less : n / 10 < fuel = ground arith in
      ground (arith, read-digits fuel (n / 10) (digit (n % 10) ∷ rest) less, code-digit (n % 10))
]

Lacks-digits :
    (sep : Char) (fuel n : ℕ) (rest : String)
    → code sep < 48
    → n < fuel
    → Lacks sep rest
    → Lacks sep (digits fuel n rest)
unfolding digits Lacks
Lacks-digits sep zero n rest low h lacks = absurd (ground arith)
Lacks-digits sep (suc fuel) n rest low h lacks = elim (Bool-cases (ltb n 10)) [
  | inl one ↦
      let apart : code (digit n) ≢ code sep = ground (arith, code-digit n) in rw one (apart, lacks)
  | inr more ↦
      let less : n / 10 < fuel = ground arith in
      let apart : code (digit (n % 10)) ≢ code sep = ground (arith, code-digit (n % 10)) in
      rw more (Lacks-digits sep fuel (n / 10) (digit (n % 10) ∷ rest) low less (apart, lacks))
]

Lacks-show_ℕ : (sep : Char) (n : ℕ) → code sep < 48 → Lacks sep (show_ℕ n)
unfolding show_ℕ Lacks
Lacks-show_ℕ sep n low = Lacks-digits sep (suc n) n [] low (ground arith) tt

-- The integer that a text shows.
unfoldable pub read_ℤ : String → ℤ
unfolding read
read_ℤ [] = pos 0
read_ℤ (c ∷ s) = if code c == 45 then negsuc (read 0 s - 1) else pos (read 0 (c ∷ s))

read_positive : (s : String) → Lacks "-" s → read_ℤ s ≡ pos (read 0 s)
unfolding read_ℤ Lacks read
read_positive [] h = refl
read_positive (c ∷ s) (other, h) = ground arith

read-show_ℕ : (n : ℕ) → read 0 (show_ℕ n) ≡ n
unfolding show_ℕ read
read-show_ℕ n = read-digits (suc n) n [] (ground arith)

-- An integer comes back from its decimal digits.
pub read_ℤ-show_ℤ : (i : ℤ) → read_ℤ (show_ℤ i) ≡ i
unfolding show_ℤ read_ℤ
read_ℤ-show_ℤ (pos n) =
    read_positive (show_ℕ n) (Lacks-show_ℕ "-" n (ground arith)) ∙ ap pos (read-show_ℕ n)
read_ℤ-show_ℤ (negsuc n) =
    rw (cons-append "-" [] (show_ℕ (suc n)), nil-append (show_ℕ (suc n)))
      (ap (λ m. negsuc (m - 1)) (read-show_ℕ (suc n)) ∙ ap negsuc (ground arith))

pub Lacks-show_ℤ : (sep : Char) (i : ℤ) → code sep < 48 → code sep ≢ 45 → Lacks sep (show_ℤ i)
unfolding show_ℤ Lacks
Lacks-show_ℤ sep (pos n) low other = Lacks-show_ℕ sep n low
Lacks-show_ℤ sep (negsuc n) low other =
    let apart : 45 ≢ code sep = ground arith in
    rw (cons-append "-" [] (show_ℕ (suc n)), nil-append (show_ℕ (suc n)))
      (apart, Lacks-show_ℕ sep (suc n) low)
