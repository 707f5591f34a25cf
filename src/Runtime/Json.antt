-- ===== src/Runtime/Json.antt =====
-- `json.Marshal` of a flat struct of texts and integers (package encoding/json, with its HTML
-- escapes): `{"key":value,…}`. Every text is valid UTF-8 here, so no replacement is made.
use Prim.Native.Char.{Char, code}
use Prim.Native.String.{[], ◌∷◌}
use sihkaromicro.Prelude.{ℕ, ℤ, ◌/◌, ◌%◌, String, ◌<>◌, List, ltb, ◌==◌, if◌then◌else◌}
use sihkaromicro.Runtime.Decimal.{digit, show_ℤ}

pub data Value : Type 0 where
  text : String → Value
  number : ℤ → Value

hex_digit : ℕ → Char
hex_digit n =
    if ltb n 10
    then digit n
    else if n == 10
    then "a"
    else if n == 11
    then "b"
    else if n == 12
    then "c"
    else if n == 13
    then "d"
    else if n == 14
    then "e"
    else "f"

-- `\u00XX`
unicode_escape : ℕ → String
unfolding hex_digit
unicode_escape n = "\\u00" <> (hex_digit (n / 16) ∷ hex_digit (n % 16) ∷ [])

escape_char : Char → String → String
unfolding unicode_escape
escape_char c rest =
    let n = code c in
    if n == 34
    then "\\\"" <> rest
    else if n == 92
    then "\\\\" <> rest
    else if n == 8
    then "\\b" <> rest
    else if n == 12
    then "\\f" <> rest
    else if n == 10
    then "\\n" <> rest
    else if n == 13
    then "\\r" <> rest
    else if n == 9
    then "\\t" <> rest
    else if ltb n 32
    then unicode_escape n <> rest
    else if n == 60
    then unicode_escape n <> rest
    else if n == 62
    then unicode_escape n <> rest
    else if n == 38
    then unicode_escape n <> rest
    else if n == 8232
    then "\\u2028" <> rest
    else if n == 8233
    then "\\u2029" <> rest
    else c ∷ rest

escape : String → String
unfolding escape_char
escape [] = []
escape (c ∷ s) = escape_char c (escape s)

quote : String → String
unfolding escape
quote s = "\"" <> (escape s <> "\"")

render : Value → String
unfolding quote show_ℤ
render (text s) = quote s
render (number n) = show_ℤ n

members : List (String × Value) → String
unfolding render
members List.[] = ""
members (List.◌∷◌ (k, v) List.[]) = quote k <> (":" <> render v)
members (List.◌∷◌ (k, v) more) = quote k <> (":" <> (render v <> ("," <> members more)))

unfoldable pub marshal : List (String × Value) → String
unfolding members
marshal fields = "{" <> (members fields <> "}")
