-- ===== src/Rules/Parser/Ident/Quoted.antt =====
-- src/rules/parser.py, `unquote_string`: texts that are written between quotes.
use nt204_r11_antn_nguyen_th.Base.{
  ℕ, Bool, true, false, ◌||◌, ◌≡◌, refl, some, [], ◌∷◌, ◌++◌, ◌==◌, if◌then◌else◌, Text, Bool-cases,
  ends_with, without_last, inl, inr, arith,
}
use nt204_r11_antn_nguyen_th.Base.Strip.{without_last-append, ends_with-append}
use nt204_r11_antn_nguyen_th.Rules.Parser.Ident.{
  unescaped, unquote_from, quoted_text, unquoted, unquote_string,
}

-- The characters that have to be escaped.
abbrev pub is_special : ℕ → Bool
is_special c = c == b';' || c == b'"' || c == b'\\'

abbrev pub escaped : ℕ → Text
escaped c = if is_special c then b'\\' ∷ c ∷ [] else c ∷ []

-- A text as a rule writes it between quotes.
unfoldable pub escape : Text → Text
escape [] = []
escape (c ∷ cs) = escaped c ++ escape cs

abbrev pub quote : Text → Text
quote t = b'"' ∷ escape t ++ b'"' ∷ []

unescaped-special : (c : ℕ) → is_special c ≡ true → unescaped c ≡ c ∷ []
unescaped-special c h = rw (h) refl

unquote-escape : (t : Text) → unquote_from false (escape t) ≡ some t
unfolding unquote_from escape
unquote-escape [] = refl
unquote-escape (c ∷ cs) = elim (Bool-cases (is_special c)) [
  | inl e ↦ rw (e, unquote-escape cs, unescaped-special c e) refl
  | inr e ↦
      let plain : (c == b'\\') ≡ false = ground (arith, e) in
      let inner : (c == b'"') ≡ false = ground (arith, e) in
      rw (e, plain, inner, unquote-escape cs) refl
]

-- The text between the quotes.
pub quoted_text-quotes : (xs : Text) → quoted_text (b'"' ∷ xs ++ b'"' ∷ []) ≡ some xs
unfolding quoted_text ends_with without_last
quoted_text-quotes [] = refl
quoted_text-quotes (x ∷ xs) =
    rw (ends_with-append (x ∷ xs) b'"', without_last-append (x ∷ xs) b'"') refl

-- A text that has been written between quotes, with a backslash before every `;`, `"` and
-- backslash, is read back as it was.
unquote_string-quote : (t : Text) → unquote_string (some (quote t)) ≡ some t
unfolding unquote_string unquoted
unquote_string-quote t = rw (quoted_text-quotes (escape t)) (unquote-escape t)
