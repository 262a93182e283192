-- ===== src/Rules/Parser/Tokens.antt =====
-- src/rules/parser.py, `tokenize_rule` and `_split_options`.
pub mod Errors
use nt204_r11_antn_nguyen_th.Base.{
  ℕ, suc, ◌+◌, ◌-◌, Bool, true, false, not, ◌&&◌, ◌||◌, Option, none, some, List, [], ◌∷◌, length,
  take, drop, ltb, leb, ◌==◌, if◌then◌else◌, Text, codes, strip, words, find_char, rfind_char,
  Parts, partition,
}
use nt204_r11_antn_nguyen_th.Rules.Syntax.{Reason, invalid, Result, ok, err, raise_if, ◌>>=◌}

abbrev pub header_token_count : ℕ
header_token_count = 7

abbrev pub OptionPair : Type 0
OptionPair = Text × Option Text

unfoldable pub malformed : Reason
malformed = invalid (codes "malformed_rule")

unfoldable pub bad_header : Reason
bad_header = invalid (codes "bad_header")

abbrev pub push : ℕ → List Text → List Text
push c [] = (c ∷ []) ∷ []
push c (p ∷ ps) = (c ∷ p) ∷ ps

abbrev pub push_some : ℕ → Option (List Text) → Option (List Text)
push_some c none = none
push_some c (some ps) = some (push c ps)

abbrev pub new_piece : Option (List Text) → Option (List Text)
new_piece none = none
new_piece (some ps) = some ([] ∷ ps)

-- The loop of `_split_options`: the pieces between the delimiters, or `none` for an open quote.
-- `escaped` holds behind a backslash that is not escaped itself, where the loop takes two
-- characters at once.
unfoldable pub scan_options : Bool → Bool → Text → Option (List Text)
scan_options escaped quoted [] = if quoted then none else some ([] ∷ [])
scan_options escaped quoted (c ∷ cs) =
    let plain = not escaped in
    let quoted' = if plain && c == b'"' then not quoted else quoted in
    let rest = scan_options (plain && c == b'\\') quoted' cs in
    if plain && c == b';' && not quoted then new_piece rest else push_some c rest

-- The value of an option, `none` for a bare keyword.
abbrev pub value_of : Parts → Option Text
value_of p = if p.found then some (strip p.after) else none

-- `for piece in pieces`
unfoldable pub read_pieces : List Text → Result (List OptionPair)
read_pieces [] = ok []
read_pieces (p ∷ ps) =
    let rest = read_pieces ps in
    let parts = partition b':' (strip p) in
    let key = strip parts.before in
    if length (strip p) == 0
    then rest
    else raise_if (length key == 0) malformed (rest >>= λ os. ok ((key, value_of parts) ∷ os))

unfoldable pub read_scanned : Option (List Text) → Result (List OptionPair)
read_scanned none = err malformed
read_scanned (some ps) = read_pieces ps

-- `_split_options`
unfoldable pub split_options : Text → Result (List OptionPair)
unfolding read_scanned
split_options body = read_scanned (scan_options false false body)

-- The header and the body, cut at the first "(" and the last ")".
unfoldable pub cut_rule : Text → Option ℕ → Option ℕ → Result (Text × Text)
cut_rule text none _ = err malformed
cut_rule text (some i) none = err malformed
cut_rule text (some i) (some j) =
    raise_if (ltb j i || ltb 0 (length (strip (drop (suc j) text)))) malformed
      (ok (take i text, drop (suc i) (take j text)))

-- The pair of header tokens and options.
unfoldable pub tokenize_rule : Text → Result (List Text × List OptionPair)
unfolding cut_rule
tokenize_rule line = do
  let text = strip line
  (header, body) ← cut_rule text (find_char b'(' text) (rfind_char b')' text)
  options ← split_options body
  raise_if (not (length (words header) == header_token_count)) bad_header
      (ok (words header, options))
