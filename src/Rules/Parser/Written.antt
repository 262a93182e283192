-- ===== src/Rules/Parser/Written.antt =====
-- src/rules/parser.py, `_split_options`: options that are written with quoted values.
use nt204_r11_antn_nguyen_th.Base.{
  ℕ, suc, Bool, true, false, not, ◌&&◌, ◌≡◌, refl, ap, ◌∙◌, sym, Option, some, List, [], ◌∷◌, ◌++◌,
  append_assoc, map, length, ltb, all, All, ◌==◌, if◌then◌else◌, Text, is_space, strip, lstrip,
  rstrip, Bool-cases, inl, inr, arith,
}
use nt204_r11_antn_nguyen_th.Base.Strip.{strip-append, strip-solid, partition-append}
use nt204_r11_antn_nguyen_th.Rules.Syntax.{Result, ok, raise_if}
use nt204_r11_antn_nguyen_th.Rules.Parser.Tokens.{
  OptionPair, push_some, scan_options, read_pieces, read_scanned, split_options, malformed,
}
use nt204_r11_antn_nguyen_th.Rules.Parser.Ident.Quoted.{is_special, escape, quote}

-- A text in front of the first piece.
push_text : Text → Option (List Text) → Option (List Text)
push_text [] o = o
push_text (c ∷ cs) o = push_some c (push_text cs o)

push_text-some :
    (xs p : Text) (ps : List Text) → push_text xs (some (p ∷ ps)) ≡ some ((xs ++ p) ∷ ps)
unfolding push_text
push_text-some [] p ps = refl
push_text-some (x ∷ xs) p ps = rw (push_text-some xs p ps) refl

-- A character of a key: no space, and none that the scanner looks at.
abbrev pub is_key_char : ℕ → Bool
is_key_char c = not (is_space c) && not (is_special c) && not (c == b':')

abbrev pub is_key : Text → Bool
is_key k = ltb 0 (length k) && all is_key_char k

scan_options-key :
    (k rest : Text)
    → all is_key_char k ≡ true
    → scan_options false false (k ++ rest) ≡ push_text k (scan_options false false rest)
unfolding scan_options push_text
scan_options-key [] rest h = refl
scan_options-key (c ∷ cs) rest h =
    let plain : (c == b'\\') ≡ false = ground (arith, h) in
    let inner : (c == b'"') ≡ false = ground (arith, h) in
    let on : (c == b';') ≡ false = ground (arith, h) in
    rw (plain, inner, on, scan_options-key cs rest (ground (arith, h))) refl

scan_options-escape :
    (t rest : Text)
    → scan_options false true (escape t ++ rest)
      ≡ push_text (escape t) (scan_options false true rest)
unfolding scan_options push_text escape
scan_options-escape [] rest = refl
scan_options-escape (c ∷ cs) rest = elim (Bool-cases (is_special c)) [
  | inl e ↦ rw (e, scan_options-escape cs rest) refl
  | inr e ↦
      let plain : (c == b'\\') ≡ false = ground (arith, e) in
      let inner : (c == b'"') ≡ false = ground (arith, e) in
      let on : (c == b';') ≡ false = ground (arith, e) in
      rw (e, plain, inner, on, scan_options-escape cs rest) refl
]

-- The text of an option whose value is quoted.
abbrev pub piece : Text → Text → Text
piece k v = k ++ (b':' ∷ quote v)

-- Options as a rule writes them, each with a `;` at its end.
unfoldable pub write_options : List (Text × Text) → Text
write_options [] = []
write_options ((k, v) ∷ os) = k ++ (b':' ∷ b'"' ∷ escape v ++ b'"' ∷ b';' ∷ write_options os)

scan_options-value :
    (v rest : Text) (ps : List Text)
    → scan_options false false rest ≡ some ps
    → scan_options false false (b':' ∷ b'"' ∷ escape v ++ b'"' ∷ b';' ∷ rest)
      ≡ some ((b':' ∷ quote v) ∷ ps)
unfolding scan_options
scan_options-value v rest ps e =
    rw (scan_options-escape v (b'"' ∷ b';' ∷ rest), e, push_text-some (escape v) (b'"' ∷ []) ps)
      refl

scan_options-piece :
    (k v rest : Text) (ps : List Text)
    → all is_key_char k ≡ true
    → scan_options false false rest ≡ some ps
    → scan_options false false (k ++ (b':' ∷ b'"' ∷ escape v ++ b'"' ∷ b';' ∷ rest))
      ≡ some (piece k v ∷ ps)
unfolding push_text
scan_options-piece k v rest ps h e =
    scan_options-key k _ h
    ∙ ap (push_text k) (scan_options-value v rest ps e)
    ∙ push_text-some k (b':' ∷ quote v) ps

and-left : (a b : Bool) → (a && b) ≡ true → a ≡ true
and-left true b h = refl
and-left false b h = h

and-right : (a b : Bool) → (a && b) ≡ true → b ≡ true
and-right true b h = h
and-right false b h = cc

all-weaken :
    (p q : ℕ → Bool) (cs : Text)
    → ((c : ℕ) → p c ≡ true → q c ≡ true)
    → all p cs ≡ true
    → all q cs ≡ true
all-weaken p q [] f h = refl
all-weaken p q (c ∷ cs) f h =
    rw (f c (and-left (p c) (all p cs) h)) (all-weaken p q cs f (and-right (p c) (all p cs) h))

key-colon : (k : Text) → all is_key_char k ≡ true → all (λ c. not (c == b':')) k ≡ true
key-colon k h =
    all-weaken is_key_char _ k
      (λ c e. and-right (not (is_space c) && not (is_special c)) (not (c == b':')) e) h

key-solid : (k : Text) → all is_key_char k ≡ true → all (λ c. not (is_space c)) k ≡ true
key-solid k h =
    all-weaken is_key_char _ k
      (λ c e.
        and-left (not (is_space c)) (not (is_special c))
          (and-left (not (is_space c) && not (is_special c)) (not (c == b':')) e))
      h

first-solid : (c : ℕ) (cs : Text) → all (λ c. not (is_space c)) (c ∷ cs) ≡ true → is_space c ≡ false
first-solid c cs h = negated (is_space c) (and-left (not (is_space c)) _ h)
  where
    negated : (b : Bool) → not b ≡ true → b ≡ false
    negated true h = cc
    negated false h = refl

-- Neither the piece nor its key is empty.
raise_none :
    (n m : ℕ) (a b : Result (List OptionPair))
    → (if suc n == 0 then a else raise_if (suc m == 0) malformed b) ≡ b
unfolding raise_if
raise_none n m a b = ground arith

strip-piece :
    (c : ℕ) (cs v : Text) → is_space c ≡ false → strip (piece (c ∷ cs) v) ≡ piece (c ∷ cs) v
strip-piece c cs v h =
    rw (sym (append_assoc cs (b':' ∷ b'"' ∷ escape v) (b'"' ∷ [])))
      (strip-append c (cs ++ b':' ∷ b'"' ∷ escape v) b'"' h refl)

-- Such an option is read back.
read_piece :
    (k v : Text) (ps : List Text) (os : List OptionPair)
    → is_key k ≡ true
    → read_pieces ps ≡ ok os
    → read_pieces (piece k v ∷ ps) ≡ ok ((k, some (quote v)) ∷ os)
unfolding read_pieces
read_piece [] v ps os h e = cc
read_piece (c ∷ cs) v ps os h e =
    let chars = and-right (ltb 0 (length (c ∷ cs))) (all is_key_char (c ∷ cs)) h in
    let whole = strip-piece c cs v (first-solid c cs (key-solid (c ∷ cs) chars)) in
    let parts = partition-append b':' (c ∷ cs) (quote v) (key-colon (c ∷ cs) chars) in
    let key = strip-solid (c ∷ cs) (key-solid (c ∷ cs) chars) in
    let value = strip-append b'"' (escape v) b'"' refl refl in
    rw (whole, parts, key, value, e) (raise_none (length (cs ++ (b':' ∷ quote v))) (length cs) _ _)

-- The keys of options.
abbrev pub Keys : List (Text × Text) → Type 0
Keys = All (λ o. is_key o.0 ≡ true)

-- What the tokenizer makes of options whose values are quoted.
abbrev pub quoted_options : List (Text × Text) → List OptionPair
quoted_options = map (λ o. (o.0, some (quote o.1)))

read_options :
    (os : List (Text × Text))
    → Keys os
    → (ps : List Text) × (scan_options false false (write_options os) ≡ some ps)
      × (read_pieces ps ≡ ok (quoted_options os))
unfolding write_options scan_options read_pieces lstrip rstrip
read_options [] h = ([] ∷ [], refl, refl)
read_options ((k, v) ∷ os) h =
    let (ps, scanned, read) = read_options os h.1 in
    (
      piece k v ∷ ps,
      scan_options-piece k v (write_options os) ps
          (and-right (ltb 0 (length k)) (all is_key_char k) h.0) scanned,
      read_piece k v ps (quoted_options os) h.0 read,
    )

-- Options that are written one after the other, with keys that hold no space, colon, quote,
-- semicolon or backslash and with any texts as quoted values, come out of the tokenizer as they were.
pub split_options-write_options :
    (os : List (Text × Text)) → Keys os → split_options (write_options os) ≡ ok (quoted_options os)
unfolding split_options read_scanned
split_options-write_options os h = let (ps, scanned, read) = read_options os h in rw (scanned) read
