-- ===== src/Base/Strings.antt =====
-- The methods of `str` that the parsers use, on code points.
use Prim.Native.Nat.{ℕ, suc}
use mathlib.Core.Bool.{Bool, true, false, ◌&&◌, ◌||◌}
use mathlib.Core.Option.{Option, none, some}
use mathlib.Core.List.{List, [], ◌∷◌}
use nt204_r11_antn_nguyen_th.Base.Tests.{leb, ◌==◌, if◌then◌else◌}
use nt204_r11_antn_nguyen_th.Base.Lists.{length, all, any}
use nt204_r11_antn_nguyen_th.Base.Texts.{Text, text_eq, is_digit, decimal}

-- The white space of `str.strip()`, `str.split()` and `\s`.
abbrev pub is_space : ℕ → Bool
is_space c =
    leb 9 c && leb c 13
    || leb 28 c && leb c 32
    || c == 133
    || c == 160
    || c == 5760
    || leb 8192 c && leb c 8202
    || c == 8232
    || c == 8233
    || c == 8239
    || c == 8287
    || c == 12288

-- `str.lstrip()`
unfoldable pub lstrip : Text → Text
lstrip [] = []
lstrip (c ∷ cs) = if is_space c then lstrip cs else c ∷ cs

unfoldable pub put_back : ℕ → Text → Text
put_back c [] = if is_space c then [] else c ∷ []
put_back c (d ∷ ds) = c ∷ d ∷ ds

-- `str.rstrip()`
unfoldable pub rstrip : Text → Text
unfolding put_back
rstrip [] = []
rstrip (c ∷ cs) = put_back c (rstrip cs)

-- `str.strip()`
abbrev pub strip : Text → Text
strip t = lstrip (rstrip t)

abbrev push_word : ℕ → Bool → List Text → List Text
push_word c true ws = (c ∷ []) ∷ ws
push_word c false [] = (c ∷ []) ∷ []
push_word c false (w ∷ ws) = (c ∷ w) ∷ ws

-- Whether a word ends before the text.
abbrev ends_word : Text → Bool
ends_word [] = true
ends_word (c ∷ cs) = is_space c

-- `str.split()`
unfoldable pub words : Text → List Text
words [] = []
words (c ∷ cs) = if is_space c then words cs else push_word c (ends_word cs) (words cs)

-- `text[:-1]`
unfoldable pub without_last : Text → Text
without_last [] = []
without_last (c ∷ []) = []
without_last (c ∷ d ∷ ds) = c ∷ without_last (d ∷ ds)

-- `text.endswith` for one character.
unfoldable pub ends_with : ℕ → Text → Bool
ends_with x [] = false
ends_with x (c ∷ []) = c == x
ends_with x (c ∷ d ∷ ds) = ends_with x (d ∷ ds)

-- `text.startswith` for one character.
abbrev pub heads : ℕ → Text → Bool
heads x [] = false
heads x (c ∷ cs) = c == x

-- `text.startswith(prefix)`
unfoldable pub has_prefix : Text → Text → Bool
has_prefix [] t = true
has_prefix (p ∷ ps) [] = false
has_prefix (p ∷ ps) (c ∷ cs) = p == c && has_prefix ps cs

abbrev next_index : Option ℕ → Option ℕ
next_index none = none
next_index (some i) = some (suc i)

-- `text.find` for one character; `none` is -1.
unfoldable pub find_char : ℕ → Text → Option ℕ
find_char x [] = none
find_char x (c ∷ cs) = if c == x then some 0 else next_index (find_char x cs)

abbrev last_index : Bool → Option ℕ → Option ℕ
last_index here (some i) = some (suc i)
last_index true none = some 0
last_index false none = none

-- `text.rfind` for one character; `none` is -1.
unfoldable pub rfind_char : ℕ → Text → Option ℕ
rfind_char x [] = none
rfind_char x (c ∷ cs) = last_index (c == x) (rfind_char x cs)

-- What `text.partition(sep)` returns for one character, with a test for the separator.
pub record Parts : Type 0 where
  pub before : Text
  pub found : Bool
  pub after : Text

abbrev add_before : ℕ → Parts → Parts
add_before c p = record p { before = c ∷ p.before }

unfoldable pub partition : ℕ → Text → Parts
partition sep [] = record { before = []; found = false; after = [] }
partition sep (c ∷ cs) =
    if c == sep
    then record { before = []; found = true; after = cs }
    else add_before c (partition sep cs)

-- `text in words`
abbrev pub one_of : Text → List Text → Bool
one_of t ws = any (λ w. text_eq t w) ws

-- `_is_ascii_digits`: `text.isascii() and text.isdigit()`
unfoldable pub is_ascii_digits : Text → Bool
is_ascii_digits [] = false
is_ascii_digits (c ∷ cs) = all is_digit (c ∷ cs)

-- `int(text)` on ASCII digits; `none` is the `ValueError` for more than 4300 of them.
unfoldable pub int_of : Text → Option ℕ
int_of t = if leb (length t) 4300 then some (decimal t) else none
