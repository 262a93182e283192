-- ===== src/Rules/Parser/Header/Ports.antt =====
-- src/rules/parser.py, `parse_port`: the range of two numbers.
use nt204_r11_antn_nguyen_th.Base.{
  ℕ, suc, ◌≢◌, Bool, true, false, not, ◌&&◌, ◌≡◌, refl, ◌∙◌, Option, none, some, [], ◌∷◌, ◌++◌,
  length, leb, all, any, ◌==◌, if◌then◌else◌, Text, codes, text_eq, is_digit, decimal,
  is_ascii_digits, int_of, arith,
}
use nt204_r11_antn_nguyen_th.Base.Strip.{partition-append}
use nt204_r11_antn_nguyen_th.Models.Rule.{PortSpec, port_max}
use nt204_r11_antn_nguyen_th.Rules.Syntax.{Result, ok, err, raise_if}
use nt204_r11_antn_nguyen_th.Rules.Parser.Header.{
  bad_port, is_unsupported_syntax, port_number, port_range, port_parts, parse_port,
}

-- A number as `int` takes it.
abbrev pub is_number : Text → Bool
is_number t = is_ascii_digits t && leb (length t) 4300

digits-colon : (t : Text) → all is_digit t ≡ true → all (λ c. not (c == b':')) t ≡ true
digits-colon [] h = refl
digits-colon (c ∷ cs) h = ground (arith, h, digits-colon cs)

digits-any : (t : Text) → all is_digit t ≡ true → any (λ c. c == b':') t ≡ false
digits-any [] h = refl
digits-any (c ∷ cs) h = ground (arith, h, digits-any cs)

port_number-number :
    (t : Text) (d : Option ℕ) → is_number t ≡ true → port_number t d ≡ some (decimal t)
unfolding port_number is_ascii_digits int_of
port_number-number [] d h = cc
port_number-number (c ∷ cs) none h = ground (arith, h)
port_number-number (c ∷ cs) (some n) h = ground (arith, h)

range_if :
    (b : Bool) (spec : PortSpec)
    → raise_if (not b) bad_port (ok spec) ≡ (if b then ok spec else err bad_port)
unfolding raise_if
range_if true spec = refl
range_if false spec = refl

raise_no : {A : Type 0} (n m : ℕ) (a : Result A) → raise_if (suc n == 0 && m == 0) bad_port a ≡ a
unfolding raise_if
raise_no n m a = ground arith

number-digits : (t : Text) → is_number t ≡ true → all is_digit t ≡ true
unfolding is_ascii_digits
number-digits [] h = refl
number-digits (c ∷ cs) h = ground (arith, h)

no_number : is_number [] ≢ true
unfolding is_ascii_digits
no_number h = cc

digit-any : (c : ℕ) (t : Text) → is_digit c ≡ true → text_eq (c ∷ t) (codes "any") ≡ false
unfolding text_eq
digit-any c t h = ground (arith, h)

digit-syntax : (c : ℕ) (t : Text) → is_digit c ≡ true → is_unsupported_syntax (c ∷ t) ≡ false
digit-syntax c t h = ground (arith, h)

first-digit : (c : ℕ) (cs : Text) → is_number (c ∷ cs) ≡ true → is_digit c ≡ true
first-digit c cs h = ground (arith, number-digits (c ∷ cs) h)

-- Two numbers with a colon between them are a range, if the first is at most the second and the
-- second at most 65535; else the token is rejected.
parse_port-range :
    (lo hi : Text)
    → is_number lo ≡ true
    → is_number hi ≡ true
    → parse_port (lo ++ b':' ∷ hi) ≡ (
        if leb (decimal lo) (decimal hi) && leb (decimal hi) port_max
        then ok (record { lo = decimal lo; hi = decimal hi })
        else err bad_port)
unfolding parse_port port_parts port_range raise_if
parse_port-range [] hi h k = absurd (no_number h)
parse_port-range (c ∷ cs) hi h k =
    let digit = first-digit c cs h in
    rw
      (
        digit-any c (cs ++ b':' ∷ hi) digit,
        digit-syntax c (cs ++ b':' ∷ hi) digit,
        partition-append b':' (c ∷ cs) hi (digits-colon (c ∷ cs) (number-digits (c ∷ cs) h)),
        digits-any hi (number-digits hi k),
        port_number-number (c ∷ cs) (some 0) h,
        port_number-number hi (some port_max) k,
      )
      (raise_no (length cs) (length hi) _
        ∙ range_if (leb (decimal (c ∷ cs)) (decimal hi) && leb (decimal hi) port_max) _)
