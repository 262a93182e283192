-- ===== src/Rules/Parser/Ident/Bounds.antt =====
-- src/rules/parser.py: the numbers of an identification have 32 bits and are positive.
use nt204_r11_antn_nguyen_th.Base.{
  ℕ, Bool, true, not, ◌&&◌, ◌≤◌, ◌≡◌, Option, none, some, List, [], ◌∷◌, leb, Text, codes, text_eq,
  one_of, int_of, arith,
}
use nt204_r11_antn_nguyen_th.Models.Rule.{option_ok}
use nt204_r11_antn_nguyen_th.Rules.Syntax.{invalid, need}
use nt204_r11_antn_nguyen_th.Rules.Syntax.Returns.{
  Returns, ok-Returns, raise_if-Returns, cond-Returns, bind-Returns, set-Returns, returned_lem,
  need-ok,
}
use nt204_r11_antn_nguyen_th.Rules.Parser.Tokens.{OptionPair}
use nt204_r11_antn_nguyen_th.Rules.Parser.Ident.{
  max_option_int, identification_keywords, passive_keywords, bad_value, duplicate, at_most,
  unquote_string, positive_int, class_name, Found, set_option, identify, identify_all,
  nothing_found, Identification, parse_identification,
}

-- A positive number of 32 bits.
abbrev pub is_option_int : ℕ → Bool
is_option_int n = leb 1 n && leb n max_option_int

at_most-bounds :
    (low high : ℕ) (o : Option ℕ) (n : ℕ)
    → at_most low high o ≡ some n
    → (leb low n && leb n high) ≡ true
at_most-bounds low high none n h = cc
at_most-bounds low high (some m) n h = ground (arith, h)

pub positive_int-bounds :
    (value : Option Text) (n : ℕ) → positive_int value ≡ some n → is_option_int n ≡ true
unfolding positive_int
positive_int-bounds none n h = cc
positive_int-bounds (some text) n h =
    ground (arith, h, at_most-bounds 1 max_option_int (int_of text) n)

abbrev pub ident_ok : ℕ → Identification → Bool
ident_ok low i = is_option_int i.sid && is_option_int i.rev && leb low i.priority

module _ (low : ℕ) (low_one : low ≤ 1) where
  abbrev found_ok : Found → Bool
  found_ok f = option_ok is_option_int f.sid && is_option_int f.rev && leb low f.priority

  abbrev FoundOk : Found → Type 0
  FoundOk f = found_ok f ≡ true

  set_option-ok :
      (key : Text) (value : Option Text) (f : Found)
      → FoundOk f
      → Returns FoundOk (set_option key value f)
  unfolding set_option
  set_option-ok key value f h =
      let Q = FoundOk in
      let number = positive_int-bounds value in
      cond-Returns Q (text_eq key (codes "msg")) _ _
        (set-Returns Q (unquote_string value) (invalid (codes "missing_msg")) _ (λ t e. h))
        (cond-Returns Q (text_eq key (codes "sid")) _ _
          (set-Returns Q (positive_int value) (invalid (codes "bad_sid")) _
            (λ n e. ground (arith, h, low_one, number n e)))
          (cond-Returns Q (text_eq key (codes "rev")) _ _
            (set-Returns Q (positive_int value) (bad_value (codes "rev")) _
              (λ n e. ground (arith, h, low_one, number n e)))
            (cond-Returns Q (text_eq key (codes "priority")) _ _
              (set-Returns Q (positive_int value) (bad_value (codes "priority")) _
                (λ n e. ground (arith, h, low_one, number n e)))
              (set-Returns Q (class_name value) (bad_value (codes "classtype")) _ (λ t e. h)))))

  identify-ok : (o : OptionPair) (f : Found) → FoundOk f → Returns FoundOk (identify o f)
  unfolding identify
  identify-ok (key, value) f h =
      let Q = FoundOk in
      cond-Returns Q (one_of key passive_keywords) _ _ (ok-Returns Q _ h) (
        cond-Returns Q (not (one_of key identification_keywords)) _ _ (ok-Returns Q f h) (
          raise_if-Returns Q (one_of key f.seen) (duplicate key) _
            (λ e. set_option-ok key value (record f { seen = key ∷ f.seen }) h)))

  identify_all-ok :
      (os : List OptionPair) (f : Found) → FoundOk f → Returns FoundOk (identify_all os f)
  unfolding identify_all
  identify_all-ok [] f h = ok-Returns FoundOk f h
  identify_all-ok (o ∷ os) f h =
      bind-Returns FoundOk (identify o f) _
        (λ g e. identify_all-ok os g (returned_lem FoundOk (identify o f) g (identify-ok o f h) e))

  abbrev pub IdentOk : Identification → Type 0
  IdentOk i = ident_ok low i ≡ true

  -- The numbers of an identification, where the default priority is at least `low`.
  pub parse_identification-ok :
      (options : List OptionPair) (priority : ℕ)
      → leb low priority ≡ true
      → Returns IdentOk (parse_identification options priority)
  unfolding parse_identification nothing_found
  parse_identification-ok options priority h =
      let start = nothing_found priority in
      bind-Returns IdentOk (identify_all options start) _ (λ f e.
        let k : FoundOk f =
          returned_lem FoundOk (identify_all options start) f (identify_all-ok options start h) e in
        bind-Returns IdentOk (need f.sid (invalid (codes "missing_sid"))) _ (λ sid s.
          set-Returns IdentOk f.msg (invalid (codes "missing_msg")) _
            (λ msg m. ground (arith, k, need-ok f.sid _ sid s))))
