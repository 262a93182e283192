-- ===== src/Rules/Parser/Header/Network.antt =====
-- src/rules/parser.py, `parse_ip`, with `_ip_matches` of src/engine/matcher.py: which addresses the
-- specification of a token stands for.
use native.Mathlib.Nat.{one-le-pow, div-mul-le_self, mul-div_cancel}
use nt204_r11_antn_nguyen_th.Base.{
  ℕ, ◌*◌, ◌-◌, ◌/◌, ◌^◌, ◌≤◌, ◌<◌, true, false, not, ◌≡◌, refl, sym, ap, ◌∙◌, Option, none, some,
  List, [], ◌∷◌, leb, ◌==◌, Text, codes, text_eq, split_on, partition, Bool-cases, inl, inr, arith,
}
use nt204_r11_antn_nguyen_th.Base.Bits.{bit_and-netmask}
use nt204_r11_antn_nguyen_th.Models.Rule.{IpSpec, ip_spec_ok}
use nt204_r11_antn_nguyen_th.Engine.Matcher.{octet, quad, ipv4, ip_in}
use nt204_r11_antn_nguyen_th.Rules.Syntax.{ok}
use nt204_r11_antn_nguyen_th.Rules.Syntax.Returns.{
  Returns, ok-Returns, err-Returns, raise_if-Returns, cond-Returns, cases-Returns, weaken-Returns,
  returned_lem,
}
use nt204_r11_antn_nguyen_th.Rules.Parser.Header.{bad_ip, any_ip, ip_network, prefix_of, parse_ip}

octet-bound : (t : Text) (n : ℕ) → octet t ≡ some n → n ≤ 255
unfolding octet
octet-bound t n h = ground (arith, h)

quad-bound :
    (oa ob oc od : Option ℕ) (x : ℕ)
    → ((n : ℕ) → oa ≡ some n → n ≤ 255)
    → ((n : ℕ) → ob ≡ some n → n ≤ 255)
    → ((n : ℕ) → oc ≡ some n → n ≤ 255)
    → ((n : ℕ) → od ≡ some n → n ≤ 255)
    → quad oa ob oc od ≡ some x
    → x < 2 ^ 32
unfolding quad
quad-bound (some a) (some b) (some c) (some d) x ha hb hc hd h =
    ground (arith, ha a refl, hb b refl, hc c refl, hd d refl, h)
quad-bound (some a) (some b) (some c) none x ha hb hc hd h = cc
quad-bound (some a) (some b) none d x ha hb hc hd h = cc
quad-bound (some a) none c d x ha hb hc hd h = cc
quad-bound none b c d x ha hb hc hd h = cc

-- An address has 32 bits.
pub ipv4-bound : (parts : List Text) (x : ℕ) → ipv4 parts ≡ some x → x < 2 ^ 32
unfolding ipv4
ipv4-bound (a ∷ b ∷ c ∷ d ∷ []) x h =
    quad-bound (octet a) (octet b) (octet c) (octet d) x (octet-bound a) (octet-bound b)
      (octet-bound c) (octet-bound d) h
ipv4-bound [] x h = cc
ipv4-bound (a ∷ []) x h = cc
ipv4-bound (a ∷ b ∷ []) x h = cc
ipv4-bound (a ∷ b ∷ c ∷ []) x h = cc
ipv4-bound (a ∷ b ∷ c ∷ d ∷ e ∷ es) x h = cc

-- The size of the network with a prefix.
abbrev pub network_size : ℕ → ℕ
network_size prefix = 2 ^ (32 - prefix)

-- The test of the matcher for the network of an address is a comparison of the prefixes.
Covers : ℕ → ℕ → IpSpec → Type 0
Covers address prefix spec =
    (x : ℕ) → x < 2 ^ 32 → ip_in spec x ≡ (x / network_size prefix == address / network_size prefix)

blocks_injective : (a b p : ℕ) → 1 ≤ p → a * p ≡ b * p → a ≡ b
blocks_injective a b p h e =
    sym (mul-div_cancel a {n = p} h) ∙ ap (λ z. z / p) e ∙ mul-div_cancel b {n = p} h

eq_sound : (a b : ℕ) → (a == b) ≡ true → a ≡ b
eq_sound a b h = ground (arith, h)

eq_iff : (a b c d : ℕ) → (a ≡ b → c ≡ d) → (c ≡ d → a ≡ b) → (a == b) ≡ (c == d)
eq_iff a b c d h k = elim (Bool-cases (a == b)) [
  | inl e ↦ ground (arith, e, h (eq_sound a b e))
  | inr e ↦ elim (Bool-cases (c == d)) [
    | inl f ↦ ground (arith, e, f, k (eq_sound c d f))
    | inr f ↦ ground (arith, e, f)
  ]
]

ip_network-Covers :
    (address prefix : ℕ)
    → address < 2 ^ 32
    → Returns
        (λ spec. (prefix ≤ 32) × Covers address prefix spec)
        (ip_network (some address) (some prefix))
unfolding ip_network Covers ip_in
ip_network-Covers address prefix h = raise_if-Returns _ (not (leb prefix 32)) bad_ip _ (λ e.
    let low : prefix ≤ 32 = ground (arith, e) in
    let positive = one-le-pow (32 - prefix) 2 (omega arith) in
    ok-Returns _ _ (
      low,
      λ x k.
          rw (bit_and-netmask prefix x low k, bit_and-netmask prefix address low h)
            (eq_iff _ _ _ _ (blocks_injective _ _ (network_size prefix) positive)
              (ap (λ b. b * network_size prefix))),
    ))

-- Both fields have 32 bits.
ip_network-ok :
    (address prefix : ℕ)
    → address < 2 ^ 32
    → Returns (λ spec. ip_spec_ok spec ≡ true) (ip_network (some address) (some prefix))
unfolding ip_network
ip_network-ok address prefix h = raise_if-Returns _ (not (leb prefix 32)) bad_ip _ (λ e.
    let low : prefix ≤ 32 = ground (arith, e) in
    let positive = one-le-pow (32 - prefix) 2 (omega arith) in
    ok-Returns _ _ (
      rw (bit_and-netmask prefix address low h)
        (ground (arith, positive, h, div-mul-le_self address (network_size prefix)))))

network-ok :
    (a p : Option ℕ)
    → ((address : ℕ) → a ≡ some address → address < 2 ^ 32)
    → Returns (λ spec. ip_spec_ok spec ≡ true) (ip_network a p)
unfolding ip_network
network-ok none p h = err-Returns _ bad_ip
network-ok (some address) none h = err-Returns _ bad_ip
network-ok (some address) (some prefix) h = ip_network-ok address prefix (h address refl)

-- Every specification of addresses that is parsed passes the checks of `IpSpec`.
pub parse_ip-ok : (token : Text) → Returns (λ spec. ip_spec_ok spec ≡ true) (parse_ip token)
unfolding parse_ip any_ip
parse_ip-ok token =
    let parts = partition b'/' token in
    cond-Returns _ (text_eq token (codes "any")) _ _ (ok-Returns _ _ refl) (
      raise_if-Returns _ _ _ _ (λ e. raise_if-Returns _ _ _ _ (λ e.
        network-ok (ipv4 (split_on b'.' parts.before)) (prefix_of parts)
          (ipv4-bound (split_on b'.' parts.before)))))

-- What the token `text` of a network says of the address `x`.
abbrev pub Matched : Text → ℕ → IpSpec → Type 0
Matched token x spec =
    let parts = partition b'/' token in
    (address : ℕ) × (prefix : ℕ) × (ipv4 (split_on b'.' parts.before) ≡ some address)
    × (prefix_of parts ≡ some prefix)
    × (prefix ≤ 32)
    × (ip_in spec x ≡ (x / network_size prefix == address / network_size prefix))

network-Matched :
    (a p : Option ℕ) (x : ℕ)
    → x < 2 ^ 32
    → ((address : ℕ) → a ≡ some address → address < 2 ^ 32)
    → Returns
        (λ spec.
          (address : ℕ) × (prefix : ℕ) × (a ≡ some address)
          × (p ≡ some prefix)
          × (prefix ≤ 32)
          × (ip_in spec x ≡ (x / network_size prefix == address / network_size prefix)))
        (ip_network a p)
unfolding ip_network Returns Covers
network-Matched none p x k h = tt
network-Matched (some address) none x k h = tt
network-Matched (some address) (some prefix) x k h =
    weaken-Returns _ _ (ip_network (some address) (some prefix))
      (λ spec c. (address, prefix, refl, refl, c.0, c.1 x k))
      (ip_network-Covers address prefix (h address refl))

-- A token that is not `any` and is accepted gives an address and a prefix length of at most 32, and
-- an address matches the specification exactly if it agrees with that address in the bits of the
-- prefix.
pub parse_ip-Matched :
    (token : Text) (spec : IpSpec) (x : ℕ)
    → text_eq token (codes "any") ≡ false
    → parse_ip token ≡ ok spec
    → x < 2 ^ 32
    → Matched token x spec
unfolding parse_ip
parse_ip-Matched token spec x h e k =
    let parts = partition b'/' token in
    returned_lem (Matched token x) (parse_ip token) spec
      (cases-Returns _ (text_eq token (codes "any")) _ _ (λ e. cc)
        (λ e. raise_if-Returns _ _ _ _ (λ e. raise_if-Returns _ _ _ _ (λ e.
          network-Matched (ipv4 (split_on b'.' parts.before)) (prefix_of parts) x k
            (ipv4-bound (split_on b'.' parts.before))))))
      e
