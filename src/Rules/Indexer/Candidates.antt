-- ===== src/Rules/Indexer/Candidates.antt =====
-- `RuleIndexer.candidates` is a linear scan of the repository: the index is a filter by protocol and
-- destination port that keeps the order of the rules, and it drops no rule that could match.
use nt204_r11_antn_nguyen_th.Base.{
  ℕ, zero, suc, ◌≤◌, ◌<◌, ◌≡◌, refl, Bool, true, false, ◌||◌, Option, none, some, List, [], ◌∷◌,
  All, get_elem?, drop, filter, arith, Bool-cases, inl, inr, Text,
}
use nt204_r11_antn_nguyen_th.Models.Rule.{Rule, RuleProtocol}
use nt204_r11_antn_nguyen_th.Flow.Table.{get}
use nt204_r11_antn_nguyen_th.Rules.Repository.{Repository, all_rules}
use nt204_r11_antn_nguyen_th.Rules.Indexer.{
  Bucket, in_ranges, new_bucket, collect, Buckets, bucket_of, file_rules, Indexer, new_indexer,
  indexed_protocol, usable_port, collect_ip, prepend_rule, rules_at, candidates_of, candidates,
}
use nt204_r11_antn_nguyen_th.Rules.Indexer.Sets.{
  mem, Ascending, Ascending-ext, insert_all-Ascending,
}
use nt204_r11_antn_nguyen_th.Rules.Indexer.Filing.{
  in_bucket, mem-collect, files, positions, file_rules_lem,
}

abbrev empty_buckets : Buckets
empty_buckets = record { tcp = new_bucket; udp = new_bucket; ip = new_bucket }

-- The bucket of the protocol or that of `ip` takes the rule.
unfoldable pub covers : RuleProtocol → ℕ → Rule → Bool
covers p port rule = files p port rule || files RuleProtocol.ip port rule

mem-positions_or :
    (o n : ℕ) (q r : Rule → Bool) (rules : List Rule)
    → mem o (positions (λ x. q x || r x) n rules)
      ≡ (mem o (positions r n rules) || mem o (positions q n rules))
unfolding positions
mem-positions_or o n q r [] = refl
mem-positions_or o n q r (rule ∷ rules) = ground (arith, mem-positions_or o (suc n) q r rules)

positions_above :
    (q : Rule → Bool) (k n : ℕ) (rules : List Rule) → k < n → All (λ y. k < y) (positions q n rules)
unfolding positions
positions_above q k n [] h = tt
positions_above q k n (rule ∷ rules) h = elim (Bool-cases (q rule)) [
  | inl e ↦ rw e (h, positions_above q k (suc n) rules (omega arith))
  | inr e ↦ rw e (positions_above q k (suc n) rules (omega arith))
]

positions-Ascending :
    (q : Rule → Bool) (n : ℕ) (rules : List Rule) → Ascending (positions q n rules)
unfolding positions
positions-Ascending q n [] = tt
positions-Ascending q n (rule ∷ rules) = elim (Bool-cases (q rule)) [
  | inl e ↦
      rw e (positions_above q n (suc n) rules (omega arith), positions-Ascending q (suc n) rules)
  | inr e ↦ rw e (positions-Ascending q (suc n) rules)
]

collect-Ascending :
    (b : Bucket) (port : ℕ) (s : List ℕ) → Ascending s → Ascending (collect b port s)
unfolding collect
collect-Ascending b port s a =
    insert_all-Ascending b.any_port _ (insert_all-Ascending _ _ (insert_all-Ascending _ s a))

no_order : (o port : ℕ) (p : RuleProtocol) → in_bucket o port (bucket_of p empty_buckets) ≡ false
unfolding in_bucket get in_ranges
no_order o port RuleProtocol.tcp = refl
no_order o port RuleProtocol.udp = refl
no_order o port RuleProtocol.ip = refl

-- A bucket of the index yields the numbers of the rules that it takes.
bucket_lem :
    (o port : ℕ) (p : RuleProtocol) (rules : List Rule) (s : List ℕ)
    → port ≤ 65535
    → mem o (collect (bucket_of p (file_rules 0 rules empty_buckets)) port s)
      ≡ (mem o (positions (files p port) 0 rules) || mem o s)
bucket_lem o port p rules s le = ground (
  arith,
  mem-collect o port (bucket_of p (file_rules 0 rules empty_buckets)) s,
  file_rules_lem o port 0 p rules empty_buckets le,
  no_order o port p,
)

or_self : (b : Bool) → (b || b) ≡ b
or_self true = refl
or_self false = refl

abbrev orders : RuleProtocol → ℕ → List Rule → List ℕ
orders p port rules =
    let bs = file_rules 0 rules empty_buckets in
    collect_ip p bs port (collect (bucket_of p bs) port [])

orders-mem :
    (o port : ℕ) (p : RuleProtocol) (rules : List Rule)
    → port ≤ 65535
    → mem o (orders p port rules) ≡ mem o (positions (covers p port) 0 rules)
unfolding collect_ip covers
orders-mem o port RuleProtocol.ip rules le = ground (
  arith,
  bucket_lem o port RuleProtocol.ip rules [] le,
  mem-positions_or o 0 (files RuleProtocol.ip port) (files RuleProtocol.ip port) rules,
)
orders-mem o port RuleProtocol.tcp rules le = ground (
  arith,
  bucket_lem o port RuleProtocol.tcp rules [] le,
  bucket_lem o port RuleProtocol.ip rules
      (collect (bucket_of RuleProtocol.tcp (file_rules 0 rules empty_buckets)) port []) le,
  mem-positions_or o 0 (files RuleProtocol.tcp port) (files RuleProtocol.ip port) rules,
)
orders-mem o port RuleProtocol.udp rules le = ground (
  arith,
  bucket_lem o port RuleProtocol.udp rules [] le,
  bucket_lem o port RuleProtocol.ip rules
      (collect (bucket_of RuleProtocol.udp (file_rules 0 rules empty_buckets)) port []) le,
  mem-positions_or o 0 (files RuleProtocol.udp port) (files RuleProtocol.ip port) rules,
)

orders-Ascending :
    (p : RuleProtocol) (port : ℕ) (rules : List Rule) → Ascending (orders p port rules)
unfolding collect_ip
orders-Ascending RuleProtocol.ip port rules = collect-Ascending _ port [] tt
orders-Ascending RuleProtocol.tcp port rules =
    collect-Ascending _ port _ (collect-Ascending _ port [] tt)
orders-Ascending RuleProtocol.udp port rules =
    collect-Ascending _ port _ (collect-Ascending _ port [] tt)

drop-head :
    (rule : Rule) (n : ℕ) (all rules : List Rule)
    → drop n all ≡ rule ∷ rules
    → (get_elem? all n ≡ some rule) × (drop (suc n) all ≡ rules)
drop-head rule zero [] rules h = cc
drop-head rule zero (x ∷ all) rules h = (cc, cc)
drop-head rule (suc n) [] rules h = cc
drop-head rule (suc n) (x ∷ all) rules h = drop-head rule n all rules h

rules_at-positions :
    (q : Rule → Bool) (all : List Rule) (n : ℕ) (rules : List Rule)
    → drop n all ≡ rules
    → rules_at all (positions q n rules) ≡ some (filter q rules)
unfolding rules_at positions prepend_rule
rules_at-positions q all n [] h = refl
rules_at-positions q all n (rule ∷ rules) h =
    let head = drop-head rule n all rules h in
    let rest = rules_at-positions q all (suc n) rules head.1 in
    elim (Bool-cases (q rule)) [ inl e ↦ rw (e, rest, head.0) refl | inr e ↦ rw (e, rest) refl ]

-- `usable_port` lets through the numbers up to 65535.
usable_port-le : (port : Option ℕ) (n : ℕ) → usable_port port ≡ some n → n ≤ 65535
unfolding usable_port
usable_port-le none n h = cc
usable_port-le (some p) n h = ground arith

-- What a linear scan of the rules finds for a packet.
unfoldable pub scan_rules : List Rule → Option RuleProtocol → Option ℕ → List Rule
scan_rules rules (some p) (some port) = filter (covers p port) rules
scan_rules rules none port = []
scan_rules rules (some p) none = []

indexed : List Rule → Indexer
indexed rules = record { rules = rules; buckets = file_rules 0 rules empty_buckets }

candidates_of_lem :
    (rules : List Rule) (p : Option RuleProtocol) (port : Option ℕ)
    → ((n : ℕ) → port ≡ some n → n ≤ 65535)
    → candidates_of (indexed rules) p port ≡ some (scan_rules rules p port)
unfolding indexed candidates_of scan_rules
candidates_of_lem rules (some p) (some port) le =
    rw
      (Ascending-ext (orders p port rules) (positions (covers p port) 0 rules)
        (orders-Ascending p port rules) (positions-Ascending (covers p port) 0 rules)
        (λ o. orders-mem o port p rules (le port refl)))
      (rules_at-positions (covers p port) rules 0 rules refl)
candidates_of_lem rules none port le = refl
candidates_of_lem rules (some p) none le = refl

-- The index of a frozen repository exists, and `candidates` never raises an exception: it returns
-- the rules, in repository order and each once, that a linear scan by protocol and port finds.
pub candidates_lem :
    (r : Repository) (protocol : Option Text) (dst_port : Option ℕ)
    → r.frozen ≡ true
    → (x : Indexer) × (new_indexer r ≡ some x)
      × (candidates x protocol dst_port
          ≡ some (scan_rules (all_rules r) (indexed_protocol protocol) (usable_port dst_port)))
unfolding new_indexer candidates indexed
candidates_lem r protocol dst_port frozen = (
  indexed (all_rules r),
  rw (frozen) refl,
  candidates_of_lem (all_rules r) (indexed_protocol protocol) (usable_port dst_port)
      (usable_port-le dst_port),
)
