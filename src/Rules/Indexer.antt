-- ===== src/Rules/Indexer.antt =====
-- src/rules/indexer.py: `RuleIndexer`. A set of order numbers is the list of its elements in
-- ascending order, so that `sorted` of it is the list itself.
pub mod Sets
pub mod Filing
pub mod Candidates
pub mod Superset
use nt204_r11_antn_nguyen_th.Base.{
  ℕ, suc, ◌≡◌, Bool, true, false, ◌&&◌, Option, none, some, List, [], ◌∷◌, ◌++◌, length, get_elem?,
  ltb, leb, ◌==◌, if◌then◌else◌, ℕ_discrete, filter, map, Text, codes, text_eq, lower,
}
use nt204_r11_antn_nguyen_th.Models.Rule.{
  Rule, RuleProtocol, RuleDirection, both_ways, one_way, PortSpec, is_any, port_max,
}
use nt204_r11_antn_nguyen_th.Flow.Table
use nt204_r11_antn_nguyen_th.Rules.Repository.{Repository, all_rules}

-- `_Bucket`
pub record Bucket : Type 0 where
  pub exact : List (ℕ × List ℕ)
  pub ranges : List (ℕ × ℕ × ℕ)
  pub any_port : List ℕ

abbrev pub new_bucket : Bucket
new_bucket = record { exact = []; ranges = []; any_port = [] }

abbrev pub orders_of : Option (List ℕ) → List ℕ
orders_of none = []
orders_of (some orders) = orders

unfoldable pub register : PortSpec → ℕ → Bucket → Bucket
register port order b =
    if is_any port
    then record b { any_port = b.any_port ++ order ∷ [] }
    else if port.lo == port.hi
    then record b {
      exact =
          Table.set_item ℕ_discrete port.lo
            (orders_of (Table.get ℕ_discrete port.lo b.exact) ++ order ∷ []) b.exact;
    }
    else record b { ranges = b.ranges ++ (port.lo, port.hi, order) ∷ [] }

-- `set.add`
unfoldable pub insert : ℕ → List ℕ → List ℕ
insert x [] = x ∷ []
insert x (y ∷ s) = if ltb x y then x ∷ y ∷ s else if x == y then y ∷ s else y ∷ insert x s

-- `set.update`
unfoldable pub insert_all : List ℕ → List ℕ → List ℕ
insert_all [] s = s
insert_all (x ∷ xs) s = insert_all xs (insert x s)

-- `order for lo, hi, order in ranges if lo <= port <= hi`
unfoldable pub in_ranges : ℕ → List (ℕ × ℕ × ℕ) → List ℕ
in_ranges port [] = []
in_ranges port ((lo, hi, order) ∷ rs) =
    if leb lo port && leb port hi then order ∷ in_ranges port rs else in_ranges port rs

unfoldable pub collect : Bucket → ℕ → List ℕ → List ℕ
collect b port into = insert_all b.any_port (
    insert_all (in_ranges port b.ranges)
      (insert_all (orders_of (Table.get ℕ_discrete port b.exact)) into))

-- `_buckets`
pub record Buckets : Type 0 where
  pub tcp : Bucket
  pub udp : Bucket
  pub ip : Bucket

abbrev pub bucket_of : RuleProtocol → Buckets → Bucket
bucket_of RuleProtocol.tcp bs = bs.tcp
bucket_of RuleProtocol.udp bs = bs.udp
bucket_of RuleProtocol.ip bs = bs.ip

abbrev pub with_bucket : RuleProtocol → Bucket → Buckets → Buckets
with_bucket RuleProtocol.tcp b bs = record bs { tcp = b }
with_bucket RuleProtocol.udp b bs = record bs { udp = b }
with_bucket RuleProtocol.ip b bs = record bs { ip = b }

-- A `<>` rule is filed under its source port as well.
unfoldable pub register_back : RuleDirection → PortSpec → ℕ → Bucket → Bucket
register_back both_ways port order b = register port order b
register_back one_way port order b = b

unfoldable pub file_rule : ℕ → Rule → Buckets → Buckets
file_rule order rule bs =
    let b = register rule.dst_port order (bucket_of rule.protocol bs) in
    with_bucket rule.protocol (register_back rule.direction rule.src_port order b) bs

unfoldable pub file_rules : ℕ → List Rule → Buckets → Buckets
file_rules order [] bs = bs
file_rules order (rule ∷ rules) bs = file_rules (suc order) rules (file_rule order rule bs)

pub record Indexer : Type 0 where
  pub rules : List Rule
  pub buckets : Buckets

-- `__init__`; `none` is the `ValueError` for a repository that is not frozen.
unfoldable pub new_indexer : Repository → Option Indexer
new_indexer r =
    if r.frozen
    then some (record {
      rules = all_rules r;
      buckets =
          file_rules 0 (all_rules r)
            (record { tcp = new_bucket; udp = new_bucket; ip = new_bucket });
    })
    else none

-- `protocol.lower()`, if it is one of `INDEXED_PROTOCOLS`
unfoldable pub indexed_protocol : Option Text → Option RuleProtocol
indexed_protocol none = none
indexed_protocol (some p) =
    if text_eq (lower p) (codes "tcp")
    then some RuleProtocol.tcp
    else if text_eq (lower p) (codes "udp")
    then some RuleProtocol.udp
    else if text_eq (lower p) (codes "ip")
    then some RuleProtocol.ip
    else none

-- `PORT_MIN <= dst_port <= PORT_MAX`
unfoldable pub usable_port : Option ℕ → Option ℕ
usable_port none = none
usable_port (some port) = if leb port port_max then some port else none

unfoldable pub collect_ip : RuleProtocol → Buckets → ℕ → List ℕ → List ℕ
collect_ip RuleProtocol.ip bs port orders = orders
collect_ip _ bs port orders = collect bs.ip port orders

unfoldable pub prepend_rule : Option Rule → Option (List Rule) → Option (List Rule)
prepend_rule (some rule) (some rules) = some (rule ∷ rules)
prepend_rule _ _ = none

-- `[self._rules[o] for o in orders]`; `none` is an `IndexError`.
unfoldable pub rules_at : List Rule → List ℕ → Option (List Rule)
rules_at rules [] = some []
rules_at rules (o ∷ orders) = prepend_rule (get_elem? rules o) (rules_at rules orders)

unfoldable pub candidates_of : Indexer → Option RuleProtocol → Option ℕ → Option (List Rule)
candidates_of x (some p) (some port) =
    rules_at x.rules (collect_ip p x.buckets port (collect (bucket_of p x.buckets) port []))
candidates_of x _ _ = some []

unfoldable pub candidates : Indexer → Option Text → Option ℕ → Option (List Rule)
candidates x protocol dst_port = candidates_of x (indexed_protocol protocol) (usable_port dst_port)
