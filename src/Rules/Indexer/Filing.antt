-- ===== src/Rules/Indexer/Filing.antt =====
-- `_Bucket.register`, `_Bucket.collect` and the loop of `RuleIndexer.__init__`: which order numbers
-- a bucket yields for a port.
use nt204_r11_antn_nguyen_th.Base.{
  ℕ, suc, ◌≤◌, ◌≡◌, refl, ap, Bool, true, false, ◌&&◌, ◌||◌, some, List, [], ◌∷◌, ◌++◌, leb, ◌==◌,
  if◌then◌else◌, arith, Bool-cases, ℕ_discrete, inl, inr,
}
use nt204_r11_antn_nguyen_th.Models.Rule.{
  Rule, RuleProtocol, RuleDirection, both_ways, one_way, PortSpec, is_any,
}
use nt204_r11_antn_nguyen_th.Flow.Table.{get, set_item}
use nt204_r11_antn_nguyen_th.Engine.Matcher.{port_in}
use nt204_r11_antn_nguyen_th.Rules.Indexer.{
  Bucket, insert_all, register, orders_of, in_ranges, collect, Buckets, bucket_of, with_bucket,
  register_back, file_rule, file_rules,
}
use nt204_r11_antn_nguyen_th.Rules.Indexer.Sets.{mem, mem-append, mem-insert_all}

-- The order number is among those that the bucket yields for the port.
unfoldable pub in_bucket : ℕ → ℕ → Bucket → Bool
in_bucket o port b =
    mem o (orders_of (get ℕ_discrete port b.exact))
    || mem o (in_ranges port b.ranges)
    || mem o b.any_port

pub mem-collect :
    (o port : ℕ) (b : Bucket) (s : List ℕ)
    → mem o (collect b port s) ≡ (in_bucket o port b || mem o s)
unfolding collect in_bucket
mem-collect o port b s =
    let exact = orders_of (get ℕ_discrete port b.exact) in
    let ranges = in_ranges port b.ranges in
    ground (
      arith,
      mem-insert_all o b.any_port (insert_all ranges (insert_all exact s)),
      mem-insert_all o ranges (insert_all exact s),
      mem-insert_all o exact s,
    )

get-set_item :
    (k j : ℕ) (v : List ℕ) (t : List (ℕ × List ℕ))
    → get ℕ_discrete k (set_item ℕ_discrete j v t) ≡ (if j == k then some v else get ℕ_discrete k t)
unfolding get set_item
get-set_item k j v [] = ground arith
get-set_item k j v ((i, w) ∷ t) = ground (arith, get-set_item k j v t)

mem-exact :
    (o port lo order : ℕ) (t : List (ℕ × List ℕ))
    → mem o (
        orders_of (
          get ℕ_discrete port
            (set_item ℕ_discrete lo (orders_of (get ℕ_discrete lo t) ++ order ∷ []) t)))
      ≡ (lo == port && o == order || mem o (orders_of (get ℕ_discrete port t)))
mem-exact o port lo order t = ground (
  arith,
  get-set_item port lo (orders_of (get ℕ_discrete lo t) ++ order ∷ []) t,
  mem-append o (orders_of (get ℕ_discrete lo t)) (order ∷ []),
)

mem-ranges :
    (o port lo hi order : ℕ) (rs : List (ℕ × ℕ × ℕ))
    → mem o (in_ranges port (rs ++ (lo, hi, order) ∷ []))
      ≡ (leb lo port && leb port hi && o == order || mem o (in_ranges port rs))
unfolding in_ranges
mem-ranges o port lo hi order [] = ground arith
mem-ranges o port lo hi order ((a, b, c) ∷ rs) = ground (arith, mem-ranges o port lo hi order rs)

in_bucket-register :
    (o port order : ℕ) (spec : PortSpec) (b : Bucket)
    → port ≤ 65535
    → in_bucket o port (register spec order b)
      ≡ (port_in spec port && o == order || in_bucket o port b)
unfolding in_bucket register port_in is_any
in_bucket-register o port order spec b le = ground (
  arith,
  mem-exact o port spec.lo order b.exact,
  mem-ranges o port spec.lo spec.hi order b.ranges,
  mem-append o b.any_port (order ∷ []),
)

abbrev pub same_protocol : RuleProtocol → RuleProtocol → Bool
same_protocol RuleProtocol.tcp RuleProtocol.tcp = true
same_protocol RuleProtocol.udp RuleProtocol.udp = true
same_protocol RuleProtocol.ip RuleProtocol.ip = true
same_protocol _ _ = false

unfoldable pub back_in : RuleDirection → PortSpec → ℕ → Bool
back_in both_ways spec port = port_in spec port
back_in one_way spec port = false

-- The rule is of protocol `p` and takes packets to the port, or back from it.
unfoldable pub files : RuleProtocol → ℕ → Rule → Bool
files p port rule =
    same_protocol rule.protocol p
    && (port_in rule.dst_port port || back_in rule.direction rule.src_port port)

in_bucket-back :
    (o port order : ℕ) (d : RuleDirection) (spec : PortSpec) (b : Bucket)
    → port ≤ 65535
    → in_bucket o port (register_back d spec order b)
      ≡ (back_in d spec port && o == order || in_bucket o port b)
unfolding register_back back_in
in_bucket-back o port order both_ways spec b le = in_bucket-register o port order spec b le
in_bucket-back o port order one_way spec b le = refl

bucket_of-with :
    (o port : ℕ) (p q : RuleProtocol) (b : Bucket) (bs : Buckets)
    → in_bucket o port (bucket_of p (with_bucket q b bs))
      ≡ (if same_protocol q p then in_bucket o port b else in_bucket o port (bucket_of p bs))
bucket_of-with o port RuleProtocol.tcp RuleProtocol.tcp b bs = refl
bucket_of-with o port RuleProtocol.tcp RuleProtocol.udp b bs = refl
bucket_of-with o port RuleProtocol.tcp RuleProtocol.ip b bs = refl
bucket_of-with o port RuleProtocol.udp RuleProtocol.tcp b bs = refl
bucket_of-with o port RuleProtocol.udp RuleProtocol.udp b bs = refl
bucket_of-with o port RuleProtocol.udp RuleProtocol.ip b bs = refl
bucket_of-with o port RuleProtocol.ip RuleProtocol.tcp b bs = refl
bucket_of-with o port RuleProtocol.ip RuleProtocol.udp b bs = refl
bucket_of-with o port RuleProtocol.ip RuleProtocol.ip b bs = refl

same_protocol-eq : (q p : RuleProtocol) → same_protocol q p ≡ true → q ≡ p
same_protocol-eq RuleProtocol.tcp RuleProtocol.tcp h = refl
same_protocol-eq RuleProtocol.udp RuleProtocol.udp h = refl
same_protocol-eq RuleProtocol.ip RuleProtocol.ip h = refl
same_protocol-eq RuleProtocol.tcp RuleProtocol.udp h = cc
same_protocol-eq RuleProtocol.tcp RuleProtocol.ip h = cc
same_protocol-eq RuleProtocol.udp RuleProtocol.tcp h = cc
same_protocol-eq RuleProtocol.udp RuleProtocol.ip h = cc
same_protocol-eq RuleProtocol.ip RuleProtocol.tcp h = cc
same_protocol-eq RuleProtocol.ip RuleProtocol.udp h = cc

file_rule_lem :
    (o port order : ℕ) (p : RuleProtocol) (rule : Rule) (bs : Buckets)
    → port ≤ 65535
    → in_bucket o port (bucket_of p (file_rule order rule bs))
      ≡ (files p port rule && o == order || in_bucket o port (bucket_of p bs))
unfolding file_rule files
file_rule_lem o port order p rule bs le =
    let b0 = bucket_of rule.protocol bs in
    let b1 = register rule.dst_port order b0 in
    let b2 = register_back rule.direction rule.src_port order b1 in
    elim (Bool-cases (same_protocol rule.protocol p)) [
      | inl e ↦ ground (
        arith,
        bucket_of-with o port p rule.protocol b2 bs,
        in_bucket-back o port order rule.direction rule.src_port b1 le,
        in_bucket-register o port order rule.dst_port b0 le,
        same_protocol-eq rule.protocol p e,
        ap (λ q. in_bucket o port (bucket_of q bs)) (same_protocol-eq rule.protocol p e),
      )
      | inr e ↦ ground (arith, bucket_of-with o port p rule.protocol b2 bs)
    ]

-- The order numbers, from `n` on, of the rules that pass the test.
unfoldable pub positions : (Rule → Bool) → ℕ → List Rule → List ℕ
positions q n [] = []
positions q n (rule ∷ rules) =
    if q rule then n ∷ positions q (suc n) rules else positions q (suc n) rules

pub file_rules_lem :
    (o port n : ℕ) (p : RuleProtocol) (rules : List Rule) (bs : Buckets)
    → port ≤ 65535
    → in_bucket o port (bucket_of p (file_rules n rules bs))
      ≡ (mem o (positions (files p port) n rules) || in_bucket o port (bucket_of p bs))
unfolding file_rules positions
file_rules_lem o port n p [] bs le = refl
file_rules_lem o port n p (rule ∷ rules) bs le = ground (
  arith,
  file_rules_lem o port (suc n) p rules (file_rule n rule bs) le,
  file_rule_lem o port n p rule bs le,
)
