-- ===== src/Engine/Startup/Rules.antt =====
-- src/engine/engine.py: an engine whose rule files are read by the parser of this repository.
use nt204_r11_antn_nguyen_th.Base.{
  ℕ, ◌≡◌, refl, sym, ◌∙◌, subst, Bool, true, false, ◌&&◌, Option, some, List, [], ◌∷◌, map, filter,
  all, All, All-map, if◌then◌else◌, Text, arith,
}
use nt204_r11_antn_nguyen_th.Models.Rule.{Rule, ContentSpec, content_spec_ok, rule_ok}
use nt204_r11_antn_nguyen_th.Models.Event.{IdsEvent}
use nt204_r11_antn_nguyen_th.Models.EngineTypes.{FlowContext}
use nt204_r11_antn_nguyen_th.Engine.Detection.{Detection}
use nt204_r11_antn_nguyen_th.Engine.Matcher.{returned}
use nt204_r11_antn_nguyen_th.Engine.Content.Chain.{Patterns}
use nt204_r11_antn_nguyen_th.Engine.Stats.{Stats}
use nt204_r11_antn_nguyen_th.Engine.Evaluator.{Evaluator, new_evaluator, detect, eligible}
use nt204_r11_antn_nguyen_th.Engine.Evaluator.Results.{fires, new_evaluator-IsReady}
use nt204_r11_antn_nguyen_th.Engine.Evaluator.Detections.{detect_lem}
use nt204_r11_antn_nguyen_th.Engine.Startup.{init_repository, fill-load_rules}
use nt204_r11_antn_nguyen_th.Rules.Repository.{Repository, new_repository}
use nt204_r11_antn_nguyen_th.Rules.Repository.Valid.{IsValid, new_repository-IsValid}
use nt204_r11_antn_nguyen_th.Rules.Loader.{ParseFn, Loading, RuleFile, load_rules}
use nt204_r11_antn_nguyen_th.Rules.Loader.Accepted.{load_rules-Loaded}
use nt204_r11_antn_nguyen_th.Rules.Validator.{parse_rule}
use nt204_r11_antn_nguyen_th.Rules.Validator.Accepted.{RuleOk, parse_rule-RuleOk}

-- `functools.partial(parse_rule, cfg=cfg)`
unfoldable pub parse_fn : Option ℕ → ParseFn
parse_fn cfg text file n = returned (parse_rule cfg text file n)

returned-injective : {A : Type 0} (a b : A) → returned a ≡ returned b → a ≡ b
returned-injective a b h = cc

all-Patterns : (cs : List ContentSpec) → all content_spec_ok cs ≡ true → Patterns cs
all-Patterns [] h = tt
all-Patterns (c ∷ cs) h = (ground (arith, h), all-Patterns cs (ground (arith, h)))

RuleOk-Patterns : (rule : Rule) → RuleOk rule → Patterns rule.contents
unfolding rule_ok
RuleOk-Patterns rule h = all-Patterns rule.contents (ground (arith, h.0))

-- The sids of the rules that fire, for an engine that is enabled or not.
abbrev firing : IdsEvent → Option FlowContext → Bool → List Rule → List ℕ
firing e ctx enabled rules =
    map (λ r. r.sid) (if enabled && eligible e then filter (fires e ctx) rules else [])

firing-eq :
    (e : IdsEvent) (ctx : Option FlowContext) (a b : Bool) (rs ts : List Rule)
    → a ≡ b
    → rs ≡ ts
    → firing e ctx a rs ≡ firing e ctx b ts
firing-eq e ctx a b rs ts h k = rw (h, k) refl

-- The repository of an engine that is enabled or not holds the rules of the load, or none.
init_repository_lem :
    (disabled_sids : List ℕ) (parse : ParseFn) (path_key : Text → Text)
    → (content : Text → Option Text) (is_file : Text → Bool) (files : List RuleFile)
    → (extras : List Text) (l : Loading) (enabled : Bool)
    → load_rules disabled_sids parse path_key content is_file files extras ≡ some l
    → (r : Repository) × (init_repository enabled l.rules ≡ some r)
      × IsValid r
      × (r.rules ≡ (if enabled then l.rules else []))
unfolding init_repository new_repository
init_repository_lem ds parse path_key content is_file files extras l true h =
    fill-load_rules ds parse path_key content is_file files extras l h
init_repository_lem ds parse path_key content is_file files extras l false h =
    (new_repository, refl, new_repository-IsValid, refl)

All-if :
    (P : Rule → Type 0) (enabled : Bool) (rules : List Rule)
    → All P rules
    → All P (if enabled then rules else [])
All-if P true rules h = h
All-if P false rules h = tt

firing_if :
    (e : IdsEvent) (ctx : Option FlowContext) (enabled : Bool) (rules : List Rule)
    → firing e ctx enabled (if enabled then rules else []) ≡ firing e ctx enabled rules
firing_if e ctx true rules = refl
firing_if e ctx false rules = refl

-- `Engine.__init__`, as far as the rules go, and then one call of `detect`: the rules that the load
-- has accepted pass all their checks, the repository takes every one of them if the engine is
-- enabled and else stays empty, and `detect` returns. It gives one detection for each of these rules
-- that fires, in the order of the load, when the engine is enabled and the event eligible, and else
-- none.
pub start_detects :
    (cfg : Option ℕ) (disabled_sids : List ℕ) (path_key : Text → Text)
    → (content : Text → Option Text) (is_file : Text → Bool) (files : List RuleFile)
    → (extras : List Text) (l : Loading) (stats : Stats) (enabled : Bool) (e : IdsEvent)
    → (ctx : Option FlowContext)
    → load_rules disabled_sids (parse_fn cfg) path_key content is_file files extras ≡ some l
    → All RuleOk l.rules
      × (r : Repository) × (ev : Evaluator) × (ev' : Evaluator) × (ds : List Detection)
      × (init_repository enabled l.rules ≡ some r)
      × (r.rules ≡ (if enabled then l.rules else []))
      × (new_evaluator r stats enabled ≡ some ev)
      × (detect e ctx ev ≡ some (ev', ds))
      × (map (λ d. d.sid) ds
          ≡ map (λ r. r.sid) (if enabled && eligible e then filter (fires e ctx) l.rules else []))
unfolding parse_fn
start_detects cfg ds path_key content is_file files extras l stats enabled e ctx h =
    let accepted_ok =
      load_rules-Loaded RuleOk ds (parse_fn cfg)
        (λ text file n rule a. parse_rule-RuleOk cfg text file n rule (returned-injective _ _ a))
        path_key content is_file files extras l h in
    let (r, filled, valid, same) =
      init_repository_lem ds (parse_fn cfg) path_key content is_file files extras l enabled h in
    let (ev, made, ready, rules, s, en) = new_evaluator-IsReady r stats enabled valid in
    let patterns =
      All-if (λ r. Patterns r.contents) enabled l.rules
        (All-map RuleOk _ l.rules RuleOk-Patterns accepted_ok) in
    let (ev', found, ran, sids) =
      detect_lem e ctx ev ready
        (subst (All (λ r. Patterns r.contents)) (sym (rules ∙ same)) patterns) in
    (
      accepted_ok,
      r,
      ev,
      ev',
      found,
      filled,
      same,
      made,
      ran,
      sids
          ∙ firing-eq e ctx ev.enabled enabled ev.repository.rules _ en (rules ∙ same)
          ∙ firing_if e ctx enabled l.rules,
    )
