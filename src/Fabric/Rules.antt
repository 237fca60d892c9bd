-- ===== src/Fabric/Rules.antt =====
-- The router rules of src/pool.rs, and `apply_rules` of src/kernel.rs.
use trouper.Prelude.{
  String, Bool, true, false, ◌&&◌, Option, none, some, List, [], ◌∷◌, str_eq, if◌then◌else◌,
}
use trouper.Journal.{ActorPath, SchemaId}
use trouper.Envelope.{Envelope}

pub data RuleAction : Type 0 where
  tee inline : ActorPath → RuleAction

pub record Rule : Type 0 where
  pub source : Option ActorPath
  pub schema : Option SchemaId
  pub dest : Option ActorPath
  pub action : RuleAction

-- A criterion that is not declared matches everything.
abbrev pub meets : Option String → String → Bool
meets none a = true
meets (some c) a = str_eq a c

abbrev pub meets_sender : Option ActorPath → Option ActorPath → Bool
meets_sender none from = true
meets_sender (some c) none = false
meets_sender (some c) (some a) = str_eq a c

-- The observer of a tee, and the interposer.
abbrev pub placed : RuleAction → Option ActorPath × Option ActorPath
placed (tee observer) = (some observer, none)
placed (inline interposer) = (none, some interposer)

module _ {P : Type 0} where
  unfoldable pub matches : Envelope P → ActorPath → Rule → Bool
  matches e dest rule =
      meets_sender rule.source e.from && meets rule.schema e.schema_id && meets rule.dest dest

  unfoldable pub apply_rules :
      List Rule → Envelope P → ActorPath → Option ActorPath × Option ActorPath
  unfolding matches
  apply_rules [] e dest = (none, none)
  apply_rules (rule ∷ rules) e dest =
      if matches e dest rule then placed rule.action else apply_rules rules e dest
