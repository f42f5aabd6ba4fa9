-- ===== src/Executor/Completion/Rules.antt =====
-- The rules that the executor loads
-- (internal-components/experiment-executor/internal/app.go).
use yass_simulator.Base.{
  String, ◌≡◌, subst, Bool, true, false, Option, none, some, List, [], ◌∷◌, arith, ◌==◌, string_eq,
  if◌then◌else◌, Bool-cases, inl, inr,
}
use mathlib.Core.Option.{some-injective}
use yass_simulator.Base.Int.{pos, ◌≤ℤ◌}
use yass_simulator.Base.Map.{Map, lookup, insert, lookup-insert}
use yass_simulator.Executor.Completion.{
  CompletionRule, Behaviour, Texts, env_of, env_true, count_of_files, rule_of, load_rules,
  load_completion_terminators,
}

-- A rule that counts files asks for one or more.
abbrev IsPositive : CompletionRule → Type 0
IsPositive rule = rule.count_all ≡ false → pos 1 ≤ℤ rule.n

rule_of-IsPositive : (text : Texts) (raw : String) → IsPositive (rule_of text raw)
unfolding rule_of count_of_files
rule_of-IsPositive text raw = ground arith

-- The rules of all nodes are positive.
abbrev ArePositive : Map String CompletionRule → Type 0
ArePositive rules =
    (node : String) (rule : CompletionRule) → lookup node rules ≡ some rule → IsPositive rule

added-ArePositive :
    (broadcast : Bool) (key : String) (r : CompletionRule) (rules : Map String CompletionRule)
    → IsPositive r
    → ArePositive rules
    → ArePositive (if broadcast then insert key r rules else rules)
added-ArePositive false key r rules p h = h
added-ArePositive true key r rules p h = λ node rule e.
    let read = lookup-insert key node r rules in
    elim (Bool-cases (key == node)) [
      | inl same ↦
          let is_new : some r ≡ some rule = ground (arith, read, same, e) in
          subst IsPositive (some-injective _ _ is_new) p
      | inr other ↦ h node rule (ground (arith, read, other, e))
    ]

load_rules-ArePositive :
    (text : Texts) (behaviours : List Behaviour) (rules : Map String CompletionRule)
    → ArePositive rules
    → ArePositive (load_rules text behaviours rules)
unfolding load_rules
load_rules-ArePositive text [] rules h = h
load_rules-ArePositive text (b ∷ behaviours) rules h =
    let raw = text.trim_space (text.to_lower (env_of "SUCCESS_AFTER_FILES" b)) in
    let broadcast = env_true text (env_of "SUCCESS_BROADCAST" b) in
    load_rules-ArePositive text behaviours
      (if broadcast then insert b.node (rule_of text raw) rules else rules)
      (added-ArePositive broadcast b.node (rule_of text raw) rules (rule_of-IsPositive text raw) h)

-- Every rule that is loaded and counts files asks for one file or more, whatever the texts of the
-- behaviours are: no terminator completes an experiment without a file.
pub load_completion_terminators-IsPositive :
    (text : Texts) (behaviours : Option (List Behaviour)) (node : String) (rule : CompletionRule)
    → lookup node (load_completion_terminators text behaviours) ≡ some rule
    → rule.count_all ≡ false
    → pos 1 ≤ℤ rule.n
unfolding load_completion_terminators lookup
load_completion_terminators-IsPositive text none node rule h = cc
load_completion_terminators-IsPositive text (some behaviours) node rule h =
    load_rules-ArePositive text behaviours [] (λ n r e. cc) node rule h
