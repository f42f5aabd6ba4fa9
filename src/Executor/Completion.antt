-- ===== src/Executor/Completion.antt =====
-- The completion of an experiment from the stream of files: `loadCompletionTerminators` and
-- `recordCrudForCompletion` of internal-components/experiment-executor/internal/app.go. The mutex
-- makes each call atomic. The comment in the answer is left out.
pub mod History
pub mod AllFiles
pub mod Rules
use yass_simulator.Base.{
  ℕ, ◌+◌, String, Bool, true, false, ◌&&◌, not, Option, none, some, List, [], ◌∷◌, ◌==◌, string_eq,
  if◌then◌else◌, length, contains,
}
use yass_simulator.Base.Int.{ℤ, pos, ltb_ℤ, leb_ℤ}
use yass_simulator.Base.Map.{Map, lookup, insert}

pub record CrudEvent : Type 0 where
  pub name : String
  pub fs_node_name : String
  pub type : String

pub record CompletionRule : Type 0 where
  pub count_all : Bool
  pub n : ℤ

-- A set of names is a list; `terminators` may be nil, which reads as an empty map.
pub record Completion : Type 0 where
  pub terminators : Map String CompletionRule
  pub produced : List String
  pub received_by_node : Map String (List String)

-- The behaviour of a node, as far as this code reads it.
pub record Behaviour : Type 0 where
  pub node : String
  pub envs : Map String String

-- strings.ToLower, strings.TrimSpace and strconv.Atoi.
pub record Texts : Type 0 where
  pub to_lower : String → String
  pub trim_space : String → String
  pub atoi : String → Option ℤ

env_of : String → Behaviour → String
env_of key b = elim (lookup key b.envs) [ none ↦ "" | some v ↦ v ]

module _ (text : Texts) where
  is_one_of : List String → String → Bool
  is_one_of words v = contains words v

  unfoldable pub env_true : String → Bool
  unfolding is_one_of
  env_true v =
      is_one_of ("1" ∷ "true" ∷ "yes" ∷ "on" ∷ "y" ∷ "t" ∷ []) (text.to_lower (text.trim_space v))

  -- `if v, err := strconv.Atoi(raw); err == nil && v > 1 { n = v }`
  count_of_files : Option ℤ → ℤ
  count_of_files none = pos 1
  count_of_files (some v) = if ltb_ℤ (pos 1) v then v else pos 1

  rule_of : String → CompletionRule
  unfolding count_of_files
  rule_of raw =
      if raw == "all"
      then record { count_all = true; n = pos 0 }
      else record { count_all = false; n = count_of_files (text.atoi raw) }

  unfoldable pub load_rules : List Behaviour → Map String CompletionRule → Map String CompletionRule
  unfolding rule_of env_of
  load_rules [] rules = rules
  load_rules (b ∷ behaviours) rules = load_rules behaviours (
      if env_true (env_of "SUCCESS_BROADCAST" b)
      then insert b.node
          (rule_of (text.trim_space (text.to_lower (env_of "SUCCESS_AFTER_FILES" b)))) rules
      else rules)

  -- `none` is a definition that cannot be read.
  unfoldable pub load_completion_terminators : Option (List Behaviour) → Map String CompletionRule
  load_completion_terminators none = []
  load_completion_terminators (some behaviours) = load_rules behaviours []

unfoldable pub add_name : String → List String → List String
add_name x names = if contains names x then names else x ∷ names

unfoldable pub subset : List String → List String → Bool
subset [] have = true
subset (x ∷ want) have = let rest = subset want have in if contains have x then rest else false

is_empty : List String → Bool
is_empty [] = true
is_empty (x ∷ xs) = false

-- `recv := t.receivedByNode[e.FsNodeName]`, where nil is an empty set.
unfoldable pub received_at : String → Completion → List String
received_at node s = elim (lookup node s.received_by_node) [ none ↦ [] | some names ↦ names ]

is_met : CompletionRule → List String → List String → Bool
unfolding is_empty
is_met rule produced recv =
    if rule.count_all
    then not (is_empty produced) && subset produced recv
    else leb_ℤ rule.n (pos (length recv))

record_received : Option CompletionRule → CrudEvent → Completion → Bool × Completion
unfolding is_met
record_received none e s = (false, s)
record_received (some rule) e s =
    let recv = add_name e.name (received_at e.fs_node_name s) in
    (
      is_met rule s.produced recv,
      record s { received_by_node = insert e.fs_node_name recv s.received_by_node },
    )

unfoldable pub record_crud_for_completion : CrudEvent → Completion → Bool × Completion
unfolding record_received
record_crud_for_completion e s =
    if e.name == ""
    then (false, s)
    else if e.type == "PUT"
    then (false, record s { produced = add_name e.name s.produced })
    else if e.type == "RECEIVED"
    then record_received (lookup e.fs_node_name s.terminators) e s
    else (false, s)

-- The state behind a stream of events.
unfoldable pub run_events : List CrudEvent → Completion → Completion
run_events [] s = s
run_events (e ∷ es) s = run_events es (record_crud_for_completion e s).1

-- The state of `NewApp`, with the terminators that were loaded.
unfoldable pub new_completion : Map String CompletionRule → Completion
new_completion terminators = record {
  terminators = terminators;
  produced = [];
  received_by_node = [];
}
