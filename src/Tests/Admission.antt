-- ===== src/Tests/Admission.antt =====
-- The theorems on yass-operator/internal/webhook/v1 at concrete inputs.
use yass_simulator.Base.{
  refl, inr, string_beq_iff, ◌≤◌, ◌≡◌, true, false, none, some, List, [], ◌∷◌, arith, ◌==◌,
  string_eq, contains,
}
use yass_simulator.Operator.Webhook.Layouts.{
  NodeSpec, Matchers, is_valid_node_type, validate_layout, default_layout,
}
use yass_simulator.Operator.Webhook.Layouts.Admitted.{
  is_empty_list, is_tle, is_orbit, is_completable, are_completable, validate_layout-default_layout,
}
use yass_simulator.Operator.Webhook.Namespaces.{
  Sibling, listed, create, evict, changed, changed_all, count_running, count_running-changed_all,
  has_name, marked, none_runs, validate_single_experiment_per_namespace, AreCurrent, IsCurrent,
  count_running-stale,
}

abbrev matchers : Matchers
matchers = record { line_1 = λ line. line == "1"; line_2 = λ line. line == "2" }

abbrev two_nodes : List NodeSpec
two_nodes =
    record { type = ""; tle = some ("1" ∷ "2" ∷ []) }
    ∷ record { type = "groundStation"; tle = none }
    ∷ []

validate_layout-default_layout_example :
    is_empty_list (validate_layout matchers (default_layout two_nodes)) ≡ true
unfolding are_completable is_completable is_valid_node_type is_orbit is_tle contains
validate_layout-default_layout_example = validate_layout-default_layout matchers two_nodes

abbrev running : Sibling
running = record { name = "first"; deleting = false; evicted = false }

abbrev emptied : Sibling
emptied = record running { evicted = true }

count_running-changed_all_example :
    count_running (
      changed_all
        (create "second" (listed (running ∷ []))
          ∷ evict "first"
          ∷ create "second" (listed (emptied ∷ []))
          ∷ [])
        (running ∷ []))
    ≤ 1
unfolding count_running AreCurrent IsCurrent changed validate_single_experiment_per_namespace
    none_runs has_name marked
count_running-changed_all_example =
    count_running-changed_all
      (create "second" (listed (running ∷ []))
        ∷ evict "first"
        ∷ create "second" (listed (emptied ∷ []))
        ∷ [])
      (running ∷ []) (omega arith) (inr refl, (tt, (inr refl, tt)))

count_running-stale_example :
    count_running (changed_all (create "second" (listed []) ∷ create "third" (listed []) ∷ []) [])
    ≡ 2
unfolding count_running has_name
count_running-stale_example =
    count_running-stale "second" "third" [] refl refl refl
      (λ e. ground (arith, string_beq_iff "second" "third"))
