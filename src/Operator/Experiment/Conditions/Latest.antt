-- ===== src/Operator/Experiment/Conditions/Latest.antt =====
-- What a condition says is what was written last
-- (yass-operator/internal/controller/experiment/experiment_controller.go).
use yass_simulator.Base.{
  String, ◌≡◌, ◌≢◌, Option, none, some, List, [], ◌∷◌, arith, ◌==◌, string_eq, string_beq_iff,
  if◌then◌else◌,
}
use yass_simulator.Operator.Experiment.{Condition, ApiError, Object, Recon}
use yass_simulator.Operator.Experiment.Conditions.{
  Verdict, verdict, set_condition, update_status_condition, with_verdict,
}

-- The first condition of a type, as a verdict.
unfoldable pub condition_of : String → List Condition → Option Verdict
condition_of type [] = none
condition_of type (c ∷ cs) =
    let rest = condition_of type cs in
    if c.type == type
    then some (record { status = c.status; reason = c.reason; message = c.message })
    else rest

condition_of-set_condition :
    (type asked : String) (v : Verdict) (cs : List Condition)
    → condition_of asked (set_condition type v cs).1
      ≡ (if type == asked then some v else condition_of asked cs)
unfolding condition_of set_condition with_verdict
condition_of-set_condition type asked v [] = ground arith
condition_of-set_condition type asked v (c ∷ cs) = ground (
  arith,
  condition_of-set_condition type asked v cs,
  string_beq_iff c.type type,
  string_beq_iff c.type asked,
  string_beq_iff type asked,
)

-- An update with a component gives the condition of its type the verdict on the object, or on the
-- error, and leaves the conditions of all other types as they were.
pub condition_of-update_status_condition :
    (comp type asked : String) (obj : Object) (extra : Option ApiError) (r : Recon)
    → comp ≢ ""
    → condition_of asked (update_status_condition comp type obj extra r).experiment.conditions ≡ (
        if type == asked
        then some (verdict obj extra)
        else condition_of asked r.experiment.conditions)
unfolding update_status_condition
condition_of-update_status_condition comp type asked obj extra r named = ground (
  arith,
  string_beq_iff comp "",
  condition_of-set_condition type asked (verdict obj extra) r.experiment.conditions,
)
