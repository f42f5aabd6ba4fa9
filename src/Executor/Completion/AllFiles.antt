-- ===== src/Executor/Completion/AllFiles.antt =====
-- When the rule `all` ends an experiment
-- (internal-components/experiment-executor/internal/app.go).
use yass_simulator.Base.{
  String, ◌≡◌, ◌≢◌, ◌↔◌, refl, sym, ap, ◌∙◌, Bool, true, false, ◌&&◌, not, some, List, [], ◌∷◌,
  arith, ◌==◌, string_eq, string_beq_iff, contains,
}
use yass_simulator.Base.Map.{Map, lookup, member}
use yass_simulator.Executor.Completion.{
  CrudEvent, CompletionRule, Completion, add_name, subset, is_empty, received_at, is_met,
  record_received, record_crud_for_completion, run_events, new_completion,
}
use yass_simulator.Executor.Completion.History.{
  is_put, is_received, any, run_events_lem, contains-add_name, terminators-run_events,
}

subset_complete :
    (want have : List String)
    → subset want have ≡ true
    → (x : String) → contains want x ≡ true
    → contains have x ≡ true
unfolding subset contains
subset_complete [] have h x c = cc
subset_complete (y ∷ want) have h x c =
    ground (arith, h, c, string_beq_iff y x, subset_complete want have (ground (arith, h)) x)

subset_sound :
    (want have : List String)
    → ((x : String) → contains want x ≡ true → contains have x ≡ true)
    → subset want have ≡ true
unfolding subset contains
subset_sound [] have h = refl
subset_sound (y ∷ want) have h = ground (
  arith,
  h y (ground (arith, string_beq_iff y y)),
  subset_sound want have (λ x c. h x (ground (arith, c))),
)

-- Some file was put.
unfoldable pub is_any_put : CrudEvent → Bool
is_any_put e = not (e.name == "") && e.type == "PUT"

is_empty-add_name : (x : String) (names : List String) → is_empty (add_name x names) ≡ false
unfolding is_empty add_name contains
is_empty-add_name x [] = refl
is_empty-add_name x (y ∷ names) = ground arith

is_empty-record_crud :
    (e : CrudEvent) (s : Completion)
    → is_empty (record_crud_for_completion e s).1.produced
      ≡ (not (is_any_put e) && is_empty s.produced)
unfolding record_crud_for_completion record_received is_any_put
is_empty-record_crud e s = ground (arith, is_empty-add_name e.name s.produced)

is_empty-run_events :
    (es : List CrudEvent) (s : Completion)
    → is_empty (run_events es s).produced ≡ (not (any is_any_put es) && is_empty s.produced)
unfolding run_events any
is_empty-run_events [] s = refl
is_empty-run_events (e ∷ es) s =
    ground
      (arith, is_empty-run_events es (record_crud_for_completion e s).1, is_empty-record_crud e s)

-- The answer to a receipt at a terminator whose rule is `all`.
answer_all :
    (e : CrudEvent) (rule : CompletionRule) (s : Completion)
    → lookup e.fs_node_name s.terminators ≡ some rule
    → rule.count_all ≡ true
    → e.type ≡ "RECEIVED"
    → e.name ≢ ""
    → (record_crud_for_completion e s).0 ≡ (
        not (is_empty s.produced)
        && subset s.produced (add_name e.name (received_at e.fs_node_name s)))
unfolding record_crud_for_completion record_received is_met
answer_all e rule s known all received named = ground (
  arith,
  known,
  all,
  string_beq_iff e.type "PUT",
  string_beq_iff e.type "RECEIVED",
  string_beq_iff "PUT" "RECEIVED",
  string_beq_iff e.name "",
)

-- The names that the node holds with the receipt.
held_with_receipt :
    (es : List CrudEvent) (terminators : Map String CompletionRule) (e : CrudEvent)
    (rule : CompletionRule) (x : String)
    → lookup e.fs_node_name terminators ≡ some rule
    → e.type ≡ "RECEIVED"
    → e.name ≢ ""
    → contains
        (add_name e.name (received_at e.fs_node_name (run_events es (new_completion terminators))))
        x
      ≡ any (is_received e.fs_node_name x) (e ∷ es)
unfolding any is_received member
held_with_receipt es terminators e rule x known received named = ground (
  arith,
  known,
  contains-add_name e.name x
      (received_at e.fs_node_name (run_events es (new_completion terminators))),
  (run_events_lem es terminators e.fs_node_name x).1,
  string_beq_iff e.type "RECEIVED",
  string_beq_iff e.name "",
  string_beq_iff e.fs_node_name e.fs_node_name,
)

-- Behind any stream of events, a receipt by a terminator whose rule is `all` completes the experiment
-- exactly if a file was put and every file that was put has been received by that node, with this
-- receipt.
pub record_crud-run_events :
    (es : List CrudEvent) (terminators : Map String CompletionRule) (e : CrudEvent)
    (rule : CompletionRule)
    → lookup e.fs_node_name terminators ≡ some rule
    → rule.count_all ≡ true
    → e.type ≡ "RECEIVED"
    → e.name ≢ ""
    → ((record_crud_for_completion e (run_events es (new_completion terminators))).0 ≡ true) ↔ (
        (any is_any_put es ≡ true)
        × ((x : String)
            → any (is_put x) es ≡ true
            → any (is_received e.fs_node_name x) (e ∷ es) ≡ true))
unfolding new_completion is_empty
record_crud-run_events es terminators e rule known all received named =
    let s = run_events es (new_completion terminators) in
    let held = λ (x : String). held_with_receipt es terminators e rule x known received named in
    let produced = λ (x : String). (run_events_lem es terminators e.fs_node_name x).0 in
    let recv = add_name e.name (received_at e.fs_node_name s) in
    let answer =
      answer_all e rule s
        (ap (lookup e.fs_node_name) (terminators-run_events es (new_completion terminators))
          ∙ known)
        all received named in
    let put = is_empty-run_events es (new_completion terminators) in
    (
      λ done.
          let all_held : subset s.produced recv ≡ true = ground (arith, answer, done) in
          (
            ground (arith, answer, put, done),
            λ x p. sym (held x) ∙ subset_complete s.produced recv all_held x (produced x ∙ p),
          ),
      λ (some_put, every).
          let all_held : subset s.produced recv ≡ true =
            subset_sound s.produced recv (λ x c. held x ∙ every x (sym (produced x) ∙ c)) in
          ground (arith, answer, put, some_put, all_held),
    )
