-- ===== src/Executor/Completion/History.antt =====
-- What the executor knows of the files is what has happened
-- (internal-components/experiment-executor/internal/app.go).
use yass_simulator.Base.{
  String, ◌≡◌, refl, ap, ◌∙◌, Bool, false, ◌&&◌, ◌||◌, not, Option, none, some, List, [], ◌∷◌,
  arith, ◌==◌, string_eq, string_beq_iff, if◌then◌else◌, contains, Bool-cases, inl, inr,
}
use yass_simulator.Base.Map.{Map, lookup, insert, member, lookup-insert}
use yass_simulator.Executor.Completion.{
  CrudEvent, CompletionRule, Completion, add_name, received_at, record_received,
  record_crud_for_completion, run_events, new_completion,
}

-- A file of this name was put.
unfoldable pub is_put : String → CrudEvent → Bool
is_put x e = not (e.name == "") && (e.type == "PUT" && e.name == x)

-- A file of this name was received by the node.
unfoldable pub is_received : String → String → CrudEvent → Bool
is_received node x e =
    not (e.name == "") && (e.type == "RECEIVED" && (e.fs_node_name == node && e.name == x))

unfoldable pub any : (CrudEvent → Bool) → List CrudEvent → Bool
any p [] = false
any p (e ∷ es) = p e || any p es

pub contains-add_name :
    (x y : String) (names : List String)
    → contains (add_name x names) y ≡ (x == y || contains names y)
unfolding add_name contains
contains-add_name x y names = elim (Bool-cases (contains names x)) [
  | inl old ↦ ground (arith, old, string_beq_iff x y)
  | inr new ↦ ground (arith, new)
]

terminators-record_crud :
    (e : CrudEvent) (s : Completion)
    → (record_crud_for_completion e s).1.terminators ≡ s.terminators
unfolding record_crud_for_completion record_received
terminators-record_crud e s = ground arith

produced-record_crud :
    (e : CrudEvent) (s : Completion) (x : String)
    → contains (record_crud_for_completion e s).1.produced x ≡ (is_put x e || contains s.produced x)
unfolding record_crud_for_completion record_received is_put
produced-record_crud e s x =
    ground (arith, contains-add_name e.name x s.produced, string_beq_iff e.type "PUT")

received_at-insert :
    (k node : String) (recv : List String) (s : Completion)
    → received_at node (record s { received_by_node = insert k recv s.received_by_node })
      ≡ (if k == node then recv else received_at node s)
unfolding received_at
received_at-insert k node recv s = ground (arith, lookup-insert k node recv s.received_by_node)

received-record_received :
    (found : Option CompletionRule) (e : CrudEvent) (s : Completion) (node x : String)
    → lookup e.fs_node_name s.terminators ≡ found
    → contains (received_at node (record_received found e s).1) x ≡ (
        (member node s.terminators && (e.fs_node_name == node && e.name == x))
        || contains (received_at node s) x)
unfolding record_received member
received-record_received none e s node x h = ground (arith, h, string_beq_iff e.fs_node_name node)
received-record_received (some rule) e s node x h =
    let recv = add_name e.name (received_at e.fs_node_name s) in
    ground (
      arith,
      h,
      string_beq_iff e.fs_node_name node,
      received_at-insert e.fs_node_name node recv s,
      contains-add_name e.name x (received_at e.fs_node_name s),
    )

received-record_crud :
    (e : CrudEvent) (s : Completion) (node x : String)
    → contains (received_at node (record_crud_for_completion e s).1) x
      ≡ ((member node s.terminators && is_received node x e) || contains (received_at node s) x)
unfolding record_crud_for_completion is_received
received-record_crud e s node x =
    let other : contains (received_at node (record s { produced = add_name e.name s.produced })) x
        ≡ contains (received_at node s) x =
      (unfold received_at in refl) in
    ground (
      arith,
      other,
      string_beq_iff e.type "PUT",
      string_beq_iff e.type "RECEIVED",
      string_beq_iff "PUT" "RECEIVED",
      received-record_received (lookup e.fs_node_name s.terminators) e s node x,
    )

pub terminators-run_events :
    (es : List CrudEvent) (s : Completion) → (run_events es s).terminators ≡ s.terminators
unfolding run_events
terminators-run_events [] s = refl
terminators-run_events (e ∷ es) s =
    terminators-run_events es (record_crud_for_completion e s).1 ∙ terminators-record_crud e s

produced-run_events :
    (es : List CrudEvent) (s : Completion) (x : String)
    → contains (run_events es s).produced x ≡ (any (is_put x) es || contains s.produced x)
unfolding run_events any
produced-run_events [] s x = refl
produced-run_events (e ∷ es) s x =
    ground (
      arith,
      produced-run_events es (record_crud_for_completion e s).1 x,
      produced-record_crud e s x,
    )

received-run_events :
    (es : List CrudEvent) (s : Completion) (node x : String)
    → contains (received_at node (run_events es s)) x ≡ (
        (member node s.terminators && any (is_received node x) es)
        || contains (received_at node s) x)
unfolding run_events any
received-run_events [] s node x = ground arith
received-run_events (e ∷ es) s node x =
    let same : member node (record_crud_for_completion e s).1.terminators
        ≡ member node s.terminators =
      ap (member node) (terminators-record_crud e s) in
    ground (
      arith,
      received-run_events es (record_crud_for_completion e s).1 node x,
      received-record_crud e s node x,
      same,
    )

-- Behind any stream of events, the files that the executor knows as produced are those that were
-- put, and those that it knows of at a node are those that the node has received, if it is a
-- terminator, and none otherwise.
pub run_events_lem :
    (es : List CrudEvent) (terminators : Map String CompletionRule) (node x : String)
    → let s = run_events es (new_completion terminators) in
      (contains s.produced x ≡ any (is_put x) es)
      × (contains (received_at node s) x ≡ (member node terminators && any (is_received node x) es))
unfolding new_completion contains
run_events_lem es terminators node x =
    let none_yet : contains (received_at node (new_completion terminators)) x ≡ false =
      unfold received_at lookup in refl in
    (
      ground (arith, produced-run_events es (new_completion terminators) x),
      ground (arith, none_yet, received-run_events es (new_completion terminators) node x),
    )
