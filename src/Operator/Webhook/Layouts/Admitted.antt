-- ===== src/Operator/Webhook/Layouts/Admitted.antt =====
-- Which layouts are admitted (yass-operator/internal/webhook/v1/layout_webhook.go).
use yass_simulator.Base.{
  ℕ, ◌+◌, ◌≡◌, refl, ap, ◌∙◌, String, Bool, true, false, ◌&&◌, ◌||◌, not, Option, none, some, List,
  [], ◌∷◌, ◌++◌, arith, ltb, leb, ◌==◌, string_eq, if◌then◌else◌, length, contains,
}
use yass_simulator.Operator.Webhook.Layouts.{
  max_fs_nodes, is_valid_node_type, Invalid, too_many_nodes, first_line, NodeSpec, Matchers,
  checked, validate_tle, validate_orbit, validate_node, validate_nodes, validate_layout,
  default_node, default_layout,
}

abbrev pub is_empty_list {ℓ} : {A : Type ℓ} → List A → Bool
is_empty_list [] = true
is_empty_list (x ∷ xs) = false

is_empty_list-append : (es : List Invalid) (e : Invalid) → is_empty_list (es ++ e ∷ []) ≡ false
is_empty_list-append [] e = refl
is_empty_list-append (x ∷ xs) e = refl

is_empty_list-checked :
    (b : Bool) (e : Invalid) (es : List Invalid)
    → is_empty_list (checked b e es) ≡ (b && is_empty_list es)
unfolding checked
is_empty_list-checked true e es = refl
is_empty_list-checked false e es = is_empty_list-append es e

type_of : Bool → String → String
type_of missing type = if missing then "satellite" else type

is_valid_node_type-type_of :
    (missing : Bool) (type : String)
    → is_valid_node_type (type_of missing type) ≡ (missing || is_valid_node_type type)
unfolding type_of is_valid_node_type contains
is_valid_node_type-type_of true type = refl
is_valid_node_type-type_of false type = refl

same_type :
    (missing : Bool) (node : NodeSpec)
    → (let completed : NodeSpec = if missing then record node { type = "satellite" } else node in
        completed.type)
      ≡ type_of missing node.type
unfolding type_of
same_type true node = refl
same_type false node = refl

type-default_node :
    (node : NodeSpec)
    → is_valid_node_type (default_node node).type
      ≡ (node.type == "" || is_valid_node_type node.type)
unfolding default_node type_of
type-default_node node =
    ap is_valid_node_type (same_type (node.type == "") node)
    ∙ is_valid_node_type-type_of (node.type == "") node.type

tle-default_node : (node : NodeSpec) → (default_node node).tle ≡ node.tle
unfolding default_node
tle-default_node node = ground arith

module _ (matchers : Matchers) where
  -- Two lines, both of the right form.
  unfoldable pub is_tle : List String → Bool
  is_tle (first ∷ second ∷ []) = matchers.line_1 first && matchers.line_2 second
  is_tle _ = false

  unfoldable pub is_orbit : Option (List String) → Bool
  unfolding is_tle
  is_orbit none = true
  is_orbit (some lines) = is_tle lines

  unfoldable pub is_node : NodeSpec → Bool
  is_node node = is_valid_node_type node.type && is_orbit node.tle

  unfoldable pub are_nodes : List NodeSpec → Bool
  are_nodes [] = true
  are_nodes (node ∷ nodes) = is_node node && are_nodes nodes

  is_empty_list-validate_tle :
      (lines : List String) (i : ℕ) (es : List Invalid)
      → is_empty_list (validate_tle matchers lines i es) ≡ (is_tle lines && is_empty_list es)
  unfolding validate_tle is_tle
  is_empty_list-validate_tle [] i es = is_empty_list-append es _
  is_empty_list-validate_tle (first ∷ []) i es = is_empty_list-append es _
  is_empty_list-validate_tle (first ∷ second ∷ []) i es =
      is_empty_list-checked (matchers.line_2 second) _ _
      ∙ ground (arith, is_empty_list-checked (matchers.line_1 first) (first_line i) es)
  is_empty_list-validate_tle (first ∷ second ∷ third ∷ lines) i es = is_empty_list-append es _

  is_empty_list-validate_orbit :
      (tle : Option (List String)) (i : ℕ) (es : List Invalid)
      → is_empty_list (validate_orbit matchers tle i es) ≡ (is_orbit tle && is_empty_list es)
  unfolding validate_orbit is_orbit
  is_empty_list-validate_orbit none i es = refl
  is_empty_list-validate_orbit (some lines) i es = is_empty_list-validate_tle lines i es

  is_empty_list-validate_node :
      (node : NodeSpec) (i : ℕ) (es : List Invalid)
      → is_empty_list (validate_node matchers node i es) ≡ (is_node node && is_empty_list es)
  unfolding validate_node is_node
  is_empty_list-validate_node node i es =
      is_empty_list-checked (is_valid_node_type node.type) _ _
      ∙ ground (arith, is_empty_list-validate_orbit node.tle i es)

  is_empty_list-validate_nodes :
      (nodes : List NodeSpec) (i : ℕ) (es : List Invalid)
      → is_empty_list (validate_nodes matchers nodes i es) ≡ (are_nodes nodes && is_empty_list es)
  unfolding validate_nodes are_nodes
  is_empty_list-validate_nodes [] i es = refl
  is_empty_list-validate_nodes (node ∷ nodes) i es =
      is_empty_list-validate_nodes nodes (i + 1) (validate_node matchers node i es)
      ∙ ground (arith, is_empty_list-validate_node node i es)

  validate_layout_lem :
      (nodes : List NodeSpec)
      → is_empty_list (validate_layout matchers nodes)
        ≡ (leb (length nodes) max_fs_nodes && are_nodes nodes)
  unfolding validate_layout
  validate_layout_lem nodes =
      is_empty_list-validate_nodes nodes 0 _
      ∙ ground
          (arith, is_empty_list-checked (not (ltb max_fs_nodes (length nodes))) too_many_nodes [])

  -- A node of a good orbit whose type is valid or missing.
  unfoldable pub is_completable : NodeSpec → Bool
  is_completable node = (node.type == "" || is_valid_node_type node.type) && is_orbit node.tle

  unfoldable pub are_completable : List NodeSpec → Bool
  are_completable [] = true
  are_completable (node ∷ nodes) = is_completable node && are_completable nodes

  is_node-default_node : (node : NodeSpec) → is_node (default_node node) ≡ is_completable node
  unfolding is_node is_completable
  is_node-default_node node = rw (type-default_node node, tle-default_node node) refl

  are_nodes-default_layout :
      (nodes : List NodeSpec) → are_nodes (default_layout nodes) ≡ are_completable nodes
  unfolding are_nodes default_layout are_completable
  are_nodes-default_layout [] = refl
  are_nodes-default_layout (node ∷ nodes) =
      ground (arith, is_node-default_node node, are_nodes-default_layout nodes)

  length-default_layout : (nodes : List NodeSpec) → length (default_layout nodes) ≡ length nodes
  unfolding default_layout
  length-default_layout [] = refl
  length-default_layout (node ∷ nodes) = omega (arith, length-default_layout nodes)

  -- A layout is admitted, with the defaults set first, exactly if it has at most 256 nodes, every node
  -- that states a type states one of the two, and every orbit that is given has two lines of the
  -- right form.
  pub validate_layout-default_layout :
      (nodes : List NodeSpec)
      → is_empty_list (validate_layout matchers (default_layout nodes))
        ≡ (leb (length nodes) max_fs_nodes && are_completable nodes)
  validate_layout-default_layout nodes =
      validate_layout_lem (default_layout nodes)
      ∙ rw (length-default_layout nodes, are_nodes-default_layout nodes) refl
