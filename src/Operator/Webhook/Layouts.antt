-- ===== src/Operator/Webhook/Layouts.antt =====
-- Layouts and nodes: `LayoutWebhook`, `FsNodeCustomValidator`, `FsNodeCustomDefaulter` and
-- yass-operator/internal/webhook/v1/validation-utils.go.
pub mod Admitted
use yass_simulator.Base.{
  ℕ, ◌+◌, String, Bool, true, false, ◌&&◌, ◌||◌, not, Option, none, some, List, [], ◌∷◌, ◌++◌, ltb,
  ◌==◌, string_eq, if◌then◌else◌, length, contains,
}

abbrev pub max_fs_nodes : ℕ
max_fs_nodes = 256

abbrev pub valid_node_types : List String
valid_node_types = "satellite" ∷ "groundStation" ∷ []

unfoldable pub is_valid_node_type : String → Bool
is_valid_node_type type = contains valid_node_types type

-- The errors, with the index of the element.
pub data Invalid : Type 0 where
  too_many_nodes : Invalid
  not_two_lines first_line second_line node_type : ℕ → Invalid

-- A node of a layout: its type, and the lines of its orbit if it has one.
pub record NodeSpec : Type 0 where
  pub type : String
  pub tle : Option (List String)

-- The two regular expressions for the lines of an orbit.
pub record Matchers : Type 0 where
  pub line_1 : String → Bool
  pub line_2 : String → Bool

checked : Bool → Invalid → List Invalid → List Invalid
checked true e errors = errors
checked false e errors = errors ++ e ∷ []

module _ (matchers : Matchers) where
  -- The errors so far, and those of the lines.
  unfoldable pub validate_tle : List String → ℕ → List Invalid → List Invalid
  unfolding checked
  validate_tle (first ∷ second ∷ []) i errors =
      checked (matchers.line_2 second) (second_line i)
        (checked (matchers.line_1 first) (first_line i) errors)
  validate_tle _ i errors = errors ++ not_two_lines i ∷ []

  unfoldable pub validate_orbit : Option (List String) → ℕ → List Invalid → List Invalid
  validate_orbit none i errors = errors
  validate_orbit (some lines) i errors = validate_tle lines i errors

  unfoldable pub validate_node : NodeSpec → ℕ → List Invalid → List Invalid
  unfolding checked
  validate_node node i errors =
      checked (is_valid_node_type node.type) (node_type i) (validate_orbit node.tle i errors)

  -- The loop over the nodes.
  unfoldable pub validate_nodes : List NodeSpec → ℕ → List Invalid → List Invalid
  validate_nodes [] i errors = errors
  validate_nodes (node ∷ nodes) i errors =
      validate_nodes nodes (i + 1) (validate_node node i errors)

  unfoldable pub validate_layout : List NodeSpec → List Invalid
  unfolding checked
  validate_layout nodes =
      validate_nodes nodes 0 (checked (not (ltb max_fs_nodes (length nodes))) too_many_nodes [])

  -- FsNodeCustomValidator.validate
  unfoldable pub validate_fs_node : NodeSpec → List Invalid
  validate_fs_node node = validate_node node 0 []

-- FsNodeCustomDefaulter.Default, and one round of LayoutWebhook.Default.
unfoldable pub default_node : NodeSpec → NodeSpec
default_node node = if node.type == "" then record node { type = "satellite" } else node

unfoldable pub default_layout : List NodeSpec → List NodeSpec
default_layout [] = []
default_layout (node ∷ nodes) = default_node node ∷ default_layout nodes
