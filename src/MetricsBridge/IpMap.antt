-- ===== src/MetricsBridge/IpMap.antt =====
-- `IPMap` and `TrimPort` of internal-components/metrics-bridge/internal/state/state.go: the node
-- behind an address, as learnt from the online states.
pub mod Addresses
use yass_simulator.Base.{
  ℕ, suc, String, Bool, true, false, ◌&&◌, ◌||◌, not, Option, none, some, List, [], ◌∷◌, ◌==◌,
  string_eq, nat_eq, if◌then◌else◌,
}
use yass_simulator.Base.Map.{Map, lookup, insert, delete}

pub record NodeRef : Type 0 where
  pub fs_node : String
  pub node_type : String

pub record IpMap : Type 0 where
  pub by_ip : Map String NodeRef
  pub by_name : Map String String

unfoldable pub new_ip_map : IpMap
new_ip_map = record { by_ip = []; by_name = [] }

-- `if prev, ok := m.byName[fsNode]; ok && prev != ip { delete(m.byIP, prev) }`
unfoldable pub forget_previous : Option String → String → Map String NodeRef → Map String NodeRef
forget_previous none ip refs = refs
forget_previous (some prev) ip refs = if prev == ip then refs else delete prev refs

-- The writes of Set, where neither the address nor the node is empty.
unfoldable pub place : String → String → String → IpMap → IpMap
unfolding forget_previous
place ip fs_node node_type m = record {
  by_name = insert fs_node ip m.by_name;
  by_ip =
      insert ip (record { fs_node = fs_node; node_type = node_type })
        (forget_previous (lookup fs_node m.by_name) ip m.by_ip);
}

unfoldable pub set_node : String → String → String → IpMap → IpMap
set_node ip fs_node node_type m =
    if ip == "" || fs_node == "" then m else place ip fs_node node_type m

-- A missing key reads as the zero value.
or_zero : Option NodeRef → NodeRef
or_zero none = record { fs_node = ""; node_type = "" }
or_zero (some ref) = ref

unfoldable pub lookup_node : String → IpMap → NodeRef
unfolding or_zero
lookup_node ip m = or_zero (lookup ip m.by_ip)

unfoldable pub node_type_of : String → IpMap → String
unfolding lookup_node
node_type_of fs_node m = elim (lookup fs_node m.by_name) [
  | none ↦ ""
  | some ip ↦ (lookup_node ip m).node_type
]

-- The text before the last colon, if there is one. The text is a list of bytes.
before_last_colon : List ℕ → Option (List ℕ)
before_last_colon [] = none
before_last_colon (c ∷ cs) = elim (before_last_colon cs) [
  | some host ↦ some (c ∷ host)
  | none ↦ if c == b':' then some [] else none
]

unfoldable pub trim_port : List ℕ → List ℕ
unfolding before_last_colon
trim_port addr = elim (before_last_colon addr) [ none ↦ addr | some host ↦ host ]
