-- ===== src/MetricsBridge/IpMap/Addresses.antt =====
-- The two indices of `IPMap`, and `TrimPort`
-- (internal-components/metrics-bridge/internal/state/state.go).
use yass_simulator.Base.{
  ℕ, String, ◌≡◌, ◌≢◌, refl, Bool, false, Option, none, some, List, [], ◌∷◌, ◌++◌, arith, ◌==◌,
  string_eq, nat_eq, string_beq_iff, if◌then◌else◌, ◌||◌, beq_refl, Bool-cases, contains, inl, inr,
}
use yass_simulator.Base.Map.{Map, lookup, insert, delete, lookup-insert, lookup-delete}
use yass_simulator.MetricsBridge.IpMap.{
  NodeRef, IpMap, new_ip_map, forget_previous, place, set_node, lookup_node, node_type_of,
  trim_port, before_last_colon, or_zero,
}

-- The node of every address has that address as its own.
pub record IsConsistent (m : IpMap) : Type 0 where
  pub owner :
      (ip : String) (ref : NodeRef)
      → lookup ip m.by_ip ≡ some ref
      → lookup ref.fs_node m.by_name ≡ some ip

pub new_ip_map-IsConsistent : IsConsistent new_ip_map
unfolding new_ip_map lookup
new_ip_map-IsConsistent = record { owner = λ ip ref h. cc }

lookup-forget_previous :
    (prev : Option String) (ip other : String) (refs : Map String NodeRef) (ref : NodeRef)
    → lookup other (forget_previous prev ip refs) ≡ some ref
    → (lookup other refs ≡ some ref) × (prev ≡ some other → ip ≡ other)
unfolding forget_previous
lookup-forget_previous none ip other refs ref h = (h, λ e. cc)
lookup-forget_previous (some prev) ip other refs ref h = (
  ground (arith, lookup-delete prev other refs, string_beq_iff prev ip, string_beq_iff prev other),
  λ e.
      ground
        (arith, lookup-delete prev other refs, string_beq_iff prev ip, string_beq_iff prev other),
)

owner-place :
    (ip fs_node node_type other : String) (ref : NodeRef) (m : IpMap)
    → IsConsistent m
    → lookup other (place ip fs_node node_type m).by_ip ≡ some ref
    → lookup ref.fs_node (place ip fs_node node_type m).by_name ≡ some other
unfolding place
owner-place ip fs_node node_type other ref m c h =
    let refs = forget_previous (lookup fs_node m.by_name) ip m.by_ip in
    let kept = lookup-forget_previous (lookup fs_node m.by_name) ip other m.by_ip ref in
    ground (
      arith,
      lookup-insert ip other (record { fs_node = fs_node; node_type = node_type }) refs,
      lookup-insert fs_node ref.fs_node ip m.by_name,
      string_beq_iff ip other,
      string_beq_iff fs_node ref.fs_node,
      kept,
      c.owner other ref,
    )

-- Set keeps the indices consistent: the node that an address leads to has that address as its own,
-- so no node is listed under two addresses.
pub set_node-IsConsistent :
    (ip fs_node node_type : String) (m : IpMap)
    → IsConsistent m
    → IsConsistent (set_node ip fs_node node_type m)
unfolding set_node
set_node-IsConsistent ip fs_node node_type m c = elim (Bool-cases (ip == "" || fs_node == "")) [
  | inl empty ↦ rw empty c
  | inr given ↦
      rw given (record { owner = λ other ref. owner-place ip fs_node node_type other ref m c })
]

-- The address is the one that the node had.
unfoldable pub is_address : String → Option String → Bool
is_address other prev = elim prev [ none ↦ false | some ip ↦ other == ip ]

lookup-place :
    (prev : Option String) (ip other : String) (ref : NodeRef) (refs : Map String NodeRef)
    → lookup other (insert ip ref (forget_previous prev ip refs)) ≡ (
        if other == ip then some ref else if is_address other prev then none else lookup other refs)
unfolding forget_previous is_address
lookup-place none ip other ref refs =
    ground
      (arith, lookup-insert ip other ref refs, string_beq_iff ip other, string_beq_iff other ip)
lookup-place (some prev) ip other ref refs = ground (
  arith,
  lookup-insert ip other ref refs,
  lookup-insert ip other ref (delete prev refs),
  lookup-delete prev other refs,
  string_beq_iff ip other,
  string_beq_iff prev other,
  string_beq_iff other ip,
  string_beq_iff other prev,
  string_beq_iff prev ip,
)

set_node_given :
    (ip fs_node node_type : String) (m : IpMap)
    → ip ≢ ""
    → fs_node ≢ ""
    → set_node ip fs_node node_type m ≡ place ip fs_node node_type m
unfolding set_node
set_node_given ip fs_node node_type m i f =
    ground (arith, string_beq_iff ip "", string_beq_iff fs_node "")

-- Set with an address and a node makes the node the one behind the address, and the given type the
-- node's; the node's previous address, if it is another, leads to no node any more, and every other
-- address is read as before.
pub lookup_node-set_node :
    (ip fs_node node_type other : String) (m : IpMap)
    → ip ≢ ""
    → fs_node ≢ ""
    → let m' = set_node ip fs_node node_type m in
      (lookup_node ip m' ≡ record { fs_node = fs_node; node_type = node_type })
      × (node_type_of fs_node m' ≡ node_type)
      × (lookup_node other m' ≡ (
          if other == ip
          then record { fs_node = fs_node; node_type = node_type }
          else if is_address other (lookup fs_node m.by_name)
          then record { fs_node = ""; node_type = "" }
          else lookup_node other m))
unfolding place lookup_node node_type_of or_zero
lookup_node-set_node ip fs_node node_type other m i f =
    let refs = forget_previous (lookup fs_node m.by_name) ip m.by_ip in
    let ref : NodeRef = record { fs_node = fs_node; node_type = node_type } in
    let there : lookup ip (insert ip ref refs) ≡ some ref = rw (lookup-insert, beq_refl) in
    rw (set_node_given ip fs_node node_type m i f) (
      rw there,
      ground (
        arith,
        there,
        lookup-insert fs_node fs_node ip m.by_name,
        string_beq_iff fs_node fs_node,
      ),
      ground (arith, lookup-place (lookup fs_node m.by_name) ip other ref m.by_ip),
    )

before_last_colon-none :
    (port : List ℕ) → contains port b':' ≡ false → before_last_colon port ≡ none
unfolding before_last_colon contains
before_last_colon-none [] h = refl
before_last_colon-none (c ∷ cs) h = ground (arith, before_last_colon-none cs)

before_last_colon-append :
    (host port : List ℕ)
    → contains port b':' ≡ false
    → before_last_colon (host ++ b':' ∷ port) ≡ some host
unfolding before_last_colon
before_last_colon-append [] port h = rw (before_last_colon-none port h)
before_last_colon-append (c ∷ cs) port h = rw (before_last_colon-append cs port h)

-- A port without a colon, and the colon before it, are cut off an address; a text without a colon
-- is kept.
pub trim_port-append :
    (host port : List ℕ)
    → contains port b':' ≡ false
    → (trim_port (host ++ b':' ∷ port) ≡ host) × (trim_port port ≡ port)
unfolding trim_port
trim_port-append host port h = (
  rw (before_last_colon-append host port h, trim_port),
  rw (before_last_colon-none port h, trim_port),
)
