-- ===== src/Mqtt2Prom/Labels.antt =====
-- Labels and their text form: `mergeLabels`, `sortedKeys`, `orderedValues`, `sameOrSubset`,
-- `serializeLabels` and `parseHash` of internal-components/mqtt2prom/main.go. A text is the list of
-- its bytes.
pub mod RoundTrip
pub mod Unescaped
use yass_simulator.Base.{
  ℕ, ◌+◌, ◌/◌, ◌%◌, ◌≡◌, ◌↔◌, Bool, true, false, ◌&&◌, ◌||◌, Option, none, some, List, [], ◌∷◌,
  ◌++◌, arith, ltb, Comparable, ◌==◌, nat_eq, nat_beq, if◌then◌else◌,
}
use yass_simulator.Base.Map.{Map, lookup, insert, keys}

abbrev pub Text : Type 0
Text = List ℕ

abbrev pub text_beq : Text → Text → Bool
text_beq [] [] = true
text_beq (a ∷ s) (b ∷ t) = nat_beq a b && text_beq s t
text_beq _ _ = false

pub text_beq_iff : (s t : Text) → (text_beq s t ≡ true) ↔ (s ≡ t)
text_beq_iff [] [] = ground arith
text_beq_iff [] (b ∷ t) = ground arith
text_beq_iff (a ∷ s) [] = ground arith
text_beq_iff (a ∷ s) (b ∷ t) = ground (arith, text_beq_iff s t)

instance abbrev pub text_eq : Comparable Text
text_eq = record { test = text_beq; test_iff = text_beq_iff }

abbrev pub Labels : Type 0
Labels = Map Text Text

pub record Meta : Type 0 where
  pub aggregator : Text
  pub experiment : Text
  pub engine : Text
  pub run_id : Text
  pub layout : Text
  pub namespace : Text

-- The order of Go's strings.
unfoldable pub precedes : Text → Text → Bool
precedes [] t = true
precedes (a ∷ s) [] = false
precedes (a ∷ s) (b ∷ t) = let rest = precedes s t in if ltb a b then true else nat_beq a b && rest

unfoldable pub insert_sorted : Text → List Text → List Text
unfolding precedes
insert_sorted k [] = k ∷ []
insert_sorted k (j ∷ js) =
    let rest = insert_sorted k js in if precedes k j then k ∷ j ∷ js else j ∷ rest

-- sort.Strings
unfoldable pub sorted : List Text → List Text
unfolding insert_sorted
sorted [] = []
sorted (k ∷ ks) = insert_sorted k (sorted ks)

unfoldable pub sorted_keys : Labels → List Text
unfolding sorted
sorted_keys m = sorted (keys m)

-- m[k], where a missing key reads as empty.
unfoldable pub value_of : Labels → Text → Text
value_of m k = elim (lookup k m) [ none ↦ [] | some v ↦ v ]

unfoldable pub ordered_values : List Text → Labels → List Text
ordered_values [] m = []
ordered_values (k ∷ ks) m = value_of m k ∷ ordered_values ks m

abbrev pub same_or_subset : List Text → List Text → Bool
same_or_subset [] [] = true
same_or_subset (h ∷ have) (w ∷ want) = text_beq h w && same_or_subset have want
same_or_subset _ _ = false

-- Writes the given labels over the others.
unfoldable pub written : Labels → Labels → Labels
written [] out = out
written ((k, v) ∷ m) out = written m (insert k v out)

abbrev pub experiment_name : Text
experiment_name = b'e' ∷ b'x' ∷ b'p' ∷ b'e' ∷ b'r' ∷ b'i' ∷ b'm' ∷ b'e' ∷ b'n' ∷ b't' ∷ []

abbrev pub engine_name : Text
engine_name = b'e' ∷ b'n' ∷ b'g' ∷ b'i' ∷ b'n' ∷ b'e' ∷ []

abbrev pub run_id_name : Text
run_id_name = b'r' ∷ b'u' ∷ b'n' ∷ b'_' ∷ b'i' ∷ b'd' ∷ []

abbrev pub layout_name : Text
layout_name = b'l' ∷ b'a' ∷ b'y' ∷ b'o' ∷ b'u' ∷ b't' ∷ []

abbrev pub namespace_name : Text
namespace_name = b'n' ∷ b'a' ∷ b'm' ∷ b'e' ∷ b's' ∷ b'p' ∷ b'a' ∷ b'c' ∷ b'e' ∷ []

unfoldable pub merge_labels : Labels → Meta → Labels
merge_labels labels m = written labels (
    (experiment_name, m.experiment)
    ∷ (engine_name, m.engine)
    ∷ (run_id_name, m.run_id)
    ∷ (layout_name, m.layout)
    ∷ (namespace_name, m.namespace)
    ∷ [])

-- The loop of serializeLabels.
unfoldable pub serialize_keys : List Text → Labels → Text
serialize_keys [] m = []
serialize_keys (k ∷ ks) m = k ++ (b'=' ∷ (value_of m k ++ (b';' ∷ serialize_keys ks m)))

unfoldable pub serialize_labels : Labels → Text
serialize_labels m = serialize_keys (sorted_keys m) m

-- string(c) of one byte: the UTF-8 form of the character with that number.
unfoldable pub of_byte : ℕ → Text
of_byte c = if ltb c 128 then c ∷ [] else (192 + c / 64) ∷ (128 + c % 64) ∷ []

-- The loop of parseHash, with its variables `cur`, `k` and `out`.
unfoldable pub parse_from : Text → Text → Text → Labels → Labels
unfolding of_byte
parse_from [] cur k out = out
parse_from (c ∷ s) cur k out =
    let at_equals = parse_from s [] cur out in
    let at_semicolon = parse_from s [] [] (insert k cur out) in
    let at_other = parse_from s (cur ++ of_byte c) k out in
    if c == b'=' then at_equals else if c == b';' then at_semicolon else at_other

unfoldable pub parse_hash : Text → Labels
parse_hash s = parse_from s [] [] []
