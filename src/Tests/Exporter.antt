-- ===== src/Tests/Exporter.antt =====
-- The theorems on internal-components/mqtt2prom at concrete inputs.
use yass_simulator.Base.{◌⊎◌, true, ℕ, ◌≡◌, refl, none, some, List, [], ◌∷◌, nat_eq}
use yass_simulator.Base.Map.{lookup, insert, member, delete}
use yass_simulator.Mqtt2Prom.Labels.{
  merge_labels, sorted_keys, written, Text, text_eq, Labels, Meta, ordered_values, serialize_labels,
  parse_hash,
}
use yass_simulator.Mqtt2Prom.Labels.RoundTrip.{are_plain, is_plain, lookup-parse_hash}
use yass_simulator.Mqtt2Prom.Labels.Unescaped.{lookup-parse_hash_equals}
use yass_simulator.Mqtt2Prom.Histogram.{HistogramStore, new_histogram_store}
use yass_simulator.Mqtt2Prom.Collector.{
  Snapshot, histogram, decoded, empty, registered, Client, RegisteredVec, new_collector, bucket_map,
  Collector, handle_snapshot, handle_meta,
}
use yass_simulator.Mqtt2Prom.Collector.Owners.{
  Message, about_aggregator, about_series, IsKnown, handle_all, IsKnown-handle_all,
}
use yass_simulator.Mqtt2Prom.Collector.Dropped.{shown_in}
use yass_simulator.Mqtt2Prom.Collector.Evicted.{handle_meta-handle_snapshot}

abbrev node : Text
node = b'n' ∷ b'o' ∷ b'd' ∷ b'e' ∷ []

abbrev sat : Text
sat = b's' ∷ b'a' ∷ b't' ∷ []

abbrev one_label : Labels
one_label = (node, sat) ∷ []

lookup-parse_hash_example : lookup node (parse_hash (serialize_labels one_label)) ≡ some sat
unfolding are_plain is_plain lookup
lookup-parse_hash_example = lookup-parse_hash one_label node refl

-- A label with a = and one without.
abbrev two_labels : Labels
two_labels = (node, b'a' ∷ b'=' ∷ b'b' ∷ []) ∷ (sat, node) ∷ []

lookup-parse_hash_equals_example :
    (lookup node (parse_hash (serialize_labels two_labels)) ≡ none)
    × ((member (b'a' ∷ []) two_labels ≡ true)
        ⊎ (lookup (b'a' ∷ []) (parse_hash (serialize_labels two_labels)) ≡ some (b'b' ∷ [])))
unfolding is_plain are_plain lookup delete
lookup-parse_hash_equals_example =
    lookup-parse_hash_equals two_labels node (b'a' ∷ []) (b'b' ∷ []) refl refl refl refl (λ e. cc)
      refl

-- A client whose gauges are numbers, and whose registry takes everything; numbers stand for floats.
abbrev client : Client ℕ ℕ
client = record {
  new_gauge_vec = λ name labels. 0;
  register_gauge = λ name labels. registered;
  register_histogram = λ name labels. registered;
  set_gauge = λ values x g. some x;
  delete_gauge = λ labels g. 0;
}

abbrev some_snapshot : Snapshot ℕ
some_snapshot = record {
  metric = node;
  kind = histogram;
  aggregator = sat;
  labels = one_label;
  value = none;
  sum = some 7;
  count = some 2;
  buckets = (5, 1) ∷ (10, 2) ∷ [];
}

abbrev about_sat : Meta
about_sat = record {
  aggregator = sat;
  experiment = [];
  engine = [];
  run_id = [];
  layout = [];
  namespace = [];
}

abbrev messages : List (Message ℕ)
messages =
    about_aggregator sat (decoded about_sat)
    ∷ about_series (some some_snapshot)
    ∷ about_aggregator sat empty
    ∷ []

IsKnown-handle_all_example : IsKnown (handle_all client messages new_collector)
IsKnown-handle_all_example = IsKnown-handle_all client messages

abbrev all_labels : Labels
all_labels = merge_labels one_label about_sat

abbrev store : HistogramStore ℕ
store = new_histogram_store node (sorted_keys all_labels)

abbrev vec : RegisteredVec ℕ ℕ
vec = record {
  kind = histogram;
  labels = sorted_keys all_labels;
  gauge = none;
  histogram = some store;
}

abbrev collector : Collector ℕ ℕ
collector = record { metas = (sat, about_sat) ∷ []; vecs = (node, vec) ∷ []; owners = [] }

handle_meta-handle_snapshot_example :
    let values = ordered_values vec.labels all_labels in
    let c' = handle_snapshot client (some some_snapshot) collector in
    (shown_in node values c'
      ≡ some
          (record { label_values = values; buckets = (5, 1) ∷ (10, 2) ∷ []; sum = 7; count = 2 }))
    × (shown_in node values (handle_meta client sat empty c') ≡ none)
unfolding new_histogram_store are_plain is_plain lookup bucket_map insert merge_labels sorted_keys
    written
handle_meta-handle_snapshot_example =
    handle_meta-handle_snapshot client some_snapshot about_sat vec store collector 7 2 refl refl
      refl refl refl refl refl refl refl refl
