-- ===== src/Mqtt2Prom/Collector.antt =====
-- `collector` of internal-components/mqtt2prom/main.go: what a message of an aggregator changes. The
-- mutex makes each handler one step. A message is given as decoded.
pub mod Owners
pub mod Series
pub mod Dropped
pub mod Evicted
use yass_simulator.Base.{
  ℕ, ◌≡◌, ◌↔◌, Bool, true, false, ◌&&◌, ◌||◌, not, Option, none, some, List, [], ◌∷◌, ◌++◌, arith,
  Comparable, ◌==◌, if◌then◌else◌,
}
use yass_simulator.Base.Map.{Map, lookup, insert, delete}
use yass_simulator.Mqtt2Prom.Labels.{
  Text, text_beq, text_beq_iff, text_eq, Labels, Meta, sorted_keys, ordered_values, same_or_subset,
  merge_labels, serialize_labels, parse_hash,
}
use yass_simulator.Mqtt2Prom.Histogram.{
  HistogramStore, new_histogram_store, update_histogram, delete_histogram,
}

-- The kinds of metrics, by the texts that the code compares with.
pub data Kind : Type 0 where
  counter gauge histogram other_kind : Kind

-- A snapshot of one series; F is float64. An empty metric or aggregator is a missing one.
pub record Snapshot (F : Type 0) : Type 0 where
  pub metric : Text
  pub kind : Kind
  pub aggregator : Text
  pub labels : Labels
  pub value : Option F
  pub sum : Option F
  pub count : Option ℕ
  pub buckets : List (F × ℕ)

-- The body of a message on an aggregator.
pub data Body : Type 0 where
  empty undecodable : Body
  decoded : Meta → Body

pub record RegistryKey : Type 0 where
  pub metric : Text
  pub hash : Text

abbrev pub key_beq : RegistryKey → RegistryKey → Bool
key_beq a b = text_beq a.metric b.metric && text_beq a.hash b.hash

pub key_beq_iff : (a b : RegistryKey) → (key_beq a b ≡ true) ↔ (a ≡ b)
key_beq_iff a b = ground (arith, text_beq_iff a.metric b.metric, text_beq_iff a.hash b.hash)

instance abbrev pub key_eq : Comparable RegistryKey
key_eq = record { test = key_beq; test_iff = key_beq_iff }

-- The answer to a registration: done, another collector has the name, or another error.
pub data Registration (C : Type 0) : Type 0 where
  registered not_registered : Registration C
  existed : C → Registration C

-- The client library of Prometheus: the vectors of gauges of type G, and the answers of the registry.
pub record Client (F G : Type 0) : Type 0 where
  pub new_gauge_vec : Text → List Text → G
  pub register_gauge : Text → List Text → Registration G
  -- the collector that exists need not be a histogramStore
  pub register_histogram : Text → List Text → Registration (Option (HistogramStore F))
  -- GetMetricWithLabelValues and Set; none is its error
  pub set_gauge : List Text → F → G → Option G
  pub delete_gauge : Labels → G → G

pub record RegisteredVec (F G : Type 0) : Type 0 where
  pub kind : Kind
  pub labels : List Text
  pub gauge : Option G
  pub histogram : Option (HistogramStore F)

pub record Collector (F G : Type 0) : Type 0 where
  pub metas : Map Text Meta
  pub vecs : Map Text (RegisteredVec F G)
  pub owners : Map RegistryKey Text

abbrev pub new_collector : {F G : Type 0} → Collector F G
new_collector = record { metas = []; vecs = []; owners = [] }

-- What a registration leaves.
kept_collector : {C : Type 0} → C → Registration C → Option C
kept_collector new registered = some new
kept_collector new (existed old) = some old
kept_collector new not_registered = none

kept_histogram :
    {F : Type 0}
    → HistogramStore F
    → Registration (Option (HistogramStore F))
    → Option (HistogramStore F)
kept_histogram new registered = some new
kept_histogram new (existed old) = old
kept_histogram new not_registered = none

-- The map of the buckets; a later bucket of the same bound replaces an earlier one.
unfoldable pub bucket_map : {F : Type 0} ⦃e : Comparable F⦄ → List (F × ℕ) → Map F ℕ → Map F ℕ
bucket_map [] m = m
bucket_map ((bound, count) ∷ bs) m = bucket_map bs (insert bound count m)

module _ {F G : Type 0} ⦃e : Comparable F⦄ (client : Client F G) where
  unfoldable pub register_locked : Text → Kind → List Text → RegisteredVec F G
  unfolding kept_collector kept_histogram
  register_locked name histogram labels = record {
    kind = histogram;
    labels = labels;
    gauge = none;
    histogram =
        kept_histogram (new_histogram_store name labels) (client.register_histogram name labels);
  }
  register_locked name other_kind labels = record {
    kind = other_kind;
    labels = labels;
    gauge = none;
    histogram = none;
  }
  register_locked name kind labels = record {
    kind = kind;
    labels = labels;
    gauge = kept_collector (client.new_gauge_vec name labels) (client.register_gauge name labels);
    histogram = none;
  }

  -- The new contents where there is a value and no error, else the old ones.
  set_value : List Text → Option F → Option G → Option G
  set_value values (some x) (some g) = elim (client.set_gauge values x g) [
    | none ↦ some g
    | some g' ↦ some g'
  ]
  set_value values x g = g

  unfoldable pub update_store :
      List Text
      → List (F × ℕ)
      → Option F
      → Option ℕ
      → Option (HistogramStore F)
      → Option (HistogramStore F)
  unfolding bucket_map
  update_store values buckets (some sum) (some count) (some h) =
      elim (update_histogram values (bucket_map buckets []) sum count h) [
        | none ↦ some h
        | some h' ↦ some h'
      ]
  update_store values buckets sum count h = h

  unfoldable pub set_series : Snapshot F → List Text → RegisteredVec F G → RegisteredVec F G
  unfolding set_value update_store
  set_series s values v = elim v.kind [
    | counter ↦ record v { gauge = set_value values s.value v.gauge }
    | gauge ↦ record v { gauge = set_value values s.value v.gauge }
    | histogram ↦ record v { histogram = update_store values s.buckets s.sum s.count v.histogram }
    | other_kind ↦ v
  ]

  -- With the vector of the metric.
  unfoldable pub store_series :
      Snapshot F → Labels → RegisteredVec F G → Collector F G → Collector F G
  store_series s labels v c =
      let c' = record c { vecs = insert s.metric v c.vecs } in
      if not (same_or_subset v.labels (sorted_keys labels)) then c' else record c {
        vecs = insert s.metric (set_series s (ordered_values v.labels labels) v) c.vecs;
        owners =
            insert (record { metric = s.metric; hash = serialize_labels labels }) s.aggregator
              c.owners;
      }

  -- With the vector of the metric, if there is one.
  unfoldable pub store_in :
      Snapshot F → Labels → Option (RegisteredVec F G) → Collector F G → Collector F G
  store_in s labels none c =
      store_series s labels (register_locked s.metric s.kind (sorted_keys labels)) c
  store_in s labels (some v) c = store_series s labels v c

  -- With the meta of the aggregator.
  unfoldable pub handled : Snapshot F → Option Meta → Collector F G → Collector F G
  handled s none c = c
  handled s (some m) c = store_in s (merge_labels s.labels m) (lookup s.metric c.vecs) c

  unfoldable pub handle_snapshot : Option (Snapshot F) → Collector F G → Collector F G
  handle_snapshot none c = c
  handle_snapshot (some s) c =
      if text_beq s.metric [] || text_beq s.aggregator []
      then c
      else handled s (lookup s.aggregator c.metas) c

  delete_in_gauge : Labels → Option G → Option G
  delete_in_gauge labels none = none
  delete_in_gauge labels (some g) = some (client.delete_gauge labels g)

  unfoldable pub delete_in_store : List Text → Option (HistogramStore F) → Option (HistogramStore F)
  delete_in_store values none = none
  delete_in_store values (some h) = some (delete_histogram values h)

  unfoldable pub delete_series : Labels → RegisteredVec F G → RegisteredVec F G
  unfolding delete_in_gauge delete_in_store
  delete_series labels v = elim v.kind [
    | counter ↦ record v { gauge = delete_in_gauge labels v.gauge }
    | gauge ↦ record v { gauge = delete_in_gauge labels v.gauge }
    | histogram ↦ record v {
      histogram = delete_in_store (ordered_values v.labels labels) v.histogram;
    }
    | other_kind ↦ v
  ]

  unfoldable pub drop_series : RegistryKey → Collector F G → Collector F G
  drop_series key c = elim (lookup key.metric c.vecs) [
    | none ↦ record c { owners = delete key c.owners }
    | some v ↦ record c {
      vecs = insert key.metric (delete_series (parse_hash key.hash) v) c.vecs;
      owners = delete key c.owners;
    }
  ]

  -- The loop over the owners.
  unfoldable pub evict_owned : Text → Map RegistryKey Text → Collector F G → Collector F G
  evict_owned aggregator [] c = c
  evict_owned aggregator ((key, owner) ∷ others) c =
      evict_owned aggregator others (if owner == aggregator then drop_series key c else c)

  unfoldable pub evict_aggregator_locked : Text → Collector F G → Collector F G
  evict_aggregator_locked aggregator c = evict_owned aggregator c.owners c

  -- The meta with the name of its topic, where it states none.
  unfoldable pub named : Text → Meta → Meta
  named aggregator m = if text_beq m.aggregator [] then record m { aggregator = aggregator } else m

  unfoldable pub handle_meta : Text → Body → Collector F G → Collector F G
  unfolding named
  handle_meta aggregator empty c =
      evict_aggregator_locked aggregator (record c { metas = delete aggregator c.metas })
  handle_meta aggregator undecodable c = c
  handle_meta aggregator (decoded m) c = record c {
    metas = insert aggregator (named aggregator m) c.metas;
  }
