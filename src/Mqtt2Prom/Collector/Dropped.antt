-- ===== src/Mqtt2Prom/Collector/Dropped.antt =====
-- What the collector shows of a histogram where series are dropped
-- (internal-components/mqtt2prom/main.go and histogram.go).
use yass_simulator.Base.{
  ◌≡◌, refl, sym, ap, ◌∙◌, true, false, Option, none, some, List, [], ◌∷◌, arith, Comparable, ◌==◌,
  Bool-cases, inl, inr, subst,
}
use yass_simulator.Base.Map.{Map, lookup, insert, delete, lookup-insert}
use yass_simulator.Mqtt2Prom.Labels.{
  Text, text_beq, text_beq_iff, text_eq, Labels, ordered_values, serialize_labels, parse_hash,
}
use yass_simulator.Mqtt2Prom.Labels.RoundTrip.{are_plain}
use yass_simulator.Mqtt2Prom.Histogram.{HistogramSnapshot}
use yass_simulator.Mqtt2Prom.Collector.{
  histogram, RegistryKey, key_beq_iff, key_eq, Client, RegisteredVec, Collector, delete_series,
  drop_series, evict_owned,
}
use yass_simulator.Mqtt2Prom.Collector.Series.{
  shown, histogram-delete_series, kind-delete_series, labels-delete_series, shown-delete_other,
  shown-delete_series,
}

unfoldable pub shown_by :
    {F G : Type 0} → List Text → Option (RegisteredVec F G) → Option (HistogramSnapshot F)
shown_by values none = none
shown_by values (some v) = shown values v.histogram

-- What the collector shows of the histogram of a metric for the values.
unfoldable pub shown_in :
    {F G : Type 0} → Text → List Text → Collector F G → Option (HistogramSnapshot F)
unfolding shown_by
shown_in metric values c = shown_by values (lookup metric c.vecs)

-- The metric has a vector of histograms with these names of labels.
pub record HasVec {F G : Type 0} (metric : Text) (names : List Text) (c : Collector F G)
    : Type 0 where
  pub vec : RegisteredVec F G
  pub found : lookup metric c.vecs ≡ some vec
  pub kind : vec.kind ≡ histogram
  pub labels : vec.labels ≡ names

module _ {F G : Type 0} ⦃e : Comparable F⦄ (client : Client F G) where
  vecs-drop_series :
      (key : RegistryKey) (c : Collector F G) (v : RegisteredVec F G)
      → lookup key.metric c.vecs ≡ some v
      → (drop_series client key c).vecs
        ≡ insert key.metric (delete_series client (parse_hash key.hash) v) c.vecs
  unfolding drop_series
  vecs-drop_series key c v found =
      ap
        (λ (o : Option (RegisteredVec F G)).
          (elim o as (λ x. Collector F G) [
            | none ↦ record c { owners = delete key c.owners }
            | some w ↦ record c {
              vecs = insert key.metric (delete_series client (parse_hash key.hash) w) c.vecs;
              owners = delete key c.owners;
            }
          ]).vecs)
        found

  vecs-drop_nothing :
      (key : RegistryKey) (c : Collector F G)
      → lookup key.metric c.vecs ≡ none
      → (drop_series client key c).vecs ≡ c.vecs
  unfolding drop_series
  vecs-drop_nothing key c found =
      ap
        (λ (o : Option (RegisteredVec F G)).
          (elim o as (λ x. Collector F G) [
            | none ↦ record c { owners = delete key c.owners }
            | some w ↦ record c {
              vecs = insert key.metric (delete_series client (parse_hash key.hash) w) c.vecs;
              owners = delete key c.owners;
            }
          ]).vecs)
        found

  lookup-drop_other :
      (key : RegistryKey) (c : Collector F G) (metric : Text) (found : Option (RegisteredVec F G))
      → lookup key.metric c.vecs ≡ found
      → text_beq key.metric metric ≡ false
      → lookup metric (drop_series client key c).vecs ≡ lookup metric c.vecs
  lookup-drop_other key c metric none found other =
      ap (lookup metric) (vecs-drop_nothing key c found)
  lookup-drop_other key c metric (some v) found other =
      ap (lookup metric) (vecs-drop_series key c v found)
      ∙ lookup-insert key.metric metric (delete_series client (parse_hash key.hash) v) c.vecs
      ∙ ground (arith, other)

  lookup-drop_same :
      (key : RegistryKey) (c : Collector F G) (metric : Text) (v : RegisteredVec F G)
      → lookup metric c.vecs ≡ some v
      → key.metric ≡ metric
      → lookup metric (drop_series client key c).vecs
        ≡ some (delete_series client (parse_hash key.hash) v)
  lookup-drop_same key c metric v found same =
      ap (lookup metric)
        (vecs-drop_series key c v (ap (λ (m : Text). lookup m c.vecs) same ∙ found))
      ∙ lookup-insert key.metric metric (delete_series client (parse_hash key.hash) v) c.vecs
      ∙ ground (arith, text_beq_iff key.metric metric, same)

  module _ (metric : Text) (names : List Text) where
    HasVec-drop_series :
        (key : RegistryKey) (c : Collector F G)
        → HasVec metric names c
        → HasVec metric names (drop_series client key c)
    HasVec-drop_series key c has = elim (Bool-cases (text_beq key.metric metric)) [
      | inl same ↦ record {
        vec = delete_series client (parse_hash key.hash) has.vec;
        found =
            lookup-drop_same key c metric has.vec has.found
              ((text_beq_iff key.metric metric).0 same);
        kind = kind-delete_series client (parse_hash key.hash) has.vec ∙ has.kind;
        labels = labels-delete_series client (parse_hash key.hash) has.vec ∙ has.labels;
      }
      | inr other ↦ record {
        vec = has.vec;
        found = lookup-drop_other key c metric (lookup key.metric c.vecs) refl other ∙ has.found;
        kind = has.kind;
        labels = has.labels;
      }
    ]

    gone-drop_series :
        (values : List Text) (key : RegistryKey) (c : Collector F G)
        → HasVec metric names c
        → shown_in metric values c ≡ none
        → shown_in metric values (drop_series client key c) ≡ none
    unfolding shown_in shown_by
    gone-drop_series values key c has gone = elim (Bool-cases (text_beq key.metric metric)) [
      | inl same ↦
          let labels = parse_hash key.hash in
          ap (shown_by values) (
            lookup-drop_same key c metric has.vec has.found
              ((text_beq_iff key.metric metric).0 same))
          ∙ ap (shown values) (histogram-delete_series client labels has.vec has.kind)
          ∙ shown-delete_other client values (ordered_values has.vec.labels labels)
              has.vec.histogram (sym (ap (shown_by values) has.found) ∙ gone)
      | inr other ↦
          ap (shown_by values)
            (lookup-drop_other key c metric (lookup key.metric c.vecs) refl other)
          ∙ gone
    ]

    gone-evict_owned :
        (values : List Text) (a : Text) (others : Map RegistryKey Text) (c : Collector F G)
        → HasVec metric names c
        → shown_in metric values c ≡ none
        → shown_in metric values (evict_owned client a others c) ≡ none
    unfolding evict_owned
    gone-evict_owned values a [] c has gone = gone
    gone-evict_owned values a ((key, owner) ∷ others) c has gone =
        elim (Bool-cases (text_beq owner a)) [
          | inl own ↦ rw own (
              gone-evict_owned values a others (drop_series client key c)
                (HasVec-drop_series key c has) (gone-drop_series values key c has gone))
          | inr other ↦ rw other (gone-evict_owned values a others c has gone)
        ]

    module _ (labels : Labels) (plain : are_plain labels ≡ true) where
      abbrev pub key_of : RegistryKey
      key_of = record { metric = metric; hash = serialize_labels labels }

      gone-drop_own :
          (c : Collector F G)
          → HasVec metric names c
          → shown_in metric (ordered_values names labels) (drop_series client key_of c) ≡ none
      unfolding shown_in shown_by
      gone-drop_own c has =
          ap (shown_by (ordered_values names labels))
            (lookup-drop_same key_of c metric has.vec has.found refl)
          ∙ subst
              (λ (ks : List Text).
                shown (ordered_values ks labels)
                  (delete_series client (parse_hash (serialize_labels labels)) has.vec).histogram
                ≡ none)
              has.labels (shown-delete_series client labels has.vec has.kind plain)

      pub gone-evict_own :
          (a : Text) (others : Map RegistryKey Text) (c : Collector F G)
          → lookup key_of others ≡ some a
          → HasVec metric names c
          → shown_in metric (ordered_values names labels) (evict_owned client a others c) ≡ none
      unfolding evict_owned lookup
      gone-evict_own a [] c owned has = cc
      gone-evict_own a ((key, owner) ∷ others) c owned has = elim (Bool-cases (key == key_of)) [
        | inl same ↦
            let own : text_beq owner a ≡ true = ground (arith, same, owned, text_beq_iff owner a) in
            let c' = drop_series client key c in
            rw own (
              gone-evict_owned (ordered_values names labels) a others c'
                (HasVec-drop_series key c has)
                (subst
                  (λ (x : RegistryKey).
                    shown_in metric (ordered_values names labels) (drop_series client x c) ≡ none)
                  (sym ((key_beq_iff key key_of).0 same)) (gone-drop_own c has)))
        | inr other ↦
            let rest : lookup key_of others ≡ some a = ground (arith, other, owned) in
            elim (Bool-cases (text_beq owner a)) [
              | inl own ↦ rw own (
                  gone-evict_own a others (drop_series client key c) rest
                    (HasVec-drop_series key c has))
              | inr foreign ↦ rw foreign (gone-evict_own a others c rest has)
            ]
      ]
