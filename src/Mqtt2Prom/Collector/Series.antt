-- ===== src/Mqtt2Prom/Collector/Series.antt =====
-- One series of a histogram, set and deleted
-- (internal-components/mqtt2prom/main.go and histogram.go).
use yass_simulator.Base.{
  ℕ, ◌≡◌, refl, sym, ap, ◌∙◌, true, Option, none, some, List, [], ◌∷◌, arith, Comparable, length,
}
use yass_simulator.Base.Map.{Map, insert, lookup-insert, lookup-delete}
use yass_simulator.Mqtt2Prom.Labels.{
  Text, text_beq_iff, text_eq, Labels, ordered_values, serialize_labels, parse_hash,
}
use yass_simulator.Mqtt2Prom.Labels.RoundTrip.{are_plain, ordered_values-parse_hash}
use yass_simulator.Mqtt2Prom.Histogram.{
  HistogramSnapshot, HistogramStore, join_values, update_histogram, delete_histogram, series_of,
}
use yass_simulator.Mqtt2Prom.Collector.{
  Snapshot, histogram, Client, RegisteredVec, bucket_map, update_store, set_series, delete_in_store,
  delete_series,
}

length-ordered_values : (ks : List Text) (m : Labels) → length (ordered_values ks m) ≡ length ks
unfolding ordered_values
length-ordered_values [] m = refl
length-ordered_values (k ∷ ks) m = omega (arith, length-ordered_values ks m)

-- What a store shows for the values.
unfoldable pub shown :
    {F : Type 0} → List Text → Option (HistogramStore F) → Option (HistogramSnapshot F)
shown values none = none
shown values (some h) = series_of values h

update_histogram-fits :
    {F : Type 0} (values : List Text) (buckets : Map F ℕ) (sum : F) (count : ℕ)
    (h : HistogramStore F)
    → length values ≡ length h.label_names
    → update_histogram values buckets sum count h
      ≡ some (record h {
        state =
            insert
              (join_values values)
              (record { label_values = values; buckets = buckets; sum = sum; count = count })
              h.state;
      })
unfolding update_histogram
update_histogram-fits values buckets sum count h fits = ground (arith, fits)

module _ {F G : Type 0} ⦃e : Comparable F⦄ (client : Client F G) where
  shown-update_store :
      (values : List Text) (buckets : List (F × ℕ)) (sum : F) (count : ℕ) (h : HistogramStore F)
      → length values ≡ length h.label_names
      → shown values (update_store client values buckets (some sum) (some count) (some h))
        ≡ some (record {
          label_values = values;
          buckets = bucket_map buckets [];
          sum = sum;
          count = count;
        })
  unfolding shown update_store series_of
  shown-update_store values buckets sum count h fits =
      let new : HistogramSnapshot F = record {
        label_values = values;
        buckets = bucket_map buckets [];
        sum = sum;
        count = count;
      } in
      ap
        (λ (o : Option (HistogramStore F)).
          shown values (elim o [ none ↦ some h | some h' ↦ some h' ]))
        (update_histogram-fits values (bucket_map buckets []) sum count h fits)
      ∙ lookup-insert (join_values values) (join_values values) new h.state
      ∙ ground (arith, text_beq_iff (join_values values) (join_values values))

  shown-delete_in_store :
      (values : List Text) (h : Option (HistogramStore F))
      → shown values (delete_in_store client values h) ≡ none
  unfolding shown delete_in_store delete_histogram series_of
  shown-delete_in_store values none = refl
  shown-delete_in_store values (some h) =
      lookup-delete (join_values values) (join_values values) h.state
      ∙ ground (arith, text_beq_iff (join_values values) (join_values values))

  histogram-set_series :
      (s : Snapshot F) (values : List Text) (v : RegisteredVec F G)
      → v.kind ≡ histogram
      → (set_series client s values v).histogram
        ≡ update_store client values s.buckets s.sum s.count v.histogram
  unfolding set_series
  histogram-set_series s values v kind = ground (arith, kind)

  pub kind-set_series :
      (s : Snapshot F) (values : List Text) (v : RegisteredVec F G)
      → (set_series client s values v).kind ≡ v.kind
  unfolding set_series
  kind-set_series s values v = ground arith

  pub labels-set_series :
      (s : Snapshot F) (values : List Text) (v : RegisteredVec F G)
      → (set_series client s values v).labels ≡ v.labels
  unfolding set_series
  labels-set_series s values v = ground arith

  pub histogram-delete_series :
      (labels : Labels) (v : RegisteredVec F G)
      → v.kind ≡ histogram
      → (delete_series client labels v).histogram
        ≡ delete_in_store client (ordered_values v.labels labels) v.histogram
  unfolding delete_series
  histogram-delete_series labels v kind = ground (arith, kind)

  pub kind-delete_series :
      (labels : Labels) (v : RegisteredVec F G) → (delete_series client labels v).kind ≡ v.kind
  unfolding delete_series
  kind-delete_series labels v = ground arith

  pub labels-delete_series :
      (labels : Labels) (v : RegisteredVec F G) → (delete_series client labels v).labels ≡ v.labels
  unfolding delete_series
  labels-delete_series labels v = ground arith

  -- A snapshot of a histogram, with its sum and its count, replaces what is shown for its values.
  pub shown-set_series :
      (s : Snapshot F) (labels : Labels) (v : RegisteredVec F G) (h : HistogramStore F) (sum : F)
      (count : ℕ)
      → v.kind ≡ histogram
      → v.histogram ≡ some h
      → h.label_names ≡ v.labels
      → s.sum ≡ some sum
      → s.count ≡ some count
      → let values = ordered_values v.labels labels in
        shown values (set_series client s values v).histogram
        ≡ some (record {
          label_values = values;
          buckets = bucket_map s.buckets [];
          sum = sum;
          count = count;
        })
  shown-set_series s labels v h sum count kind store names has_sum has_count =
      let values = ordered_values v.labels labels in
      ap (shown values) (histogram-set_series s values v kind)
      ∙ rw (store, has_sum, has_count)
          (shown-update_store values s.buckets sum count h
            (length-ordered_values v.labels labels ∙ ap length (sym names)))

  -- What is not shown is not shown either where other values are deleted.
  pub shown-delete_other :
      (values others : List Text) (h : Option (HistogramStore F))
      → shown values h ≡ none
      → shown values (delete_in_store client others h) ≡ none
  unfolding shown delete_in_store delete_histogram series_of
  shown-delete_other values others none gone = refl
  shown-delete_other values others (some h) gone =
      lookup-delete (join_values others) (join_values values) h.state ∙ ground (arith, gone)

  -- The series is found again by the text form of its labels.
  pub shown-delete_series :
      (labels : Labels) (v : RegisteredVec F G)
      → v.kind ≡ histogram
      → are_plain labels ≡ true
      → shown
          (ordered_values v.labels labels)
          (delete_series client (parse_hash (serialize_labels labels)) v).histogram
        ≡ none
  shown-delete_series labels v kind plain =
      let values = ordered_values v.labels labels in
      ap (shown values) (histogram-delete_series (parse_hash (serialize_labels labels)) v kind)
      ∙ ap (λ (vs : List Text). shown values (delete_in_store client vs v.histogram))
          (ordered_values-parse_hash v.labels labels plain)
      ∙ shown-delete_in_store values v.histogram
