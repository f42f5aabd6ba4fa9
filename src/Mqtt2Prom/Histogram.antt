-- ===== src/Mqtt2Prom/Histogram.antt =====
-- `histogramStore` of internal-components/mqtt2prom/histogram.go. The mutex makes each method one
-- step.
use yass_simulator.Base.{
  ℕ, not, Option, none, some, List, [], ◌∷◌, ◌++◌, nat_beq, nat_eq, if◌then◌else◌, length,
}
use yass_simulator.Base.Map.{Map, lookup, insert, delete}
use yass_simulator.Mqtt2Prom.Labels.{Text, text_eq}

-- strings.Join(values, "\x00")
unfoldable pub join_values : List Text → Text
join_values [] = []
join_values (v ∷ []) = v
join_values (v ∷ w ∷ vs) = v ++ (0 ∷ join_values (w ∷ vs))

-- F is float64.
pub record HistogramSnapshot (F : Type 0) : Type 0 where
  pub label_values : List Text
  pub buckets : Map F ℕ
  pub sum : F
  pub count : ℕ

pub record HistogramStore (F : Type 0) : Type 0 where
  pub metric_name : Text
  pub label_names : List Text
  pub state : Map Text (HistogramSnapshot F)

module _ {F : Type 0} where
  unfoldable pub new_histogram_store : Text → List Text → HistogramStore F
  new_histogram_store name labels = record { metric_name = name; label_names = labels; state = [] }

  -- None is the error of a wrong number of values.
  unfoldable pub update_histogram :
      List Text → Map F ℕ → F → ℕ → HistogramStore F → Option (HistogramStore F)
  update_histogram values buckets sum count h =
      if not (nat_beq (length values) (length h.label_names))
      then none
      else some (record h {
        state =
            insert (join_values values)
              (record { label_values = values; buckets = buckets; sum = sum; count = count })
              h.state;
      })

  unfoldable pub delete_histogram : List Text → HistogramStore F → HistogramStore F
  delete_histogram values h = record h { state = delete (join_values values) h.state }

  -- The series that the store shows for the values.
  unfoldable pub series_of : List Text → HistogramStore F → Option (HistogramSnapshot F)
  series_of values h = lookup (join_values values) h.state
