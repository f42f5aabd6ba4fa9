-- ===== src/Mqtt2Prom/Collector/Owners.antt =====
-- The table of the owners of the series, beside the metas of the aggregators (internal-components/mqtt2prom/main.go).
use yass_simulator.Base.{
  ◌≡◌, refl, ◌∙◌, Bool, true, false, ◌||◌, Option, none, some, List, [], ◌∷◌, arith, Comparable,
  ◌==◌, if◌then◌else◌, Bool-cases, inl, inr,
}
use yass_simulator.Base.Map.{Map, lookup, delete, member, lookup-insert, lookup-delete}
use yass_simulator.Mqtt2Prom.Labels.{
  Text, text_beq, text_beq_iff, text_eq, Labels, Meta, sorted_keys, merge_labels, serialize_labels,
}
use yass_simulator.Mqtt2Prom.Collector.{
  Snapshot, Body, empty, undecodable, decoded, RegistryKey, key_beq_iff, key_eq, Client,
  RegisteredVec, Collector, new_collector, register_locked, store_series, store_in, handled,
  handle_snapshot, drop_series, evict_owned, evict_aggregator_locked, named, handle_meta,
}

pub data Message (F : Type 0) : Type 0 where
  about_aggregator : Text → Body → Message F
  about_series : Option (Snapshot F) → Message F

-- Every owner in the table is known.
abbrev pub IsKnown : {F G : Type 0} → Collector F G → Type 0
IsKnown c = (key : RegistryKey) (a : Text) → lookup key c.owners ≡ some a → member a c.metas ≡ true

is_owner : Text → Option Text → Bool
is_owner a none = false
is_owner a (some o) = text_beq o a

module _ {F G : Type 0} ⦃e : Comparable F⦄ (client : Client F G) where
  unfoldable pub handle_message : Message F → Collector F G → Collector F G
  handle_message (about_aggregator a body) c = handle_meta client a body c
  handle_message (about_series s) c = handle_snapshot client s c

  -- The messages in the order of their arrival.
  unfoldable pub handle_all : List (Message F) → Collector F G → Collector F G
  unfolding handle_message
  handle_all [] c = c
  handle_all (m ∷ ms) c = handle_all ms (handle_message m c)

  owners-drop_series :
      (key : RegistryKey) (c : Collector F G)
      → (drop_series client key c).owners ≡ delete key c.owners
  unfolding drop_series
  owners-drop_series key c = ground arith

  metas-drop_series :
      (key : RegistryKey) (c : Collector F G) → (drop_series client key c).metas ≡ c.metas
  unfolding drop_series
  metas-drop_series key c = ground arith

  metas-evict_owned :
      (a : Text) (others : Map RegistryKey Text) (c : Collector F G)
      → (evict_owned client a others c).metas ≡ c.metas
  unfolding evict_owned
  metas-evict_owned a [] c = refl
  metas-evict_owned a ((key, owner) ∷ others) c =
      metas-evict_owned a others _ ∙ ground (arith, metas-drop_series key c)

  lookup-evict_owned :
      (a : Text) (others : Map RegistryKey Text) (c : Collector F G) (key : RegistryKey) (o : Text)
      → lookup key (evict_owned client a others c).owners ≡ some o
      → (lookup key c.owners ≡ some o) × (is_owner a (lookup key others) ≡ false)
  unfolding evict_owned lookup is_owner
  lookup-evict_owned a [] c key o found = (found, refl)
  lookup-evict_owned a ((j, owner) ∷ others) c key o found =
      let c' = if owner == a then drop_series client j c else c in
      ground (
        arith,
        lookup-evict_owned a others c' key o found,
        owners-drop_series j c,
        lookup-delete j key c.owners,
        key_beq_iff j key,
      )

  IsKnown-handle_meta :
      (a : Text) (body : Body) (c : Collector F G)
      → IsKnown c
      → IsKnown (handle_meta client a body c)
  unfolding handle_meta evict_aggregator_locked member is_owner
  IsKnown-handle_meta a undecodable c known = known
  IsKnown-handle_meta a (decoded m) c known =
      λ (key : RegistryKey) (o : Text) (found : lookup key c.owners ≡ some o).
        ground (arith, known key o found, lookup-insert a o (named client a m) c.metas)
  IsKnown-handle_meta a empty c known =
      λ (key : RegistryKey) (o : Text)
          (found : lookup key
              (evict_owned client a c.owners (record c { metas = delete a c.metas })).owners
            ≡ some o).
        let c' = record c { metas = delete a c.metas } in
        ground (
          arith,
          lookup-evict_owned a c.owners c' key o found,
          metas-evict_owned a c.owners c',
          lookup-delete a o c.metas,
          known key o,
          text_beq_iff o a,
          text_beq_iff a o,
        )

  IsKnown-store_series :
      (s : Snapshot F) (labels : Labels) (v : RegisteredVec F G) (c : Collector F G)
      → member s.aggregator c.metas ≡ true
      → IsKnown c
      → IsKnown (store_series client s labels v c)
  unfolding store_series member
  IsKnown-store_series s labels v c present known =
      λ (key : RegistryKey) (o : Text)
          (found : lookup key (store_series client s labels v c).owners ≡ some o).
        let new : RegistryKey = record { metric = s.metric; hash = serialize_labels labels } in
        ground (arith, found, present, known key o, lookup-insert new key s.aggregator c.owners)

  IsKnown-store_in :
      (s : Snapshot F) (labels : Labels) (found : Option (RegisteredVec F G)) (c : Collector F G)
      → member s.aggregator c.metas ≡ true
      → IsKnown c
      → IsKnown (store_in client s labels found c)
  unfolding store_in
  IsKnown-store_in s labels none c present known =
      IsKnown-store_series s labels (register_locked client s.metric s.kind (sorted_keys labels)) c
        present known
  IsKnown-store_in s labels (some v) c present known =
      IsKnown-store_series s labels v c present known

  IsKnown-handled :
      (s : Snapshot F) (m : Option Meta) (c : Collector F G)
      → lookup s.aggregator c.metas ≡ m
      → IsKnown c
      → IsKnown (handled client s m c)
  unfolding handled member
  IsKnown-handled s none c present known = known
  IsKnown-handled s (some m) c present known =
      IsKnown-store_in s (merge_labels s.labels m) (lookup s.metric c.vecs) c
        (ground (arith, present)) known

  IsKnown-handle_snapshot :
      (s : Option (Snapshot F)) (c : Collector F G)
      → IsKnown c
      → IsKnown (handle_snapshot client s c)
  unfolding handle_snapshot
  IsKnown-handle_snapshot none c known = known
  IsKnown-handle_snapshot (some s) c known =
      elim (Bool-cases (text_beq s.metric [] || text_beq s.aggregator [])) [
        | inl ignored ↦ rw ignored known
        | inr read ↦ rw read (IsKnown-handled s (lookup s.aggregator c.metas) c refl known)
      ]

  IsKnown-from : (ms : List (Message F)) (c : Collector F G) → IsKnown c → IsKnown (handle_all ms c)
  unfolding handle_all handle_message
  IsKnown-from [] c known = known
  IsKnown-from (about_aggregator a body ∷ ms) c known =
      IsKnown-from ms (handle_meta client a body c) (IsKnown-handle_meta a body c known)
  IsKnown-from (about_series s ∷ ms) c known =
      IsKnown-from ms (handle_snapshot client s c) (IsKnown-handle_snapshot s c known)

  -- Whatever messages have arrived, every entry of the table of owners names an aggregator whose meta is
  -- known: the entries of an aggregator are all removed when its meta goes.
  pub IsKnown-handle_all : (ms : List (Message F)) → IsKnown (handle_all ms new_collector)
  unfolding lookup
  IsKnown-handle_all ms =
      IsKnown-from ms new_collector
        (λ (key : RegistryKey) (a : Text) (found : lookup key [] ≡ some a). cc)
