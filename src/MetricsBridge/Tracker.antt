-- ===== src/MetricsBridge/Tracker.antt =====
-- internal-components/metrics-bridge/internal/state/state.go: the pending PUTs of `Tracker`, and
-- the joins of receipts with them. A method that mutates `*Tracker` returns the new record. The
-- mutex makes each call atomic.
pub mod Consistency
pub mod Receipts
pub mod Deliveries
pub mod Eviction
pub mod SharedNames
use yass_simulator.Base.{
  ℕ, suc, String, Option, none, some, List, [], ◌∷◌, ◌++◌, ltb, ◌==◌, string_eq, if◌then◌else◌,
  length, contains,
}
use yass_simulator.Base.Int.{pos, ℤ, ◌-ℤ◌, ltb_ℤ}
use yass_simulator.Base.Map.{Map, lookup, insert, delete}

-- Instants and durations are integers, in nanoseconds.
pub record PendingPut : Type 0 where
  pub source : String
  pub size_bytes : ℤ
  pub when : ℤ
  pub name : String
  pub received : List String

pub record Tracker : Type 0 where
  pub pending : Map String PendingPut
  pub by_name : Map String String
  pub deadline : ℤ
  pub max_size : ℤ
  pub insert_order : List String

unfoldable pub new_tracker : ℤ → ℤ → Tracker
new_tracker deadline max_size = record {
  pending = [];
  by_name = [];
  deadline = deadline;
  max_size = max_size;
  insert_order = [];
}

-- `delete(t.byName, p.Name)`, where a pending entry was found and its name is not empty.
unfoldable pub forget_name : Option PendingPut → Map String String → Map String String
forget_name none names = names
forget_name (some p) names = if p.name == "" then names else delete p.name names

drop_oldest_from : List String → Tracker → Tracker
unfolding forget_name
drop_oldest_from [] t = t
drop_oldest_from (k ∷ ks) t = record t {
  insert_order = ks;
  by_name = forget_name (lookup k t.pending) t.by_name;
  pending = delete k t.pending;
}

unfoldable pub drop_oldest_locked : Tracker → Tracker
unfolding drop_oldest_from
drop_oldest_locked t = drop_oldest_from t.insert_order t

-- `if len(t.pending) > t.maxSize { t.dropOldestLocked() }`
unfoldable pub enforce_max_size : Tracker → Tracker
enforce_max_size t = if ltb_ℤ t.max_size (pos (length t.pending)) then drop_oldest_locked t else t

-- The writes of RecordPut, before the bound is enforced.
unfoldable pub add_pending : String → String → String → ℤ → ℤ → Tracker → Tracker
add_pending key name source size when t = record t {
  pending =
      insert key
        (record { source = source; size_bytes = size; when = when; name = name; received = [] })
        t.pending;
  by_name = if name == "" then t.by_name else insert name key t.by_name;
  insert_order = t.insert_order ++ key ∷ [];
}

put_key : String → String → String
put_key md5sum name = if md5sum == "" then name else md5sum

store_put : Option PendingPut → String → String → String → ℤ → ℤ → Tracker → Tracker
store_put (some p) key name source size when t = t
store_put none key name source size when t =
    enforce_max_size (add_pending key name source size when t)

unfoldable pub record_put : String → String → String → ℤ → ℤ → Tracker → Tracker
unfolding put_key store_put
record_put md5sum name source size when t =
    if source == ""
    then t
    else let key = put_key md5sum name in
      if key == "" then t else store_put (lookup key t.pending) key name source size when t

-- The result of MatchReceive: `(&cp, false)`, `(nil, true)` or `(nil, false)`.
pub data Match : Type 0 where
  delivered : PendingPut → Match
  duplicate : Match
  unknown : Match

-- A map read with the entry's key, since MatchReceive writes to the entry that it found.
find : String → Tracker → Option (String × PendingPut)
find key t = elim (lookup key t.pending) [ none ↦ none | some p ↦ some (key, p) ]

by_name_key : String → Tracker → Option String
by_name_key name t = if name == "" then none else lookup name t.by_name

find_by_name : Option String → Tracker → Option (String × PendingPut)
unfolding find
find_by_name none t = none
find_by_name (some key) t = find key t

or_by_name : Option (String × PendingPut) → String → Tracker → Option (String × PendingPut)
unfolding find_by_name by_name_key
or_by_name (some kp) name t = some kp
or_by_name none name t = find_by_name (by_name_key name t) t

unfoldable pub resolve : String → String → Tracker → Option (String × PendingPut)
unfolding or_by_name
resolve md5sum name t = or_by_name (if md5sum == "" then none else find md5sum t) name t

receive : Option (String × PendingPut) → String → Tracker → Match × Tracker
receive none receiver t = (unknown, t)
receive (some (key, p)) receiver t = if contains p.received receiver then (duplicate, t) else (
  delivered (record p { received = [] }),
  record t { pending = insert key (record p { received = receiver ∷ p.received }) t.pending },
)

unfoldable pub match_receive : String → String → String → Tracker → Match × Tracker
unfolding receive
match_receive md5sum name receiver t = receive (resolve md5sum name t) receiver t

-- `lost[p.Source]++`
unfoldable pub bump : String → Map String ℕ → Map String ℕ
bump source lost = insert source (suc (elim (lookup source lost) [ none ↦ 0 | some n ↦ n ])) lost

-- The loop of EvictExpired: the keys kept so far (in reverse), the counts and the tracker.
pub record Sweep : Type 0 where
  pub kept : List String
  pub lost : Map String ℕ
  pub swept : Tracker

pub sweep_found : Option PendingPut → ℤ → String → Sweep → Sweep
sweep_found none threshold k s = s
sweep_found (some p) threshold k s =
    if ltb_ℤ p.when threshold
    then record s {
      lost = bump p.source s.lost;
      swept = record (s.swept) {
        by_name = forget_name (some p) s.swept.by_name;
        pending = delete k s.swept.pending;
      };
    }
    else record s { kept = s.kept ++ k ∷ [] }

unfoldable pub sweep : ℤ → List String → Sweep → Sweep
unfolding sweep_found
sweep threshold [] s = s
sweep threshold (k ∷ ks) s =
    sweep threshold ks (sweep_found (lookup k s.swept.pending) threshold k s)

unfoldable pub evict_expired : ℤ → Tracker → Map String ℕ × Tracker
evict_expired now t =
    let s = sweep (now -ℤ t.deadline) t.insert_order (record { kept = []; lost = []; swept = t }) in
    (s.lost, record (s.swept) { insert_order = s.kept })
