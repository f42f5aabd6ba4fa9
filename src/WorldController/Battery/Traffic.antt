-- ===== src/WorldController/Battery/Traffic.antt =====
-- The bytes that Update counts as sent
-- (internal-components/world-controller/internal/hw/hw.go).
use yass_simulator.Base.{
  ℕ, ◌+◌, ◌-◌, ◌≤◌, ◌<◌, String, ◌≡◌, refl, ap, ◌∙◌, false, Option, none, some, List, [], ◌∷◌,
  arith, string_eq, string_beq_iff, Option-cases, inl, inr, contains, Distinct,
}
use yass_simulator.Base.Int.{pos, ◌-ℤ◌, uint64, bits}
use yass_simulator.Base.Map.{Map, lookup, insert, lookup-insert}
use yass_simulator.WorldController.Battery.{TrafficStats, count_sent, sent_since}

uint64-sub : (a b : ℕ) → b ≤ a → a < 18446744073709551616 → uint64 (pos a -ℤ pos b) ≡ a - b
unfolding ◌-ℤ◌ bits
uint64-sub a b h k = ground arith

-- A counter that is behind its last value, as behind a reset.
uint64-sub_behind :
    (a b : ℕ)
    → a < b
    → b < 18446744073709551616
    → uint64 (pos a -ℤ pos b) ≡ 18446744073709551616 + a - b
unfolding ◌-ℤ◌ bits
uint64-sub_behind a b h k = ground arith

-- What an address has sent since its counter was read last; nothing, if it was never read.
unfoldable pub growth : Map String ℕ → Option TrafficStats → ℕ
growth totals none = 0
growth totals (some ts) = elim (lookup ts.ip totals) [
  | none ↦ 0
  | some prev ↦ ts.total_bytes_sent - prev
]

unfoldable pub sent_total : Map String ℕ → List (Option TrafficStats) → ℕ
unfolding growth
sent_total totals [] = 0
sent_total totals (o ∷ stats) = growth totals o + sent_total totals stats

unfoldable pub addresses : List (Option TrafficStats) → List String
addresses [] = []
addresses (none ∷ stats) = addresses stats
addresses (some ts ∷ stats) = ts.ip ∷ addresses stats

-- The counters fit a uint64, and none is behind its last value.
abbrev pub IsForward : Map String ℕ → List (Option TrafficStats) → Type 0
IsForward totals [] = Unit {0}
IsForward totals (none ∷ stats) = IsForward totals stats
IsForward totals (some ts ∷ stats) =
    (ts.total_bytes_sent < 18446744073709551616)
    × ((prev : ℕ) → lookup ts.ip totals ≡ some prev → prev ≤ ts.total_bytes_sent)
    × IsForward totals stats

IsForward-insert :
    (ip : String) (v : ℕ) (totals : Map String ℕ) (stats : List (Option TrafficStats))
    → contains (addresses stats) ip ≡ false
    → IsForward totals stats
    → IsForward (insert ip v totals) stats
unfolding addresses contains
IsForward-insert ip v totals [] absent f = tt
IsForward-insert ip v totals (none ∷ stats) absent f = IsForward-insert ip v totals stats absent f
IsForward-insert ip v totals (some ts ∷ stats) absent f = (
  f.0,
  λ prev h. f.1 prev (
      ground (
        arith,
        lookup-insert ip ts.ip v totals,
        string_beq_iff ip ts.ip,
        string_beq_iff ts.ip ip,
        absent,
        h,
      )),
  IsForward-insert ip v totals stats (ground (arith, absent)) f.2,
)

sent_total-insert :
    (ip : String) (v : ℕ) (totals : Map String ℕ) (stats : List (Option TrafficStats))
    → contains (addresses stats) ip ≡ false
    → sent_total (insert ip v totals) stats ≡ sent_total totals stats
unfolding addresses contains sent_total growth
sent_total-insert ip v totals [] absent = refl
sent_total-insert ip v totals (none ∷ stats) absent =
    ap (λ (n : ℕ). 0 + n) (sent_total-insert ip v totals stats absent)
sent_total-insert ip v totals (some ts ∷ stats) absent = ground (
  arith,
  lookup-insert ip ts.ip v totals,
  string_beq_iff ip ts.ip,
  string_beq_iff ts.ip ip,
  absent,
  sent_total-insert ip v totals stats,
)

sent_since-eq-growth :
    (totals : Map String ℕ) (ts : TrafficStats)
    → ts.total_bytes_sent < 18446744073709551616
    → ((prev : ℕ) → lookup ts.ip totals ≡ some prev → prev ≤ ts.total_bytes_sent)
    → sent_since (lookup ts.ip totals) ts.total_bytes_sent ≡ growth totals (some ts)
unfolding sent_since growth
sent_since-eq-growth totals ts fits forward = elim (Option-cases (lookup ts.ip totals)) [
  | inl new ↦ ground (arith, new)
  | inr (prev, known) ↦
      ground (arith, known, uint64-sub ts.total_bytes_sent prev, forward prev known)
]

uint64-pos : (n : ℕ) → n < 18446744073709551616 → uint64 (pos n) ≡ n
unfolding bits
uint64-pos n h = ground arith

count_sent_sum :
    (stats : List (Option TrafficStats)) (sum : ℕ) (totals : Map String ℕ)
    → Distinct (addresses stats)
    → IsForward totals stats
    → sum + sent_total totals stats < 18446744073709551616
    → (count_sent stats sum totals).0 ≡ sum + sent_total totals stats
unfolding count_sent addresses sent_total
count_sent_sum [] sum totals d f fits = omega arith
count_sent_sum (none ∷ stats) sum totals d f fits =
    count_sent_sum stats sum totals d f (omega (arith, fits)) ∙ (omega arith)
count_sent_sum (some ts ∷ stats) sum totals d f fits =
    let totals' = insert ts.ip ts.total_bytes_sent totals in
    let since = sent_since (lookup ts.ip totals) ts.total_bytes_sent in
    let grown = sent_since-eq-growth totals ts f.0 f.1 in
    let rest = sent_total-insert ts.ip ts.total_bytes_sent totals stats d.0 in
    let sum' : uint64 (pos (sum + since)) ≡ sum + since =
      uint64-pos (sum + since) (omega (arith, fits, grown)) in
    count_sent_sum stats (uint64 (pos (sum + since))) totals' d.1
      (IsForward-insert ts.ip ts.total_bytes_sent totals stats d.0 f.2)
      (omega (arith, fits, grown, rest, sum'))
    ∙ (omega (arith, grown, rest, sum'))

-- Where every address is reported once, no counter is behind its last value, and the sum fits a
-- uint64, the bytes that Update counts are the sum of what the addresses have sent since the last
-- time; an address that is new counts for nothing.
pub count_sent-eq-sent_total :
    (stats : List (Option TrafficStats)) (totals : Map String ℕ)
    → Distinct (addresses stats)
    → IsForward totals stats
    → sent_total totals stats < 18446744073709551616
    → (count_sent stats 0 totals).0 ≡ sent_total totals stats
count_sent-eq-sent_total stats totals d f fits =
    count_sent_sum stats 0 totals d f (omega (arith, fits)) ∙ (omega arith)

-- A counter that is behind its last value, as it is behind a reset, counts for almost 2^64 bytes.
pub count_sent_behind :
    (ts : TrafficStats) (prev : ℕ) (totals : Map String ℕ)
    → lookup ts.ip totals ≡ some prev
    → ts.total_bytes_sent < prev
    → prev < 18446744073709551616
    → (count_sent (some ts ∷ []) 0 totals).0 ≡ 18446744073709551616 + ts.total_bytes_sent - prev
unfolding count_sent sent_since
count_sent_behind ts prev totals known behind fits =
    let back = uint64-sub_behind ts.total_bytes_sent prev behind fits in
    rw known (
      rw (uint64-pos (0 + uint64 (pos ts.total_bytes_sent -ℤ pos prev)) (omega (arith, back)))
        (omega (arith, back)))
