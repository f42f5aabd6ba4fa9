-- ===== src/Mqtt2Prom/Labels/RoundTrip.antt =====
-- The text form of labels is read back (internal-components/mqtt2prom/main.go).
use mathlib.Core.List.{append_assoc, append-nil}
use yass_simulator.Base.{
  ℕ, ◌≡◌, refl, sym, ap, ◌∙◌, Bool, true, ◌&&◌, ◌||◌, not, some, List, [], ◌∷◌, ◌++◌, arith, ltb,
  ◌==◌, nat_eq, nat_beq, if◌then◌else◌, contains, All,
}
use yass_simulator.Base.Map.{lookup, insert, keys, lookup-insert, member, contains-keys}
use yass_simulator.Mqtt2Prom.Labels.{
  Text, text_beq_iff, text_eq, Labels, insert_sorted, sorted, sorted_keys, value_of, ordered_values,
  serialize_keys, serialize_labels, of_byte, parse_from, parse_hash,
}

-- An ASCII character that is no separator.
abbrev pub is_plain_byte : ℕ → Bool
is_plain_byte c = ltb c 128 && not (nat_beq c b'=') && not (nat_beq c b';')

unfoldable pub is_plain : Text → Bool
is_plain [] = true
is_plain (c ∷ s) = is_plain_byte c && is_plain s

-- All names and values.
unfoldable pub are_plain : Labels → Bool
are_plain [] = true
are_plain ((k, v) ∷ m) = is_plain k && is_plain v && are_plain m

contains-insert_sorted :
    (k x : Text) (ks : List Text) → contains (insert_sorted k ks) x ≡ (k == x || contains ks x)
unfolding insert_sorted contains
contains-insert_sorted k x [] = refl
contains-insert_sorted k x (j ∷ js) = ground (arith, contains-insert_sorted k x js)

pub contains-sorted : (x : Text) (ks : List Text) → contains (sorted ks) x ≡ contains ks x
unfolding sorted contains
contains-sorted x [] = refl
contains-sorted x (k ∷ ks) =
    contains-insert_sorted k x (sorted ks) ∙ ap (λ (b : Bool). k == x || b) (contains-sorted x ks)

-- A plain text in front is added to `cur`.
pub parse_from-append :
    (s rest cur k : Text) (out : Labels)
    → is_plain s ≡ true
    → parse_from (s ++ rest) cur k out ≡ parse_from rest (cur ++ s) k out
unfolding parse_from of_byte is_plain
parse_from-append [] rest cur k out plain =
    ap (λ (t : Text). parse_from rest t k out) (sym (append-nil cur))
parse_from-append (c ∷ s) rest cur k out plain =
    grind
      (arith, plain, parse_from-append s rest (cur ++ c ∷ []) k out, append_assoc cur (c ∷ []) s)

pub parse_from-label :
    (k v rest : Text) (out : Labels)
    → is_plain k ≡ true
    → is_plain v ≡ true
    → parse_from (k ++ (b'=' ∷ (v ++ (b';' ∷ rest)))) [] [] out
      ≡ parse_from rest [] [] (insert k v out)
unfolding parse_from
parse_from-label k v rest out plain_k plain_v =
    parse_from-append k (b'=' ∷ (v ++ (b';' ∷ rest))) [] [] out plain_k
    ∙ parse_from-append v (b';' ∷ rest) [] k out plain_v

-- Every name of the list is plain, and so is its value.
abbrev pub PlainKeys : List Text → Labels → Type 0
PlainKeys ks m = All (λ (k : Text). (is_plain k && is_plain (value_of m k)) ≡ true) ks

lookup-parse_from :
    (ks : List Text) (m out : Labels) (x : Text)
    → PlainKeys ks m
    → lookup x (parse_from (serialize_keys ks m) [] [] out)
      ≡ (if contains ks x then some (value_of m x) else lookup x out)
unfolding serialize_keys contains parse_from
lookup-parse_from [] m out x plain = refl
lookup-parse_from (k ∷ ks) m out x plain =
    ap (lookup x) (
      parse_from-label k (value_of m k) (serialize_keys ks m) out (ground (arith, plain.0))
        (ground (arith, plain.0)))
    ∙ lookup-parse_from ks m (insert k (value_of m k) out) x plain.1
    ∙ grind (arith, lookup-insert k x (value_of m k) out, text_beq_iff k x)

pub is_plain-value_of :
    (m : Labels) (k : Text)
    → are_plain m ≡ true
    → contains (keys m) k ≡ true
    → (is_plain k && is_plain (value_of m k)) ≡ true
unfolding are_plain contains value_of lookup
is_plain-value_of [] k plain found = cc
is_plain-value_of ((j, v) ∷ m) k plain found =
    ground (arith, plain, found, is_plain-value_of m k, text_beq_iff j k)

pub All-contained {ℓ} :
    {P : Text → Type ℓ} (ks : List Text) → ((k : Text) → contains ks k ≡ true → P k) → All P ks
unfolding contains
All-contained [] holds = tt
All-contained {P = P} (k ∷ ks) holds = (
  holds k (ground (arith, text_beq_iff k k)),
  All-contained {P = P} ks
      (λ (x : Text) (found : contains ks x ≡ true). holds x (ground (arith, found))),
)

PlainKeys-sorted_keys : (m : Labels) → are_plain m ≡ true → PlainKeys (sorted_keys m) m
unfolding sorted_keys
PlainKeys-sorted_keys m plain =
    All-contained (sorted_keys m) (λ (k : Text) (found : contains (sorted (keys m)) k ≡ true).
      is_plain-value_of m k plain (sym (contains-sorted k (keys m)) ∙ found))

-- The text form of labels reads back as the same labels, where every name and value is ASCII and
-- has no `=` and no `;`: each name leads to the value that it had.
pub lookup-parse_hash :
    (m : Labels) (x : Text)
    → are_plain m ≡ true
    → lookup x (parse_hash (serialize_labels m)) ≡ lookup x m
unfolding parse_hash serialize_labels sorted_keys value_of member lookup
lookup-parse_hash m x plain =
    lookup-parse_from (sorted_keys m) m [] x (PlainKeys-sorted_keys m plain)
    ∙ grind (arith, contains-sorted x (keys m), contains-keys x m)

-- The values that are read back for any names are those of the labels.
pub ordered_values-parse_hash :
    (ks : List Text) (m : Labels)
    → are_plain m ≡ true
    → ordered_values ks (parse_hash (serialize_labels m)) ≡ ordered_values ks m
unfolding ordered_values value_of
ordered_values-parse_hash [] m plain = refl
ordered_values-parse_hash (k ∷ ks) m plain =
    grind (arith, lookup-parse_hash m k plain, ordered_values-parse_hash ks m plain)
