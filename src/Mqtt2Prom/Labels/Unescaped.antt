-- ===== src/Mqtt2Prom/Labels/Unescaped.antt =====
-- A label whose value has a separator (internal-components/mqtt2prom/main.go).
use mathlib.Core.List.{append_assoc}
use yass_simulator.Base.{
  ◌≡◌, ◌≢◌, refl, sym, ap, ◌∙◌, true, false, ◌&&◌, ◌⊎◌, inl, inr, none, some, List, [], ◌∷◌, ◌++◌,
  arith, if◌then◌else◌, contains, All, Bool-cases, Option,
}
use yass_simulator.Base.Map.{
  lookup, insert, delete, keys, member, lookup-insert, lookup-delete, contains-keys,
}
use yass_simulator.Mqtt2Prom.Labels.{
  Text, text_beq, text_beq_iff, text_eq, Labels, sorted, sorted_keys, value_of, serialize_keys,
  serialize_labels, parse_from, parse_hash,
}
use yass_simulator.Mqtt2Prom.Labels.RoundTrip.{
  is_plain, are_plain, parse_from-append, parse_from-label, is_plain-value_of, All-contained,
  contains-sorted,
}

parse_from-equals :
    (k v w rest : Text) (out : Labels)
    → is_plain k ≡ true
    → is_plain v ≡ true
    → is_plain w ≡ true
    → parse_from (k ++ (b'=' ∷ ((v ++ (b'=' ∷ w)) ++ (b';' ∷ rest)))) [] [] out
      ≡ parse_from rest [] [] (insert v w out)
unfolding parse_from
parse_from-equals k v w rest out plain_k plain_v plain_w =
    ap (λ (t : Text). parse_from (k ++ (b'=' ∷ t)) [] [] out)
      (append_assoc v (b'=' ∷ w) (b';' ∷ rest))
    ∙ parse_from-append k (b'=' ∷ (v ++ (b'=' ∷ (w ++ (b';' ∷ rest))))) [] [] out plain_k
    ∙ parse_from-append v (b'=' ∷ (w ++ (b';' ∷ rest))) [] k out plain_v
    ∙ parse_from-append w (b';' ∷ rest) [] v out plain_w

-- Every name of the list but k is plain, and so is its value.
abbrev OthersPlain : Text → List Text → Labels → Type 0
OthersPlain k ks m =
    All
      (λ (x : Text).
        (text_beq x k ≡ true)
        ⊎ ((text_beq x k ≡ false) × ((is_plain x && is_plain (value_of m x)) ≡ true)))
      ks

module _ (k v w : Text) (plain_k : is_plain k ≡ true) (plain_v : is_plain v ≡ true)
    (plain_w : is_plain w ≡ true) (m : Labels) (value : value_of m k ≡ v ++ (b'=' ∷ w)) where
  parse_from-split :
      (x : Text) (ks : List Text) (out : Labels)
      → text_beq x k ≡ true
      → parse_from (serialize_keys (x ∷ ks) m) [] [] out
        ≡ parse_from (serialize_keys ks m) [] [] (insert v w out)
  unfolding serialize_keys
  parse_from-split x ks out same =
      ap
        (λ (j : Text).
          parse_from (j ++ (b'=' ∷ (value_of m j ++ (b';' ∷ serialize_keys ks m)))) [] [] out)
        ((text_beq_iff x k).0 same)
      ∙ ap (λ (t : Text). parse_from (k ++ (b'=' ∷ (t ++ (b';' ∷ serialize_keys ks m)))) [] [] out)
          value
      ∙ parse_from-equals k v w (serialize_keys ks m) out plain_k plain_v plain_w

  parse_from-other :
      (x : Text) (ks : List Text) (out : Labels)
      → (is_plain x && is_plain (value_of m x)) ≡ true
      → parse_from (serialize_keys (x ∷ ks) m) [] [] out
        ≡ parse_from (serialize_keys ks m) [] [] (insert x (value_of m x) out)
  unfolding serialize_keys
  parse_from-other x ks out plain =
      parse_from-label x (value_of m x) (serialize_keys ks m) out (ground (arith, plain))
        (ground (arith, plain))

  lost_name :
      (ks : List Text) (out : Labels)
      → v ≢ k
      → OthersPlain k ks m
      → lookup k out ≡ none
      → lookup k (parse_from (serialize_keys ks m) [] [] out) ≡ none
  unfolding parse_from serialize_keys
  lost_name [] out differ plain absent = absent
  lost_name (x ∷ ks) out differ (inl same, plain) absent =
      ap (lookup k) (parse_from-split x ks out same)
      ∙ lost_name ks (insert v w out) differ plain
          (lookup-insert v k w out ∙ ground (arith, text_beq_iff v k, differ, absent))
  lost_name (x ∷ ks) out differ (inr (other, fine), plain) absent =
      ap (lookup k) (parse_from-other x ks out fine)
      ∙ lost_name ks (insert x (value_of m x) out) differ plain
          (lookup-insert x k (value_of m x) out ∙ ground (arith, other, absent))

  made_name :
      (ks : List Text) (out : Labels)
      → OthersPlain k ks m
      → contains ks v ≡ false
      → lookup v (parse_from (serialize_keys ks m) [] [] out)
        ≡ (if contains ks k then some w else lookup v out)
  unfolding parse_from serialize_keys contains
  made_name [] out plain new = refl
  made_name (x ∷ ks) out (inl same, plain) new =
      ap (lookup v) (parse_from-split x ks out same)
      ∙ made_name ks (insert v w out) plain (ground (arith, new))
      ∙ grind (arith, same, lookup-insert v v w out, text_beq_iff v v)
  made_name (x ∷ ks) out (inr (other, fine), plain) new =
      ap (lookup v) (parse_from-other x ks out fine)
      ∙ made_name ks (insert x (value_of m x) out) plain (ground (arith, new))
      ∙ grind (arith, other, new, lookup-insert x v (value_of m x) out)

value_of-delete :
    (k x : Text) (m : Labels) → text_beq x k ≡ false → value_of (delete k m) x ≡ value_of m x
unfolding value_of
value_of-delete k x m other =
    let same : lookup x (delete k m) ≡ lookup x m =
      lookup-delete k x m ∙ ground (arith, other, text_beq_iff k x, text_beq_iff x k) in
    ap (λ (o : Option Text). elim o as (λ t. Text) [ none ↦ [] | some t ↦ t ]) same

OthersPlain-sorted_keys :
    (k : Text) (m : Labels) → are_plain (delete k m) ≡ true → OthersPlain k (sorted_keys m) m
unfolding sorted_keys member
OthersPlain-sorted_keys k m plain =
    All-contained (sorted_keys m) (λ (x : Text) (found : contains (sorted (keys m)) x ≡ true).
      elim (Bool-cases (text_beq x k)) [
        | inl same ↦ inl same
        | inr other ↦
            let present : contains (keys m) x ≡ true = sym (contains-sorted x (keys m)) ∙ found in
            let kept : contains (keys (delete k m)) x ≡ true = ground (
              arith,
              other,
              text_beq_iff k x,
              text_beq_iff x k,
              contains-keys x (delete k m),
              contains-keys x m,
              lookup-delete k x m,
              present,
            ) in
            inr (
              other,
              ap (λ (t : Text). is_plain x && is_plain t) (sym (value_of-delete k x m other))
                  ∙ is_plain-value_of (delete k m) x plain kept,
            )
      ])

-- A label with an ASCII name whose value has exactly one `=` is not read back, among any other
-- labels, where all is ASCII and nothing else has a `=` or a `;`: its name is lost, unless the part
-- of the value in front of the `=` is this name. Where no label has this part as its name, it
-- becomes the name of a label with the part behind the `=`.
pub lookup-parse_hash_equals :
    (m : Labels) (k v w : Text)
    → lookup k m ≡ some (v ++ (b'=' ∷ w))
    → is_plain k ≡ true
    → is_plain v ≡ true
    → is_plain w ≡ true
    → v ≢ k
    → are_plain (delete k m) ≡ true
    → (lookup k (parse_hash (serialize_labels m)) ≡ none)
      × ((member v m ≡ true) ⊎ (lookup v (parse_hash (serialize_labels m)) ≡ some w))
unfolding parse_hash serialize_labels member lookup sorted_keys value_of
lookup-parse_hash_equals m k v w found plain_k plain_v plain_w differ plain =
    let others = OthersPlain-sorted_keys k m plain in
    let value : value_of m k ≡ v ++ (b'=' ∷ w) =
      ap (λ (o : Option Text). elim o as (λ t. Text) [ none ↦ [] | some t ↦ t ]) found in
    (
      lost_name k v w plain_k plain_v plain_w m value (sorted_keys m) [] differ others refl,
      elim (Bool-cases (member v m)) [
        | inl taken ↦ inl taken
        | inr free ↦ inr (
            made_name k v w plain_k plain_v plain_w m value (sorted_keys m) [] others
              (contains-sorted v (keys m) ∙ contains-keys v m ∙ free)
            ∙ ground (arith, contains-sorted k (keys m), contains-keys k m, found))
      ],
    )
