-- ===== src/Operator/Experiment/Deletion.antt =====
-- The objects of an experiment that is deleted: `deleteExperimentObjects` of
-- yass-operator/internal/controller/experiment/experiment_controller.go.
use yass_simulator.Base.{
  ◌↔◌, subst, Comparable, string_beq_iff, ◌≡◌, sym, String, Bool, true, false, ◌&&◌, ◌||◌, Option,
  none, some, List, [], ◌∷◌, ◌++◌, contains, contains-append, arith, ◌==◌, string_eq, if◌then◌else◌,
  Bool-cases, ◌⊎◌, inl, inr,
}
use mathlib.Core.List.{append_assoc, append-nil}
use yass_simulator.Base.Result.{Result, ok, err}
use yass_simulator.Operator.Experiment.{ApiError}
use yass_simulator.Operator.Experiment.Eviction.{refused}
use yass_simulator.Operator.Experiment.Eviction.Freed.{is_none}

pub record OwnerReference : Type 0 where
  pub kind : String
  pub name : String

-- An object of the namespace: a FsNode, its Pod and its Service have one name.
pub record ObjectRef : Type 0 where
  pub kind : String
  pub name : String

abbrev pub ref_beq : ObjectRef → ObjectRef → Bool
ref_beq a b = a.kind == b.kind && a.name == b.name

pub ref_beq_iff : (a b : ObjectRef) → (ref_beq a b ≡ true) ↔ (a ≡ b)
ref_beq_iff a b = ground (arith, string_beq_iff a.kind b.kind, string_beq_iff a.name b.name)

instance abbrev pub ref_eq : Comparable ObjectRef
ref_eq = record { test = ref_beq; test_iff = ref_beq_iff }

-- An object of the cluster with its owners.
pub record OwnedObject : Type 0 where
  pub object : ObjectRef
  pub owners : List OwnerReference

-- The loop over the owners.
unfoldable pub is_owned : String → List OwnerReference → Bool
is_owned experiment [] = false
is_owned experiment (owner ∷ owners) =
    let rest = is_owned experiment owners in
    if owner.kind == "Experiment" && owner.name == experiment then true else rest

-- The owners contain the experiment.
unfoldable pub HasOwner : String → List OwnerReference → Type 0
HasOwner experiment [] = ⊥
HasOwner experiment (owner ∷ owners) =
    ((owner.kind ≡ "Experiment") × (owner.name ≡ experiment)) ⊎ HasOwner experiment owners

-- The object is among those listed, with the experiment as an owner.
unfoldable pub OwnedAmong : String → List OwnedObject → ObjectRef → Type 0
OwnedAmong experiment [] ref = ⊥
OwnedAmong experiment (obj ∷ objs) ref =
    ((obj.object ≡ ref) × HasOwner experiment obj.owners) ⊎ OwnedAmong experiment objs ref

-- It is so in one of the lists.
unfoldable pub OwnedIn : String → List (Result ApiError (List OwnedObject)) → ObjectRef → Type 0
OwnedIn experiment [] ref = ⊥
OwnedIn experiment (err e ∷ lists) ref = OwnedIn experiment lists ref
OwnedIn experiment (ok objs ∷ lists) ref =
    OwnedAmong experiment objs ref ⊎ OwnedIn experiment lists ref

is_owned-HasOwner :
    (experiment : String) (owners : List OwnerReference)
    → (is_owned experiment owners ≡ true) ↔ HasOwner experiment owners
unfolding is_owned HasOwner
is_owned-HasOwner experiment [] = ground arith
is_owned-HasOwner experiment (owner ∷ owners) = ground (
  arith,
  string_beq_iff owner.kind "Experiment",
  string_beq_iff owner.name experiment,
  is_owned-HasOwner experiment owners,
)

module _ (delete_object : ObjectRef → Option ApiError) (experiment : String) where
  -- The error, and the objects whose deletion was requested, behind those before.
  unfoldable pub delete_items : List OwnedObject → List ObjectRef → Option ApiError × List ObjectRef
  delete_items [] asked = (none, asked)
  delete_items (obj ∷ objs) asked =
      if is_owned experiment obj.owners
      then elim (refused (delete_object obj.object)) [
        | none ↦ delete_items objs (asked ++ obj.object ∷ [])
        | some e ↦ (some e, asked ++ obj.object ∷ [])
      ]
      else delete_items objs asked

  -- The loop over the kinds of objects, by the answers to their lists.
  unfoldable pub delete_experiment_objects :
      List (Result ApiError (List OwnedObject)) → List ObjectRef → Option ApiError × List ObjectRef
  delete_experiment_objects [] asked = (none, asked)
  delete_experiment_objects (err e ∷ lists) asked = (some e, asked)
  delete_experiment_objects (ok objs ∷ lists) asked =
      let (e, asked') = delete_items objs asked in
      elim e [ none ↦ delete_experiment_objects lists asked' | some error ↦ (some error, asked') ]

  -- The objects that the experiment owns, in the order of the lists.
  unfoldable pub owned_refs : List OwnedObject → List ObjectRef
  owned_refs [] = []
  owned_refs (obj ∷ objs) =
      let rest = owned_refs objs in
      if is_owned experiment obj.owners then obj.object ∷ rest else rest

  unfoldable pub owned_in : List (Result ApiError (List OwnedObject)) → List ObjectRef
  unfolding owned_refs
  owned_in [] = []
  owned_in (err e ∷ lists) = owned_in lists
  owned_in (ok objs ∷ lists) = owned_refs objs ++ owned_in lists

  delete_items_lem :
      (objs : List OwnedObject) (asked : List ObjectRef)
      → is_none (delete_items objs asked).0 ≡ true
      → (delete_items objs asked).1 ≡ asked ++ owned_refs objs
  unfolding delete_items owned_refs
  delete_items_lem [] asked fine = sym (append-nil asked)
  delete_items_lem (obj ∷ objs) asked fine = grind (
    arith,
    delete_items_lem objs asked,
    delete_items_lem objs (asked ++ obj.object ∷ []),
    append_assoc asked (obj.object ∷ []) (owned_refs objs),
  )

  delete_experiment_objects_lem :
      (lists : List (Result ApiError (List OwnedObject))) (asked : List ObjectRef)
      → is_none (delete_experiment_objects lists asked).0 ≡ true
      → (delete_experiment_objects lists asked).1 ≡ asked ++ owned_in lists
  unfolding delete_experiment_objects owned_in
  delete_experiment_objects_lem [] asked fine = sym (append-nil asked)
  delete_experiment_objects_lem (err e ∷ lists) asked fine = cc
  delete_experiment_objects_lem (ok objs ∷ lists) asked fine = grind (
    arith,
    delete_items_lem objs asked,
    delete_experiment_objects_lem lists (delete_items objs asked).1,
    append_assoc asked (owned_refs objs) (owned_in lists),
  )

  contains-delete_items :
      (objs : List OwnedObject) (asked : List ObjectRef) (ref : ObjectRef)
      → contains (delete_items objs asked).1 ref ≡ true
      → (contains asked ref || contains (owned_refs objs) ref) ≡ true
  unfolding delete_items owned_refs contains
  contains-delete_items [] asked ref found = ground (arith, found)
  contains-delete_items (obj ∷ objs) asked ref found = ground (
    arith,
    found,
    contains-append asked (obj.object ∷ []) ref,
    contains-delete_items objs asked ref,
    contains-delete_items objs (asked ++ obj.object ∷ []) ref,
  )

  contains-delete_experiment_objects :
      (lists : List (Result ApiError (List OwnedObject))) (asked : List ObjectRef) (ref : ObjectRef)
      → contains (delete_experiment_objects lists asked).1 ref ≡ true
      → (contains asked ref || contains (owned_in lists) ref) ≡ true
  unfolding delete_experiment_objects owned_in contains
  contains-delete_experiment_objects [] asked ref found = ground (arith, found)
  contains-delete_experiment_objects (err e ∷ lists) asked ref found = ground (arith, found)
  contains-delete_experiment_objects (ok objs ∷ lists) asked ref found = ground (
    arith,
    found,
    contains-append (owned_refs objs) (owned_in lists) ref,
    contains-delete_items objs asked ref,
    contains-delete_experiment_objects lists (delete_items objs asked).1 ref,
  )

  contains-owned_refs :
      (objs : List OwnedObject) (ref : ObjectRef)
      → (contains (owned_refs objs) ref ≡ true) ↔ OwnedAmong experiment objs ref
  unfolding owned_refs contains OwnedAmong
  contains-owned_refs [] ref = ground arith
  contains-owned_refs (obj ∷ objs) ref = ground (
    arith,
    ref_beq_iff obj.object ref,
    is_owned-HasOwner experiment obj.owners,
    contains-owned_refs objs ref,
  )

  contains-owned_in :
      (lists : List (Result ApiError (List OwnedObject))) (ref : ObjectRef)
      → (contains (owned_in lists) ref ≡ true) ↔ OwnedIn experiment lists ref
  unfolding owned_in contains OwnedIn
  contains-owned_in [] ref = ground arith
  contains-owned_in (err e ∷ lists) ref = contains-owned_in lists ref
  contains-owned_in (ok objs ∷ lists) ref = ground (
    arith,
    contains-append (owned_refs objs) (owned_in lists) ref,
    contains-owned_refs objs ref,
    contains-owned_in lists ref,
  )

-- The cleanup of a deleted experiment asks for the deletion of no object but those that were listed
-- with an owner of the kind Experiment and of its name, also where it fails; where it does not fail,
-- it asks for all of these. Objects are told apart by kind and name.
pub delete_experiment_objects-eq-OwnedIn :
    (delete_object : ObjectRef → Option ApiError) (experiment : String)
    (lists : List (Result ApiError (List OwnedObject))) (ref : ObjectRef)
    → let (e, asked) = delete_experiment_objects delete_object experiment lists [] in
      ((contains asked ref ≡ false) ⊎ OwnedIn experiment lists ref)
      × ((is_none e ≡ false) ⊎ ((contains asked ref ≡ true) ↔ OwnedIn experiment lists ref))
unfolding contains
delete_experiment_objects-eq-OwnedIn delete_object experiment lists ref =
    let (e, asked) = delete_experiment_objects delete_object experiment lists [] in
    let owned = owned_in delete_object experiment lists in
    let iff = contains-owned_in delete_object experiment lists ref in
    (
      elim (Bool-cases (contains asked ref)) [
        | inl found ↦ inr (
            iff.0 (
              ground (
                arith,
                found,
                contains-delete_experiment_objects delete_object experiment lists [] ref found,
              )))
        | inr absent ↦ inl absent
      ],
      elim (Bool-cases (is_none e)) [
        | inl fine ↦ inr (
            subst (λ (l : List ObjectRef). (contains l ref ≡ true) ↔ OwnedIn experiment lists ref)
              (sym (delete_experiment_objects_lem delete_object experiment lists [] fine)) iff)
        | inr failed ↦ inl failed
      ],
    )
