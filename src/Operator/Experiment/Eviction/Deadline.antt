-- ===== src/Operator/Experiment/Eviction/Deadline.antt =====
-- When the objects of a run are deleted
-- (yass-operator/internal/controller/experiment/experiment_controller.go).
use yass_simulator.Base.{
  ◌≡◌, ◌≢◌, refl, ap, ◌∙◌, String, Bool, ◌&&◌, true, false, not, ◌||◌, Option, none, some, [],
  arith, ◌==◌, string_eq, Bool-cases, inl, inr,
}
use yass_simulator.Base.Int.{ℤ, pos, ◌-ℤ◌, ◌≤ℤ◌, ltb_ℤ, leb_ℤ}
use yass_simulator.Base.Map.{lookup, lookup-insert}
use yass_simulator.Operator.Experiment.{
  stored, ApiError, Event, Recon, resources_evicted_annotation, is_evicted, text_or_empty,
  annotation, resources_evicted,
}
use yass_simulator.Operator.Experiment.Conditions.{add_event}
use yass_simulator.Operator.Experiment.Cluster.{Cluster, Library}
use yass_simulator.Operator.Experiment.Run.{Failure, annotated, saved, update_stored}
use yass_simulator.Operator.Experiment.Eviction.{
  seconds, requeue_until, Answer, answered, behind_update, evict_resources_at_annotation,
  is_terminal_experiment_state, Evicted, evict_experiment_resources, set_experiment_annotation,
  evicted_with, evict_at, evict_stamped, evict_after, maybe_evict_resources,
}
use yass_simulator.Operator.Experiment.Eviction.Freed.{
  is_none, frees, listed, is_none-evict_lists, evict_lists_lem,
}

-- The run has ended, its objects are still there, and the deadline that its annotation states has come.
pub record IsDue (lib : Library) (now : ℤ) (r : Recon) : Type 0 where
  pub after : ℤ
  pub stamp : String
  pub deadline : ℤ
  pub wanted : r.experiment.evict_resources_after ≡ some after
  pub positive : leb_ℤ after (pos 0) ≡ false
  pub ended : is_terminal_experiment_state r.experiment.state ≡ true
  pub kept : is_evicted r.experiment ≡ false
  pub stamped : lookup evict_resources_at_annotation r.experiment.annotations ≡ some stamp
  pub parsed : lib.parse_time stamp ≡ some deadline
  pub come : ltb_ℤ (pos 0) (deadline -ℤ now) ≡ false

deleted-behind_update :
    (delay : ℤ) (e : Event) (done : Option Failure × Recon)
    → (behind_update delay e done).deleted ≡ []
unfolding behind_update answered
deleted-behind_update delay e (none, r) = refl
deleted-behind_update delay e (some f, r) = refl

stored-behind_update :
    (delay : ℤ) (e : Event) (done : Option Failure × Recon)
    → stored (behind_update delay e done).recon ≡ stored done.1
unfolding behind_update answered add_event
stored-behind_update delay e (none, r) = refl
stored-behind_update delay e (some f, r) = refl

module _ (k : Cluster) (lib : Library) (now : ℤ) where
  IsDue-evict_at :
      (after : ℤ) (stamp : String) (parsed : Option ℤ) (r : Recon)
      → r.experiment.evict_resources_after ≡ some after
      → leb_ℤ after (pos 0) ≡ false
      → is_terminal_experiment_state r.experiment.state ≡ true
      → is_evicted r.experiment ≡ false
      → lookup evict_resources_at_annotation r.experiment.annotations ≡ some stamp
      → lib.parse_time stamp ≡ parsed
      → (evict_at k lib now after parsed r).deleted ≢ []
      → IsDue lib now r
  unfolding evict_at answered
  IsDue-evict_at after stamp none r wanted positive ended kept stamped parsed some_deleted =
      elim (some_deleted refl) [ ]
  IsDue-evict_at after stamp (some deadline) r wanted positive ended kept stamped parsed
        some_deleted =
      elim (Bool-cases (ltb_ℤ (pos 0) (deadline -ℤ now))) [
        | inl early ↦ elim (some_deleted (ground (arith, early))) [ ]
        | inr come ↦ record {
          after = after;
          stamp = stamp;
          deadline = deadline;
          wanted = wanted;
          positive = positive;
          ended = ended;
          kept = kept;
          stamped = stamped;
          parsed = parsed;
          come = come;
        }
      ]

  IsDue-evict_stamped :
      (after : ℤ) (stamp : Option String) (r : Recon)
      → r.experiment.evict_resources_after ≡ some after
      → leb_ℤ after (pos 0) ≡ false
      → is_terminal_experiment_state r.experiment.state ≡ true
      → is_evicted r.experiment ≡ false
      → lookup evict_resources_at_annotation r.experiment.annotations ≡ stamp
      → (evict_stamped k lib now after stamp r).deleted ≢ []
      → IsDue lib now r
  unfolding evict_stamped
  IsDue-evict_stamped after none r wanted positive ended kept stamped some_deleted =
      elim (some_deleted (deleted-behind_update _ _ _)) [ ]
  IsDue-evict_stamped after (some stamp) r wanted positive ended kept stamped some_deleted =
      IsDue-evict_at after stamp (lib.parse_time stamp) r wanted positive ended kept stamped refl
        some_deleted

  IsDue-evict_after :
      (after : ℤ) (r : Recon)
      → r.experiment.evict_resources_after ≡ some after
      → (evict_after k lib now (some after) r).deleted ≢ []
      → IsDue lib now r
  unfolding evict_after answered
  IsDue-evict_after after r wanted some_deleted =
      let wait =
        leb_ℤ after (pos 0)
        || (not (is_terminal_experiment_state r.experiment.state) || is_evicted r.experiment) in
      elim (Bool-cases wait) [
        | inl waits ↦ elim (some_deleted (ground (arith, waits))) [ ]
        | inr due ↦
            IsDue-evict_stamped after
              (lookup evict_resources_at_annotation r.experiment.annotations) r wanted
              (ground (arith, due)) (ground (arith, due)) (ground (arith, due)) refl
              (ground (arith, due, some_deleted))
      ]

  IsDue-evict_wanted :
      (wanted : Option ℤ) (r : Recon)
      → r.experiment.evict_resources_after ≡ wanted
      → (evict_after k lib now wanted r).deleted ≢ []
      → IsDue lib now r
  unfolding evict_after answered
  IsDue-evict_wanted none r same some_deleted = elim (some_deleted refl) [ ]
  IsDue-evict_wanted (some after) r same some_deleted = IsDue-evict_after after r same some_deleted

  -- An object is deleted only if the run has ended, a positive time to keep its resources is set, its
  -- objects were not deleted before, and the deadline in its annotation can be read and has come.
  pub IsDue-maybe_evict_resources :
      (r : Recon) → (maybe_evict_resources k lib now r).deleted ≢ [] → IsDue lib now r
  IsDue-maybe_evict_resources r some_deleted =
      IsDue-evict_wanted r.experiment.evict_resources_after r refl some_deleted

  maybe_evict_resources-eq-evicted_with :
      (r : Recon)
      → IsDue lib now r
      → maybe_evict_resources k lib now r ≡ evicted_with k lib (evict_experiment_resources k lib) r
  unfolding evict_after evict_stamped evict_at is_evicted evicted_with
  maybe_evict_resources-eq-evicted_with r due =
      rw (due.wanted, due.positive, due.ended, due.kept, due.stamped, due.parsed, due.come) refl

  deleted-evicted_with :
      (done : Option ApiError × Evicted) (r : Recon)
      → (evicted_with k lib done r).deleted ≡ done.1.asked
  unfolding evicted_with
  deleted-evicted_with (none, s) r = refl
  deleted-evicted_with (some e, s) r = refl

  is_evicted-annotated :
      (r : Recon) → is_evicted (annotated resources_evicted_annotation "true" r).experiment ≡ true
  unfolding annotated is_evicted annotation
  is_evicted-annotated r =
      ap (λ (o : Option String). text_or_empty o == "true")
        (lookup-insert resources_evicted_annotation resources_evicted_annotation "true"
          r.experiment.annotations)

  is_evicted-update_stored :
      (answer : Option ApiError) (r : Recon)
      → is_evicted (stored r) ≡ false
      → is_evicted
          (stored (update_stored answer (annotated resources_evicted_annotation "true" r)).1)
        ≡ is_none answer
  unfolding update_stored saved annotated
  is_evicted-update_stored none r kept = is_evicted-annotated r
  is_evicted-update_stored (some e) r kept = kept

  set_experiment_annotation-kept :
      (r : Recon)
      → is_evicted r.experiment ≡ false
      → set_experiment_annotation k lib resources_evicted_annotation "true" r
        ≡ update_stored k.update_answer (annotated resources_evicted_annotation "true" r)
  unfolding set_experiment_annotation is_evicted
  set_experiment_annotation-kept r kept = rw kept refl

  is_evicted-evicted_with :
      (done : Option ApiError × Evicted) (r : Recon)
      → is_evicted r.experiment ≡ false
      → is_evicted (stored r) ≡ false
      → is_evicted (stored (evicted_with k lib done r).recon)
        ≡ (is_none done.0 && is_none k.update_answer)
  unfolding evicted_with
  is_evicted-evicted_with (none, s) r kept unmarked =
      ap is_evicted (
        stored-behind_update (pos 0) resources_evicted
          (set_experiment_annotation k lib resources_evicted_annotation "true" r))
      ∙ ap (λ (done : Option Failure × Recon). is_evicted (stored done.1))
          (set_experiment_annotation-kept r kept)
      ∙ is_evicted-update_stored k.update_answer r unmarked
  is_evicted-evicted_with (some e, s) r kept unmarked = unmarked

  -- Where the deadline has come, the stored experiment is marked as emptied exactly if every list of
  -- objects is answered, every deletion goes well or does not find its object, and the update of the
  -- experiment goes well: where it was not marked before.
  pub is_evicted-maybe_evict_resources :
      (r : Recon)
      → IsDue lib now r
      → is_evicted (stored r) ≡ false
      → is_evicted (stored (maybe_evict_resources k lib now r).recon)
        ≡ (frees k k.workloads && is_none k.update_answer)
  is_evicted-maybe_evict_resources r due unmarked =
      ap (λ (a : Answer). is_evicted (stored a.recon)) (maybe_evict_resources-eq-evicted_with r due)
      ∙ is_evicted-evicted_with (evict_experiment_resources k lib) r due.kept unmarked
      ∙ ap (λ (b : Bool). b && is_none k.update_answer)
          (is_none-evict_lists k lib k.workloads (record { asked = []; count = 0 }))

  error-evicted_with :
      (done : Option ApiError × Evicted) (r : Recon)
      → is_none done.0 ≡ true
      → is_evicted r.experiment ≡ false
      → k.update_answer ≡ none
      → (evicted_with k lib done r).error ≡ none
  unfolding evicted_with behind_update answered update_stored
  error-evicted_with (none, s) r fine kept taken =
      ap (λ (done : Option Failure × Recon). (behind_update (pos 0) resources_evicted done).error)
        (set_experiment_annotation-kept r kept)
      ∙ rw taken refl
  error-evicted_with (some e, s) r fine kept taken = cc

  -- Where nothing is refused, there is no error.
  pub error-maybe_evict_resources :
      (r : Recon)
      → IsDue lib now r
      → frees k k.workloads ≡ true
      → k.update_answer ≡ none
      → (maybe_evict_resources k lib now r).error ≡ none
  error-maybe_evict_resources r due fine taken =
      ap (λ (a : Answer). a.error) (maybe_evict_resources-eq-evicted_with r due)
      ∙ error-evicted_with (evict_experiment_resources k lib) r
          (is_none-evict_lists k lib k.workloads (record { asked = []; count = 0 }) ∙ fine) due.kept
          taken

  -- Where the deadline has come and nothing is refused, exactly the listed objects are deleted.
  pub deleted-maybe_evict_resources :
      (r : Recon)
      → IsDue lib now r
      → frees k k.workloads ≡ true
      → (maybe_evict_resources k lib now r).deleted ≡ listed k.workloads
  deleted-maybe_evict_resources r due fine =
      ap (λ (a : Answer). a.deleted) (maybe_evict_resources-eq-evicted_with r due)
      ∙ deleted-evicted_with (evict_experiment_resources k lib) r
      ∙ ap (λ (s : Evicted). s.asked)
          (evict_lists_lem k lib k.workloads (record { asked = []; count = 0 }) fine)

requeue_until-bounds : (d : ℤ) → (seconds 1 ≤ℤ requeue_until d) × (requeue_until d ≤ℤ seconds 60)
unfolding requeue_until
requeue_until-bounds d = ground arith
