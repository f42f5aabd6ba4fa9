-- ===== src/Operator/Experiment/Eviction/Eventually.antt =====
-- The eviction of a run that has ended, over two calls
-- (yass-operator/internal/controller/experiment/experiment_controller.go).
use yass_simulator.Base.{
  ◌≡◌, refl, sym, ap, ◌∙◌, subst, String, true, false, Option, none, some, ◌==◌, string_eq,
}
use yass_simulator.Base.Int.{ℤ, pos, ◌+ℤ◌, ◌-ℤ◌, ltb_ℤ, leb_ℤ}
use yass_simulator.Base.Map.{lookup, lookup-insert}
use yass_simulator.Operator.Experiment.{
  stored, Recon, resources_evicted_annotation, is_evicted, text_or_empty, annotation,
  eviction_scheduled,
}
use yass_simulator.Operator.Experiment.Conditions.{add_event}
use yass_simulator.Operator.Experiment.Cluster.{Cluster, Library}
use yass_simulator.Operator.Experiment.Run.{Failure, annotated, saved, update_stored}
use yass_simulator.Operator.Experiment.Eviction.{
  requeue_until, Answer, answered, behind_update, evict_resources_at_annotation,
  is_terminal_experiment_state, set_experiment_annotation, evict_stamped, evict_after,
  maybe_evict_resources,
}
use yass_simulator.Operator.Experiment.Eviction.Freed.{frees, listed}
use yass_simulator.Operator.Experiment.Eviction.Deadline.{
  IsDue, is_evicted-maybe_evict_resources, deleted-maybe_evict_resources,
  error-maybe_evict_resources,
}

-- A run that has ended, with a time to keep its resources, that no call has seen since.
pub record IsFresh (after : ℤ) (r : Recon) : Type 0 where
  pub wanted : r.experiment.evict_resources_after ≡ some after
  pub positive : leb_ℤ after (pos 0) ≡ false
  pub ended : is_terminal_experiment_state r.experiment.state ≡ true
  pub kept : is_evicted r.experiment ≡ false
  pub unstamped : lookup evict_resources_at_annotation r.experiment.annotations ≡ none

-- The next call reads the experiment with the annotations that are stored.
abbrev pub again : Recon → Recon
again r = record r { experiment = stored r }

module _ (k : Cluster) (lib : Library) where
  set_experiment_annotation-fresh :
      (value : String) (r : Recon)
      → lookup evict_resources_at_annotation r.experiment.annotations ≡ none
      → ("" == value) ≡ false
      → k.update_answer ≡ none
      → set_experiment_annotation k lib evict_resources_at_annotation value r
        ≡ (none, saved (annotated evict_resources_at_annotation value r))
  unfolding set_experiment_annotation annotation update_stored
  set_experiment_annotation-fresh value r unstamped text update_stored =
      rw (unstamped, text, update_stored) refl

  evict_after-fresh :
      (now after : ℤ) (r : Recon)
      → IsFresh after r
      → evict_after k lib now (some after) r ≡ evict_stamped k lib now after none r
  unfolding evict_after is_evicted evict_stamped
  evict_after-fresh now after r fresh =
      rw (fresh.positive, fresh.ended, fresh.kept, fresh.unstamped) refl

  recon-maybe_evict_resources :
      (now after : ℤ) (r : Recon)
      → IsFresh after r
      → ("" == lib.format_time (now +ℤ after)) ≡ false
      → k.update_answer ≡ none
      → (maybe_evict_resources k lib now r).recon
        ≡ add_event eviction_scheduled
            (saved (annotated evict_resources_at_annotation (lib.format_time (now +ℤ after)) r))
  unfolding evict_stamped behind_update answered
  recon-maybe_evict_resources now after r fresh text update_stored =
      ap (λ (o : Option ℤ). (evict_after k lib now o r).recon) fresh.wanted
      ∙ ap (λ (a : Answer). a.recon) (evict_after-fresh now after r fresh)
      ∙ ap
          (λ (done : Option Failure × Recon).
            (behind_update (requeue_until after) eviction_scheduled done).recon)
          (set_experiment_annotation-fresh (lib.format_time (now +ℤ after)) r fresh.unstamped text
            update_stored)

  is_evicted-stamped :
      (stamp : String) (r : Recon)
      → is_evicted
          (again (
            add_event eviction_scheduled
              (saved (annotated evict_resources_at_annotation stamp r)))).experiment
        ≡ is_evicted r.experiment
  unfolding is_evicted annotation add_event annotated saved
  is_evicted-stamped stamp r =
      ap (λ (o : Option String). text_or_empty o == "true")
        (lookup-insert evict_resources_at_annotation resources_evicted_annotation stamp
          r.experiment.annotations)

  lookup-stamped :
      (stamp : String) (r : Recon)
      → lookup evict_resources_at_annotation
          (again (
            add_event eviction_scheduled
              (saved (annotated evict_resources_at_annotation stamp r)))).experiment.annotations
        ≡ some stamp
  unfolding add_event annotated saved
  lookup-stamped stamp r =
      lookup-insert evict_resources_at_annotation evict_resources_at_annotation stamp
        r.experiment.annotations

  IsDue-stamped :
      (after later deadline : ℤ) (stamp : String) (r : Recon)
      → IsFresh after r
      → lib.parse_time stamp ≡ some deadline
      → ltb_ℤ (pos 0) (deadline -ℤ later) ≡ false
      → IsDue lib later (
          again (
            add_event eviction_scheduled (saved (annotated evict_resources_at_annotation stamp r))))
  unfolding add_event annotated saved
  IsDue-stamped after later deadline stamp r fresh parsed past = record {
    after = after;
    stamp = stamp;
    deadline = deadline;
    wanted = fresh.wanted;
    positive = fresh.positive;
    ended = fresh.ended;
    kept = is_evicted-stamped stamp r ∙ fresh.kept;
    stamped = lookup-stamped stamp r;
    parsed = parsed;
    come = past;
  }

  -- A run that has ended, with a positive time to keep its resources, that is neither stamped nor
  -- marked, is emptied by the first call that comes at its deadline: a call stamps the deadline,
  -- and a later call, that reads the experiment with the annotations that are stored then and finds
  -- the deadline past, deletes exactly the listed objects, returns no error and leaves the stored
  -- experiment marked: where the updates with the stamp and with the mark and all the deletions go
  -- well and the stamp is not empty and can be read.
  pub maybe_evict_resources-eventually :
      (k' : Cluster) (now after later deadline : ℤ) (r : Recon)
      → IsFresh after r
      → ("" == lib.format_time (now +ℤ after)) ≡ false
      → lib.parse_time (lib.format_time (now +ℤ after)) ≡ some deadline
      → ltb_ℤ (pos 0) (deadline -ℤ later) ≡ false
      → k.update_answer ≡ none
      → k'.update_answer ≡ none
      → frees k' k'.workloads ≡ true
      → let second =
          maybe_evict_resources k' lib later (again (maybe_evict_resources k lib now r).recon) in
        (is_evicted (stored second.recon) ≡ true)
        × (second.error ≡ none)
        × (second.deleted ≡ listed k'.workloads)
  maybe_evict_resources-eventually k' now after later deadline r fresh text parsed past stamped
        marked fine =
      let r' = again (maybe_evict_resources k lib now r).recon in
      let due : IsDue lib later r' =
        subst (λ (x : Recon). IsDue lib later (again x))
          (sym (recon-maybe_evict_resources now after r fresh text stamped))
          (IsDue-stamped after later deadline (lib.format_time (now +ℤ after)) r fresh parsed
            past) in
      (
        is_evicted-maybe_evict_resources k' lib later r' due due.kept ∙ rw (fine, marked) refl,
        error-maybe_evict_resources k' lib later r' due fine marked,
        deleted-maybe_evict_resources k' lib later r' due fine,
      )
