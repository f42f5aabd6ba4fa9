-- ===== src/Tests/Files.antt =====
-- The theorems on internal-components/experiment-executor/internal/app.go at concrete inputs.
use yass_simulator.Base.{
  String, ◌≡◌, ◌↔◌, refl, true, none, some, [], ◌∷◌, arith, ◌==◌, string_eq, string_beq_iff,
  if◌then◌else◌,
}
use yass_simulator.Base.Int.{pos}
use yass_simulator.Base.Map.{Map, lookup}
use yass_simulator.Executor.Completion.{
  CrudEvent, CompletionRule, record_crud_for_completion, run_events, new_completion, Behaviour,
  Texts,
}
use yass_simulator.Executor.Completion.History.{is_put, is_received, any}
use yass_simulator.Executor.Completion.AllFiles.{is_any_put, record_crud-run_events}

abbrev put_image : CrudEvent
put_image = record { name = "image"; fs_node_name = "sat-1"; type = "PUT" }

abbrev got_image : CrudEvent
got_image = record { name = "image"; fs_node_name = "gs-1"; type = "RECEIVED" }

abbrev all_files : CompletionRule
all_files = record { count_all = true; n = pos 0 }

abbrev ground_stations : Map String CompletionRule
ground_stations = ("gs-1", all_files) ∷ []

record_crud-run_events_example :
    ((record_crud_for_completion got_image
        (run_events (put_image ∷ []) (new_completion ground_stations))).0
      ≡ true)
    ↔ ((any is_any_put (put_image ∷ []) ≡ true)
        × ((x : String)
            → any (is_put x) (put_image ∷ []) ≡ true
            → any (is_received "gs-1" x) (got_image ∷ put_image ∷ []) ≡ true))
unfolding lookup
record_crud-run_events_example =
    record_crud-run_events (put_image ∷ []) ground_stations got_image all_files refl refl refl
      (λ e. ground (arith, string_beq_iff "image" ""))

-- Texts that are kept as they are; one text is a number.
abbrev plain : Texts
plain = record {
  to_lower = λ t. t;
  trim_space = λ t. t;
  atoi = λ t. if t == "3" then some (pos 3) else none;
}

abbrev broadcaster : Behaviour
broadcaster = record {
  node = "gs-1";
  envs = ("SUCCESS_BROADCAST", "true") ∷ ("SUCCESS_AFTER_FILES", "3") ∷ [];
}
