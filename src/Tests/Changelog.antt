-- ===== src/Tests/Changelog.antt =====
-- Runs of the changelogs.
use native.Mathlib.Decide.{ℕ_discrete}
use schema_pilot_api_contrac.Base.{
  decimal, ℕ, ◌≤◌, ◌≡◌, ◌⊎◌, refl, some, none, List, [], ◌∷◌, map, String, string_eq, nat_eq, ◌<>◌,
}
use schema_pilot_api_contrac.Base.Sequence.{All}
use schema_pilot_api_contrac.Monitor.Types.{JsonType}
use schema_pilot_api_contrac.Monitor.Diff.{Diff}
use schema_pilot_api_contrac.Monitor.Tables.{SchemaDiff}
use schema_pilot_api_contrac.Monitor.States.{count_chars}
use schema_pilot_api_contrac.Monitor.Severity.{ChangeType}
use schema_pilot_api_contrac.Monitor.Changelog.{
  diffs_to_core, to_core, quoted, Changelogs, generate_changelog, choose_text, template_changelog,
}
use schema_pilot_api_contrac.Monitor.Changelog.Cache.{
  generate_changelog_idempotent, choose_text-Known, Known,
}
use schema_pilot_api_contrac.Tests.Runner.{snapshot}

abbrev one_diff : SchemaDiff
one_diff = record {
  id = 4;
  endpoint_id = 1;
  old_snapshot_id = some 2;
  new_snapshot_id = 3;
  severity = "breaking";
  change_type = ChangeType.removed_field;
  path = "user.age";
  old_type = some JsonType.integer;
  new_type = none;
  old_value = none;
  new_value = none;
  message = "Field user.age was removed from the response schema.";
  created_at = 3;
}

abbrev no_logs : Changelogs
no_logs = record { rows = []; next_id = 0 }

abbrev count_ids : List ℕ → String
count_ids [] = ""
count_ids (id ∷ ids) = "x" <> count_ids ids

generate_changelog_idempotent_example :
    generate_changelog count_ids none "m2"
      (snapshot 3)
      (one_diff ∷ [])
      (generate_changelog count_ids
        (some (some "## Breaking"))
        "m1"
        (snapshot 3)
        (one_diff ∷ [])
        no_logs).1
    ≡ generate_changelog count_ids
        (some (some "## Breaking"))
        "m1"
        (snapshot 3)
        (one_diff ∷ [])
        no_logs
generate_changelog_idempotent_example =
    generate_changelog_idempotent count_ids (some (some "## Breaking")) none "m1" "m2" (snapshot 3)
      (one_diff ∷ []) no_logs

abbrev core : List Diff
core = diffs_to_core (one_diff ∷ [])

choose_text-Known_example :
    (choose_text (some (some "## Breaking `user.age`")) "m1" core ≡ (template_changelog core, none))
    ⊎ ((answer : String) × (some (some "## Breaking `user.age`") ≡ some (some answer))
        × (choose_text (some (some "## Breaking `user.age`")) "m1" core ≡ (answer, some "m1"))
        × (count_chars answer ≤ 4000)
        × All (Known (map (λ d. d.path) core)) (quoted answer none))
choose_text-Known_example = choose_text-Known (some (some "## Breaking `user.age`")) "m1" core

known_answer :
    choose_text (some (some "## Breaking `user.age`")) "m1" core
    ≡ ("## Breaking `user.age`", some "m1")
unfolding choose_text count_chars string_eq ℕ_discrete to_core nat_eq
known_answer = refl

unknown_answer :
    choose_text (some (some "## Breaking `user.name`")) "m1" core
    ≡ ("## Breaking (1)\n- `user.age` — Field user.age was removed from the response schema.", none)
unfolding choose_text count_chars string_eq ℕ_discrete to_core nat_eq decimal
unknown_answer = refl
