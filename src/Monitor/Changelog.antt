-- ===== src/Monitor/Changelog.antt =====
-- backend/app/core/changelog.py: the changelog of a snapshot's differences.
pub mod Cache
use Prim.Native.Char.{code}
use schema_pilot_api_contrac.Base.{
  ℕ, suc, String, ◌<>◌, Bool, true, false, not, ◌&&◌, ◌||◌, Option, none, some, List, [], ◌∷◌, ◌++◌,
  map, ltb, decimal, ◌==◌, contains, nat_eq, string_eq, if◌then◌else◌,
}
use schema_pilot_api_contrac.Base.Sequence.{length, filter, find?, sort_by}
use schema_pilot_api_contrac.Monitor.States.{count_chars}
use schema_pilot_api_contrac.Monitor.Tables.{SchemaSnapshot, SchemaDiff}
use schema_pilot_api_contrac.Monitor.Diff.{Diff}

-- `Changelog`
pub record ChangelogRow : Type 0 where
  pub id : ℕ
  pub endpoint_id : ℕ
  pub snapshot_id : ℕ
  pub diff_ids : List ℕ
  pub diff_set_hash : String
  pub generated_text : String
  pub model_name : Option String

-- `_diffs_to_core`
unfoldable pub to_core : SchemaDiff → Diff
to_core d = record {
  severity = d.severity;
  change_type = d.change_type;
  path = d.path;
  old_type = d.old_type;
  new_type = d.new_type;
  old_value = d.old_value;
  new_value = d.new_value;
  message = d.message;
}

abbrev pub diffs_to_core : List SchemaDiff → List Diff
diffs_to_core ds = map to_core ds

-- `_hash_diff_set`, given the digest of the list of identifiers
unfoldable pub hash_diff_set : (List ℕ → String) → List SchemaDiff → String
unfolding sort_by
hash_diff_set digest ds = digest (sort_by (λ id. id) (map (λ d. d.id) ds))

-- the lines of the section of one severity, given its title
unfoldable pub section_lines : String → List Diff → List String
section_lines title [] = []
section_lines title (d ∷ ds) =
    ("## " <> title <> " (" <> decimal (length (d ∷ ds)) <> ")")
    ∷ map (λ e. "- `" <> e.path <> "` — " <> e.message) (d ∷ ds)

-- `"\n".join(parts)`
unfoldable pub join_lines : List String → String
join_lines [] = ""
join_lines (s ∷ []) = s
join_lines (s ∷ ss) = s <> "\n" <> join_lines ss

abbrev of_severity : String → List Diff → List Diff
of_severity severity ds = filter (λ d. d.severity == severity) ds

-- `_template_changelog`
unfoldable pub template_changelog : List Diff → String
unfolding section_lines join_lines
template_changelog ds = join_lines (
    section_lines "Breaking" (of_severity "breaking" ds)
    ++ section_lines "Risky" (of_severity "risky" ds)
    ++ section_lines "Safe" (of_severity "safe" ds))

-- `c in s`, and `"##" in s`
unfoldable pub has_char : ℕ → String → Bool
has_char c String.[] = false
has_char c (String.◌∷◌ d s) = code d == c || has_char c s

unfoldable pub starts_hash : String → Bool
starts_hash String.[] = false
starts_hash (String.◌∷◌ d s) = code d == b'#'

unfoldable pub has_heading : String → Bool
unfolding starts_hash
has_heading String.[] = false
has_heading (String.◌∷◌ d s) = (code d == b'#' && starts_hash s) || has_heading s

-- `re.findall(r"`([^`]+)`", text)`: the second argument is what stands between the last backtick that may open
-- a match and here, none before one.
unfoldable pub quoted : String → Option String → List String
quoted String.[] started = []
quoted (String.◌∷◌ d s) none = quoted s (if code d == 96 then some "" else none)
quoted (String.◌∷◌ d s) (some read) =
    if code d == 96
    then if read == "" then quoted s (some "") else read ∷ quoted s none
    else quoted s (some (read <> String.◌∷◌ d ""))

-- `"." in fp or "[" in fp`
unfoldable pub looks_like_path : String → Bool
unfolding has_char
looks_like_path s = has_char b'.' s || has_char b'[' s

unfoldable pub known_paths : List String → List String → Bool
unfolding looks_like_path
known_paths input_paths [] = true
known_paths input_paths (p ∷ ps) =
    if looks_like_path p && not (contains input_paths p) then false else known_paths input_paths ps

-- `_validate_llm_output`
unfoldable pub validate_llm_output : String → List Diff → Bool
unfolding has_heading quoted known_paths count_chars
validate_llm_output s ds =
    if s == "" || ltb 4000 (count_chars s)
    then false
    else if not (has_heading s)
    then false
    else known_paths (map (λ d. d.path) ds) (quoted s none)

-- The text and the model's name, given the answer of the model where the key for it is set.
unfoldable pub choose_text : Option (Option String) → String → List Diff → String × Option String
unfolding validate_llm_output template_changelog
choose_text (some (some answer)) model ds =
    if validate_llm_output answer ds then (answer, some model) else (template_changelog ds, none)
choose_text _ model ds = (template_changelog ds, none)

-- The changelogs, and the next identifier.
pub record Changelogs : Type 0 where
  pub rows : List ChangelogRow
  pub next_id : ℕ

unfoldable pub cached : ℕ → String → List ChangelogRow → Option ChangelogRow
cached snapshot_id hash rows =
    find? (λ c. c.snapshot_id == snapshot_id && c.diff_set_hash == hash) rows

abbrev pub new_changelog :
    (List ℕ → String)
    → Option (Option String)
    → String
    → SchemaSnapshot
    → List SchemaDiff
    → ℕ
    → ChangelogRow
new_changelog digest answer model snapshot ds id =
    let chosen = choose_text answer model (diffs_to_core ds) in
    record {
      id = id;
      endpoint_id = snapshot.endpoint_id;
      snapshot_id = snapshot.id;
      diff_ids = map (λ d. d.id) ds;
      diff_set_hash = hash_diff_set digest ds;
      generated_text = chosen.0;
      model_name = chosen.1;
    }

-- `generate_changelog`
unfoldable pub generate_changelog :
    (List ℕ → String)
    → Option (Option String)
    → String
    → SchemaSnapshot
    → List SchemaDiff
    → Changelogs
    → ChangelogRow × Changelogs
unfolding hash_diff_set cached choose_text to_core
generate_changelog digest answer model snapshot ds logs =
    elim (cached snapshot.id (hash_diff_set digest ds) logs.rows) [
      | some row ↦ (row, logs)
      | none ↦
          let row = new_changelog digest answer model snapshot ds logs.next_id in
          (row, record { rows = logs.rows ++ (row ∷ []); next_id = suc logs.next_id })
    ]
