-- ===== src/Monitor/Changelog/Cache.antt =====
-- Which text a changelog gets, and that it keeps it.
use schema_pilot_api_contrac.Base.{
  ℕ, ◌≤◌, String, ◌≡◌, refl, ◌⊎◌, inl, inr, Bool, true, false, Bool-cases, Option, none, some,
  Option-cases, List, [], ◌∷◌, ◌++◌, map, arith, contains, nat_eq, string_eq,
}
use schema_pilot_api_contrac.Base.Sequence.{find?, All}
use schema_pilot_api_contrac.Monitor.States.{count_chars}
use schema_pilot_api_contrac.Monitor.Tables.{SchemaSnapshot, SchemaDiff}
use schema_pilot_api_contrac.Monitor.Diff.{Diff}
use schema_pilot_api_contrac.Monitor.Changelog.{
  ChangelogRow, Changelogs, cached, new_changelog, generate_changelog, choose_text,
  template_changelog, validate_llm_output, known_paths, looks_like_path, quoted, hash_diff_set,
}

-- A quotation is no path, or one of the given paths.
abbrev pub Known : List String → String → Type 0
Known input_paths p = (looks_like_path p ≡ false) ⊎ (contains input_paths p ≡ true)

known_paths-Known :
    (input_paths ps : List String) → known_paths input_paths ps ≡ true → All (Known input_paths) ps
unfolding known_paths
known_paths-Known input_paths [] h = tt
known_paths-Known input_paths (p ∷ ps) h = ground (arith, known_paths-Known input_paths ps)

validate_llm_output-Known :
    (answer : String) (ds : List Diff)
    → validate_llm_output answer ds ≡ true
    → (count_chars answer ≤ 4000) × All (Known (map (λ d. d.path) ds)) (quoted answer none)
unfolding validate_llm_output
validate_llm_output-Known answer ds h =
    (ground arith, known_paths-Known (map (λ d. d.path) ds) (quoted answer none) (ground arith))

-- The text of a new changelog is the template's, or the model's answer; then the answer has at most 4000
-- characters, and each quotation in it that looks like a path is the path of a difference.
pub choose_text-Known :
    (answer : Option (Option String)) (model : String) (ds : List Diff)
    → (choose_text answer model ds ≡ (template_changelog ds, none))
      ⊎ ((text : String) × (answer ≡ some (some text))
          × (choose_text answer model ds ≡ (text, some model))
          × (count_chars text ≤ 4000)
          × All (Known (map (λ d. d.path) ds)) (quoted text none))
unfolding choose_text
choose_text-Known none model ds = inl refl
choose_text-Known (some none) model ds = inl refl
choose_text-Known (some (some text)) model ds = elim (Bool-cases (validate_llm_output text ds)) [
  | inr invalid ↦ inl (rw invalid refl)
  | inl valid ↦
      let known = validate_llm_output-Known text ds valid in
      inr (text, refl, rw valid refl, known.0, known.1)
]

find?-append :
    (p : ChangelogRow → Bool) (row : ChangelogRow) (rows : List ChangelogRow)
    → find? p rows ≡ none
    → p row ≡ true
    → find? p (rows ++ (row ∷ [])) ≡ some row
find?-append p row [] h t = rw t refl
find?-append p row (r ∷ rows) h t = ground (arith, find?-append p row rows)

-- A changelog is generated once: the same snapshot and differences give the row that they gave before,
-- whatever the model answers now, and no row is added.
pub generate_changelog_idempotent :
    (digest : List ℕ → String) (answer answer2 : Option (Option String)) (model model2 : String)
    (snapshot : SchemaSnapshot) (ds : List SchemaDiff) (logs : Changelogs)
    → generate_changelog digest answer2 model2 snapshot ds
        (generate_changelog digest answer model snapshot ds logs).1
      ≡ generate_changelog digest answer model snapshot ds logs
unfolding generate_changelog cached
generate_changelog_idempotent digest answer answer2 model model2 snapshot ds logs =
    elim (Option-cases (cached snapshot.id (hash_diff_set digest ds) logs.rows)) [
      | inr (row, found) ↦
          rw (found, generate_changelog)
            (rw (found, generate_changelog) (rw (found, generate_changelog) refl))
      | inl missing ↦
          let row = new_changelog digest answer model snapshot ds logs.next_id in
          let again : cached snapshot.id (hash_diff_set digest ds) (logs.rows ++ (row ∷ []))
              ≡ some row =
            find?-append _ row logs.rows missing (ground arith) in
          rw (missing, generate_changelog)
            (rw (again, generate_changelog) (rw (missing, generate_changelog) refl))
    ]
