-- ===== src/Base/Text.antt =====
-- Python's tests on texts.
use schema_pilot_api_contrac.Base.{String, Bool, true, false, ◌&&◌, ◌==◌, string_eq}

-- `s.startswith(prefix)`
unfoldable pub starts_with : String → String → Bool
starts_with String.[] s = true
starts_with (String.◌∷◌ c prefix) String.[] = false
starts_with (String.◌∷◌ c prefix) (String.◌∷◌ d s) =
    String.◌∷◌ c "" == String.◌∷◌ d "" && starts_with prefix s
