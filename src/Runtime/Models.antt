-- ===== src/Runtime/Models.antt =====
-- app/runtime/models.py: compatibility classes and their ranks.
use schema_pilot_api_contrac.Base.{ℕ, ◌≡◌, refl, String, ◌==◌, string_eq, if◌then◌else◌}

-- `Compatibility`, and the members of `SeverityRank`
pub data Compatibility : Type 0 where
  safe backward_compatible forward_compatible risky breaking : Compatibility

-- the text that is stored and sent
unfoldable pub name : Compatibility → String
name safe = "SAFE"
name backward_compatible = "BACKWARD_COMPATIBLE"
name forward_compatible = "FORWARD_COMPATIBLE"
name risky = "RISKY"
name breaking = "BREAKING"

-- `SeverityRank`
unfoldable pub rank : Compatibility → ℕ
rank safe = 0
rank backward_compatible = 1
rank forward_compatible = 2
rank risky = 3
rank breaking = 4

-- `severity_rank`, on any text: an unknown one counts as SAFE
unfoldable pub severity_rank : String → ℕ
severity_rank value =
    if value == "SAFE"
    then 0
    else if value == "BACKWARD_COMPATIBLE"
    then 1
    else if value == "FORWARD_COMPATIBLE"
    then 2
    else if value == "RISKY"
    then 3
    else if value == "BREAKING"
    then 4
    else 0

pub severity_rank-name : (c : Compatibility) → severity_rank (name c) ≡ rank c
unfolding severity_rank name rank string_eq
severity_rank-name safe = refl
severity_rank-name backward_compatible = refl
severity_rank-name forward_compatible = refl
severity_rank-name risky = refl
severity_rank-name breaking = refl
