-- ===== src/Base/Result.antt =====
-- Results of code that may raise.
use schema_pilot_api_contrac.Base.{◌≡◌, refl, ap, arith, String, ◌⊎◌, inl, inr}

pub data Exception : Type 0 where
  type_error : Exception
  integrity_error : Exception
  no_result_found : Exception
  runtime_error : String → Exception
  value_error : String → Exception
  key_error : String → Exception

module _ {ℓ} where
  pub data Result (A : Type ℓ) : Type ℓ where
    raised : Exception → Result A
    ok : A → Result A

-- The rest of a block runs only where the call before it returned.
infixl 5 ◌>>=◌
abbrev pub ◌>>=◌ {ℓ κ} :
    {A : Type ℓ} {B : Type κ} (call : Result A) (rest : A → Result B) → Result B
raised exception >>= rest = raised exception
ok value >>= rest = rest value

-- A block that returned: its first call did, and then its rest.
pub >>=-eq-ok {ℓ κ} :
    {A : Type ℓ} {B : Type κ} (call : Result A) (rest : A → Result B) {b : B}
    → (call >>= rest) ≡ ok b
    → (value : A) × (call ≡ ok value) × (rest value ≡ ok b)
>>=-eq-ok (raised exception) rest h = ground arith
>>=-eq-ok (ok value) rest h = (value, refl, h)

abbrev value_or {ℓ} : {A : Type ℓ} → A → Result A → A
value_or default (raised exception) = default
value_or default (ok value) = value

pub ok-injective {ℓ} : {A : Type ℓ} (a b : A) → ok a ≡ ok b → a ≡ b
ok-injective a b h = ap (value_or a) h

pub Result-cases {ℓ} :
    {A : Type ℓ} (r : Result A)
    → ((exception : Exception) × (r ≡ raised exception)) ⊎ ((a : A) × (r ≡ ok a))
Result-cases (raised exception) = inl (exception, refl)
Result-cases (ok a) = inr (a, refl)
