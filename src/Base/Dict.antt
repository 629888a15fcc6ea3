-- ===== src/Base/Dict.antt =====
-- Python's `dict` with text keys, as an association list in insertion order.
use mathlib.Core.Option.{or_else, none-ne-some, some-injective}
use schema_pilot_api_contrac.Base.{
  String, ◌≡◌, refl, sym, subst, ◌∙◌, true, false, inl, inr, Bool-cases, Option, none, some, List,
  [], ◌∷◌, arith, ◌==◌, contains, string_eq, if◌then◌else◌,
}

abbrev pub Dict {ℓ} : Type ℓ → Type ℓ
Dict V = List (String × V)

pub key_eq : (k j : String) → (k == j) ≡ true → k ≡ j
key_eq k j h = ground arith

module _ {ℓ} {V : Type ℓ} where
  -- `d.keys()`
  abbrev pub keys : Dict V → List String
  keys [] = []
  keys ((k, _) ∷ d) = k ∷ keys d

  -- `d.get(k)`
  unfoldable pub get : String → Dict V → Option V
  get k [] = none
  get k ((j, v) ∷ d) = if k == j then some v else get k d

  -- `d[k] = v`: a key that is there keeps its place.
  unfoldable pub put : String → V → Dict V → Dict V
  put k v [] = (k, v) ∷ []
  put k v ((j, w) ∷ d) = if k == j then (j, v) ∷ d else (j, w) ∷ put k v d

  -- `d.update(e)`
  unfoldable pub update : Dict V → Dict V → Dict V
  unfolding put
  update d [] = d
  update d ((k, v) ∷ e) = update (put k v d) e

  pub get-put :
      (j k : String) (v : V) (d : Dict V) → get j (put k v d) ≡ (if j == k then some v else get j d)
  unfolding get put
  get-put j k v [] = refl
  get-put j k v (_ ∷ d) = ground (arith, get-put j k v d)

  pub get-put_self : (k : String) (v : V) (d : Dict V) → get k (put k v d) ≡ some v
  get-put_self k v d = get-put k k v d ∙ ground arith

  pub contains-keys : (k : String) (d : Dict V) → get k d ≡ none → contains (keys d) k ≡ false
  unfolding get
  contains-keys k [] h = refl
  contains-keys k ((j, v) ∷ d) h = ground (arith, contains-keys k d)

  pub get-eq-none : (k : String) (d : Dict V) → contains (keys d) k ≡ false → get k d ≡ none
  unfolding get
  get-eq-none k [] h = refl
  get-eq-none k ((j, v) ∷ d) h = ground (arith, get-eq-none k d)

  -- No key stands twice, as in every real dict.
  abbrev pub NodupKeys : Dict V → Type ℓ
  NodupKeys [] = Unit
  NodupKeys ((k, _) ∷ d) = (get k d ≡ none) × NodupKeys d

  pub put-NodupKeys : (k : String) (v : V) (d : Dict V) → NodupKeys d → NodupKeys (put k v d)
  unfolding get put
  put-NodupKeys k v [] _ = (refl, tt)
  put-NodupKeys k v ((j, w) ∷ d) (fresh, u) = ground (arith, put-NodupKeys k v d u, get-put j k v d)

  pub update-NodupKeys : (d e : Dict V) → NodupKeys d → NodupKeys (update d e)
  unfolding update
  update-NodupKeys d [] u = u
  update-NodupKeys d ((k, v) ∷ e) u = update-NodupKeys (put k v d) e (put-NodupKeys k v d u)

  -- The later dict wins.
  pub get-update :
      (j : String) (d e : Dict V) → NodupKeys e → get j (update d e) ≡ or_else (get j e) (get j d)
  unfolding update get or_else
  get-update j d [] u = refl
  get-update j d ((k, v) ∷ e) (fresh, u) =
      get-update j (put k v d) e u ∙ ground (arith, get-put j k v d)

  -- Every entry of the dict satisfies the predicate.
  abbrev pub Entries {κ} : (String → V → Type κ) → Dict V → Type κ
  Entries P [] = Unit
  Entries P ((k, v) ∷ d) = P k v × Entries P d

  pub get-Entries {κ} :
      (P : String → V → Type κ) (k : String) (d : Dict V) {v : V}
      → Entries P d
      → get k d ≡ some v
      → P k v
  unfolding get
  get-Entries P k [] e h = absurd (none-ne-some _ h)
  get-Entries P k ((j, w) ∷ d) {v} e h = elim (Bool-cases (k == j)) [
    | inl same ↦
        subst (λ i. P i v) (sym (key_eq k j same))
          (subst (P j) (some-injective w v (rw same at h)) e.0)
    | inr other ↦ get-Entries P k d e.1 (rw other at h)
  ]

  pub put-Entries {κ} :
      (P : String → V → Type κ) (k : String) (v : V) (d : Dict V)
      → P k v
      → Entries P d
      → Entries P (put k v d)
  unfolding put
  put-Entries P k v [] p e = (p, tt)
  put-Entries P k v ((j, w) ∷ d) p e = elim (Bool-cases (k == j)) [
    | inl same ↦ rw same (subst (λ i. P i v) (key_eq k j same) p, e.1)
    | inr other ↦ rw other (e.0, put-Entries P k v d p e.1)
  ]
