-- ===== src/Runtime/Documents/Newest.antt =====
-- The listings of the store: the newest documents, newest first.
use schema_pilot_api_contrac.Base.{ℕ, zero, suc, ◌≤◌, sym, subst, ◌⊎◌, inl, inr, List, [], ◌∷◌}
use schema_pilot_api_contrac.Base.Sequence.{
  length, take, All, Elem, All-Elem, All-every, Elem-take, length-take-le,
}
use schema_pilot_api_contrac.Base.TextOrder.{Before, Before-trans, trichotomy, before, same, after}
use schema_pilot_api_contrac.Json.{Fields}
use schema_pilot_api_contrac.Runtime.Documents.{
  Collection, Store, collection, values, created_at, insert_newest, sort_newest, list_documents,
}

-- The first document was not created after the second.
abbrev pub NotNewer : Fields → Fields → Type 0
NotNewer a b = ¬ Before (created_at b) (created_at a)

abbrev pub IsNewestFirst : List Fields → Type 0
IsNewestFirst [] = Unit
IsNewestFirst (doc ∷ docs) = All (λ other. NotNewer other doc) docs × IsNewestFirst docs

NotNewer-trans : (a b c : Fields) → NotNewer a b → NotNewer b c → NotNewer a c
NotNewer-trans a b c ab bc h = elim (trichotomy (created_at b) (created_at a)) [
  | before p q ↦ ab p
  | same e p ↦ bc (subst (λ t. Before (created_at c) t) (sym e) h)
  | after p q ↦ bc (Before-trans (created_at c) (created_at a) (created_at b) h p)
]

All-older :
    (new old : Fields) (docs : List Fields)
    → NotNewer old new
    → All (λ other. NotNewer other old) docs
    → All (λ other. NotNewer other new) docs
All-older new old [] h all = tt
All-older new old (d ∷ docs) h all =
    (NotNewer-trans d old new all.0 h, All-older new old docs h all.1)

All-insert_newest :
    (P : Fields → Type 0) (doc : Fields) (docs : List Fields)
    → P doc
    → All P docs
    → All P (insert_newest doc docs)
unfolding insert_newest
All-insert_newest P doc [] p all = (p, tt)
All-insert_newest P doc (d ∷ docs) p all = elim (trichotomy (created_at doc) (created_at d)) [
  | before e q ↦ rw (e, All) (all.0, All-insert_newest P doc docs p all.1)
  | same s e ↦ rw (e, All) (p, all)
  | after q e ↦ rw (e, All) (p, all)
]

insert_newest-IsNewestFirst :
    (doc : Fields) (docs : List Fields)
    → IsNewestFirst docs
    → IsNewestFirst (insert_newest doc docs)
unfolding insert_newest
insert_newest-IsNewestFirst doc [] s = (tt, tt)
insert_newest-IsNewestFirst doc (d ∷ docs) s = elim (trichotomy (created_at doc) (created_at d)) [
  | before e q ↦
      rw (e, IsNewestFirst)
        (
          All-insert_newest (λ other. NotNewer other d) doc docs (λ h. cc) s.0,
          insert_newest-IsNewestFirst doc docs s.1,
        )
  | same t e ↦
      let older : NotNewer d doc = (λ h. cc) in
      rw (e, IsNewestFirst) ((older, All-older doc d docs older s.0), s)
  | after q e ↦
      let older : NotNewer d doc = (λ h. cc) in
      rw (e, IsNewestFirst) ((older, All-older doc d docs older s.0), s)
]

sort_newest-IsNewestFirst : (docs : List Fields) → IsNewestFirst (sort_newest docs)
unfolding sort_newest
sort_newest-IsNewestFirst [] = tt
sort_newest-IsNewestFirst (doc ∷ docs) =
    insert_newest-IsNewestFirst doc (sort_newest docs) (sort_newest-IsNewestFirst docs)

Elem-insert_newest :
    (z doc : Fields) (docs : List Fields)
    → (Elem z (insert_newest doc docs) → Elem z (doc ∷ docs))
      × (Elem z (doc ∷ docs) → Elem z (insert_newest doc docs))
unfolding insert_newest
Elem-insert_newest z doc [] = ((λ e. e), (λ e. e))
Elem-insert_newest z doc (d ∷ docs) = elim (trichotomy (created_at doc) (created_at d)) [
  | before e q ↦
      let deeper = Elem-insert_newest z doc docs in
      rw (e, Elem)
        (
          (λ h. elim h [
            | inl here ↦ inr (inl here)
            | inr there ↦ elim (deeper.0 there) [ inl head ↦ inl head | inr late ↦ inr (inr late) ]
          ]),
          (λ h. elim h [
            | inl head ↦ inr (deeper.1 (inl head))
            | inr (inl here) ↦ inl here
            | inr (inr late) ↦ inr (deeper.1 (inr late))
          ]),
        )
  | same t e ↦ rw (e, Elem) ((λ h. h), (λ h. h))
  | after q e ↦ rw (e, Elem) ((λ h. h), (λ h. h))
]

Elem-sort_newest :
    (z : Fields) (docs : List Fields)
    → (Elem z (sort_newest docs) → Elem z docs) × (Elem z docs → Elem z (sort_newest docs))
unfolding sort_newest
Elem-sort_newest z [] = ((λ h. h), (λ h. h))
Elem-sort_newest z (doc ∷ docs) =
    let one = Elem-insert_newest z doc (sort_newest docs) in
    let rest = Elem-sort_newest z docs in
    (
      (λ h. elim (one.0 h) [ inl here ↦ inl here | inr late ↦ inr (rest.0 late) ]),
      (λ h. elim h [ inl here ↦ one.1 (inl here) | inr late ↦ one.1 (inr (rest.1 late)) ]),
    )

All-take : (P : Fields → Type 0) (n : ℕ) (docs : List Fields) → All P docs → All P (take n docs)
All-take P zero docs all = tt
All-take P (suc n) [] all = tt
All-take P (suc n) (d ∷ docs) all = (all.0, All-take P n docs all.1)

take-IsNewestFirst : (n : ℕ) (docs : List Fields) → IsNewestFirst docs → IsNewestFirst (take n docs)
take-IsNewestFirst zero docs s = tt
take-IsNewestFirst (suc n) [] s = tt
take-IsNewestFirst (suc n) (d ∷ docs) s =
    (All-take (λ other. NotNewer other d) n docs s.0, take-IsNewestFirst n docs s.1)

-- A document that the limit cuts off is not newer than any that is listed.
listed_or_older :
    (n : ℕ) (z : Fields) (docs : List Fields)
    → IsNewestFirst docs
    → Elem z docs
    → Elem z (take n docs) ⊎ All (NotNewer z) (take n docs)
listed_or_older zero z docs s e = inr tt
listed_or_older (suc n) z [] s e = elim e [ ]
listed_or_older (suc n) z (d ∷ docs) s (inl here) = inl (inl here)
listed_or_older (suc n) z (d ∷ docs) s (inr late) = elim (listed_or_older n z docs s.1 late) [
  | inl listed ↦ inl (inr listed)
  | inr older ↦ inr (All-Elem (λ other. NotNewer other d) z docs s.0 late, older)
]

-- A listing has at most `limit` documents, all of them stored, newest first; and a stored document that is not
-- listed is not newer than any that is.
pub list_documents_newest :
    (c : Collection) (limit : ℕ) (store : Store)
    → IsNewestFirst (list_documents c limit store)
      × (length (list_documents c limit store) ≤ limit)
      × All (λ doc. Elem doc (values (collection c store))) (list_documents c limit store)
      × All
          (λ doc.
            Elem doc (list_documents c limit store)
            ⊎ All (NotNewer doc) (list_documents c limit store))
          (values (collection c store))
unfolding list_documents
list_documents_newest c limit store =
    let docs = values (collection c store) in
    let newest = sort_newest docs in
    let sorted = sort_newest-IsNewestFirst docs in
    let stored : (doc : Fields) → Elem doc (take limit newest) → Elem doc docs =
      λ doc e. (Elem-sort_newest doc docs).0 (Elem-take limit doc newest e) in
    let kept : (doc : Fields)
        → Elem doc docs
        → Elem doc (take limit newest) ⊎ All (NotNewer doc) (take limit newest) =
      λ doc e. listed_or_older limit doc newest sorted ((Elem-sort_newest doc docs).1 e) in
    (
      take-IsNewestFirst limit newest sorted,
      length-take-le limit newest,
      All-every (λ doc. Elem doc docs) (take limit newest) stored,
      All-every (λ doc. Elem doc (take limit newest) ⊎ All (NotNewer doc) (take limit newest)) docs
          kept,
    )
