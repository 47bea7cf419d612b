-- ===== src/Store/Bundles/Selections.antt =====
-- domain.go: what the two loops of `UpdateDraftSelections` do to the selections of a Draft.
use autosecrets.Prelude.{
  ℕ, ◌≡◌, ◌≢◌, refl, Bool, true, false, ◌&&◌, Option, none, some, List, [], ◌∷◌, ◌++◌, Dict, arith,
  ◌==◌, if◌then◌else◌, any, update_if, lookup, Bool-cases, inl, inr,
}
use autosecrets.Store.Tx.{ok, err, bad_payload}
use autosecrets.Store.Rows.{DraftSelection, Db}
use autosecrets.Store.Queries.Bundles.{selects, upsert_selection, selection_exists}
use autosecrets.Store.Bundles.{check_selections, write_selections}

-- The version that a Draft selects for a Secret.
abbrev pub selected_version : ℕ → ℕ → List DraftSelection → Option ℕ
selected_version draft_id secret_id [] = none
selected_version draft_id secret_id (s ∷ ss) =
    if selects draft_id secret_id s
    then some s.version_seq
    else selected_version draft_id secret_id ss

abbrev pub all_exist : Db → ℕ → Dict ℕ → Bool
all_exist db draft_id [] = true
all_exist db draft_id ((secret_id, seq) ∷ selections) =
    selection_exists db draft_id secret_id seq && all_exist db draft_id selections

abbrev pub upsert_all : ℕ → Dict ℕ → List DraftSelection → List DraftSelection
upsert_all draft_id [] rows = rows
upsert_all draft_id ((secret_id, seq) ∷ selections) rows =
    upsert_all draft_id selections (upsert_selection draft_id secret_id seq rows)

pub check_selections_lem :
    (draft_id : ℕ) (selections : Dict ℕ) (db : Db)
    → check_selections draft_id selections db
      ≡ (if all_exist db draft_id selections then ok (tt, db) else err bad_payload)
unfolding check_selections
check_selections_lem draft_id [] db = refl
check_selections_lem draft_id ((secret_id, seq) ∷ selections) db =
    elim (Bool-cases (selection_exists db draft_id secret_id seq)) [
      | inl found ↦ rw (found) (check_selections_lem draft_id selections db)
      | inr missing ↦ rw (missing)
    ]

pub write_selections_lem :
    (draft_id : ℕ) (selections : Dict ℕ) (db : Db)
    → write_selections draft_id selections db
      ≡ ok (tt, record db { draft_selections = upsert_all draft_id selections db.draft_selections })
unfolding write_selections
write_selections_lem draft_id [] db = refl
write_selections_lem draft_id ((secret_id, seq) ∷ selections) db =
    write_selections_lem draft_id selections
      (record db { draft_selections = upsert_selection draft_id secret_id seq db.draft_selections })

selected_version-update :
    (d s d' s' seq : ℕ) (rows : List DraftSelection)
    → any (selects d' s') rows ≡ true
    → selected_version d s (update_if (selects d' s') (λ r. record r { version_seq = seq }) rows)
      ≡ (if d == d' && s == s' then some seq else selected_version d s rows)
selected_version-update d s d' s' seq [] h = cc
selected_version-update d s d' s' seq (r ∷ rows) h = elim (Bool-cases (any (selects d' s') rows)) [
  | inl there ↦ ground (arith, selected_version-update d s d' s' seq rows there)
  | inr gone ↦ ground (arith, selected_version-other d s d' s' seq rows gone)
]
  where
    selected_version-other :
        (d s d' s' seq : ℕ) (rows : List DraftSelection)
        → any (selects d' s') rows ≡ false
        → selected_version d s
            (update_if (selects d' s') (λ r. record r { version_seq = seq }) rows)
          ≡ selected_version d s rows
    selected_version-other d s d' s' seq [] h = refl
    selected_version-other d s d' s' seq (r ∷ rows) h =
        ground (arith, selected_version-other d s d' s' seq rows)

selected_version-append :
    (d s d' s' seq : ℕ) (rows : List DraftSelection)
    → any (selects d' s') rows ≡ false
    → selected_version d s
        (rows ++ record { draft_id = d'; secret_id = s'; version_seq = seq } ∷ [])
      ≡ (if d == d' && s == s' then some seq else selected_version d s rows)
selected_version-append d s d' s' seq [] h = ground arith
selected_version-append d s d' s' seq (r ∷ rows) h =
    ground (arith, selected_version-append d s d' s' seq rows)

pub selected_version-upsert :
    (d s d' s' seq : ℕ) (rows : List DraftSelection)
    → selected_version d s (upsert_selection d' s' seq rows)
      ≡ (if d == d' && s == s' then some seq else selected_version d s rows)
selected_version-upsert d s d' s' seq rows = elim (Bool-cases (any (selects d' s') rows)) [
  | inl there ↦ rw there (selected_version-update d s d' s' seq rows there)
  | inr gone ↦ rw gone (selected_version-append d s d' s' seq rows gone)
]

-- The keys of a Go map differ.
abbrev pub HasDistinctKeys : Dict ℕ → Type 0
HasDistinctKeys [] = Unit {0}
HasDistinctKeys ((k, _) ∷ m) = (lookup k m ≡ none) × HasDistinctKeys m

abbrev pub or_else : Option ℕ → Option ℕ → Option ℕ
or_else (some a) _ = some a
or_else none o = o

pub selected_version-upsert_all :
    (d s : ℕ) (selections : Dict ℕ) (rows : List DraftSelection)
    → HasDistinctKeys selections
    → selected_version d s (upsert_all d selections rows)
      ≡ or_else (lookup s selections) (selected_version d s rows)
selected_version-upsert_all d s [] rows h = refl
selected_version-upsert_all d s ((k, seq) ∷ m) rows h = ground (
  arith,
  selected_version-upsert_all d s m (upsert_selection d k seq rows) h.1,
  selected_version-upsert d s d k seq rows,
)

pub selected_version-upsert_all_other :
    (d d' s : ℕ) (selections : Dict ℕ) (rows : List DraftSelection)
    → d ≢ d'
    → selected_version d s (upsert_all d' selections rows) ≡ selected_version d s rows
selected_version-upsert_all_other d d' s [] rows h = refl
selected_version-upsert_all_other d d' s ((k, seq) ∷ m) rows h = ground (
  arith,
  selected_version-upsert_all_other d d' s m (upsert_selection d' k seq rows) h,
  selected_version-upsert d s d' k seq rows,
)
