-- ===== src/Store/Bundles/Drafts.antt =====
-- domain.go, `UpdateDraftSelections`: optimistic concurrency on the version of a Draft.
use autosecrets.Prelude.{
  ℕ, ◌+◌, ◌≡◌, ◌≢◌, refl, true, false, some, List, [], ◌∷◌, Dict, arith, ◌==◌, if◌then◌else◌, any,
  find, update_if, lookup, Bool-cases, inl, inr,
}
use autosecrets.Store.Tx.{ok, err, conflict, bad_payload, transact}
use autosecrets.Store.Rows.{Draft, Db}
use autosecrets.Store.Queries.Bundles.{draft_in}
use autosecrets.Store.Bundles.{update_draft_selections}
use autosecrets.Store.Bundles.Selections.{
  selected_version, all_exist, upsert_all, check_selections_lem, write_selections_lem,
  HasDistinctKeys, or_else, selected_version-upsert_all, selected_version-upsert_all_other,
}

-- `drafts.id` is the primary key.
abbrev pub HasDistinctIds : List Draft → Type 0
HasDistinctIds [] = Unit {0}
HasDistinctIds (d ∷ ds) = (any (λ e. e.id == d.id) ds ≡ false) × HasDistinctIds ds

abbrev pub bumped : ℕ → List Draft → List Draft
bumped id = update_if (λ d. d.id == id) (λ d. record d { version = d.version + 1 })

find_absent :
    (app env id : ℕ) (ds : List Draft) (d : Draft)
    → any (λ e. e.id == id) ds ≡ false
    → find (draft_in app env) ds ≡ some d
    → (d.id == id) ≡ false
find_absent app env id [] d h e = cc
find_absent app env id (x ∷ ds) d h e = ground (arith, find_absent app env id ds d)

pub find_by_id :
    (app env : ℕ) (ds : List Draft) (d : Draft)
    → HasDistinctIds ds
    → find (draft_in app env) ds ≡ some d
    → find (λ e. e.id == d.id) ds ≡ some d
find_by_id app env [] d h e = cc
find_by_id app env (x ∷ ds) d h e =
    ground (arith, find_by_id app env ds d h.1, find_absent app env x.id ds d h.0)

pub find-bumped :
    (app env : ℕ) (ds : List Draft) (d : Draft)
    → find (draft_in app env) ds ≡ some d
    → find (draft_in app env) (bumped d.id ds) ≡ some (record d { version = d.version + 1 })
find-bumped app env [] d e = cc
find-bumped app env (x ∷ ds) d e = ground (arith, find-bumped app env ds d)

any-bumped :
    (id k : ℕ) (ds : List Draft) → any (λ e. e.id == k) (bumped id ds) ≡ any (λ e. e.id == k) ds
any-bumped id k [] = refl
any-bumped id k (x ∷ ds) = ground (arith, any-bumped id k ds)

bumped-HasDistinctIds :
    (id : ℕ) (ds : List Draft) → HasDistinctIds ds → HasDistinctIds (bumped id ds)
bumped-HasDistinctIds id [] h = tt
bumped-HasDistinctIds id (x ∷ ds) h =
    ground (arith, any-bumped id x.id ds, bumped-HasDistinctIds id ds h.1)

-- The database after an accepted update of the Draft `id`.
abbrev pub updated : ℕ → Dict ℕ → Db → Db
updated id selections db = record db {
  drafts = bumped id db.drafts;
  draft_selections = upsert_all id selections db.draft_selections;
}

module _ (app env expected : ℕ) (selections : Dict ℕ) (db : Db) where
  -- Every branch for an environment that has a Draft: a stale version is a conflict, a selection of
  -- no version of a Secret of that environment is a bad payload, both of which change nothing, and
  -- otherwise all selections are written and the version goes up by one.
  pub update_draft_selections_lem :
      (d : Draft)
      → HasDistinctIds db.drafts
      → find (draft_in app env) db.drafts ≡ some d
      → transact (update_draft_selections app env expected selections) db ≡ (
          if d.version == expected
          then if all_exist db d.id selections
            then (ok (expected + 1), updated d.id selections db)
            else (err bad_payload, db)
          else (err conflict, db))
  unfolding update_draft_selections
  update_draft_selections_lem d distinct found = elim (Bool-cases (d.version == expected)) [
    | inl current ↦ elim (Bool-cases (all_exist db d.id selections)) [
      | inl valid ↦ ground (
        arith,
        find_by_id app env db.drafts d distinct found,
        check_selections_lem d.id selections db,
        write_selections_lem d.id selections db,
      )
      | inr invalid ↦ ground (
        arith,
        find_by_id app env db.drafts d distinct found,
        check_selections_lem d.id selections db,
      )
    ]
    | inr stale ↦ ground (arith, find_by_id app env db.drafts d distinct found)
  ]

  -- An accepted update: the Draft had the expected version, every selection named an existing
  -- version, and the new version is the expected one plus 1.
  accepted :
      (d : Draft) {n : ℕ} {db' : Db}
      → HasDistinctIds db.drafts
      → find (draft_in app env) db.drafts ≡ some d
      → transact (update_draft_selections app env expected selections) db ≡ (ok n, db')
      → (d.version ≡ expected)
        × (all_exist db d.id selections ≡ true)
        × (n ≡ expected + 1)
        × (db' ≡ updated d.id selections db)
  accepted d distinct found done = ground (arith, update_draft_selections_lem d distinct found)

  -- After an accepted update the Draft of the environment has the returned version, one above the
  -- expected one. It selects what the request says, for a Secret that the request does not name what
  -- it selected before, and every other Draft keeps its selections.
  pub update_draft_selections-selects :
      (d : Draft) (n : ℕ) (db' : Db)
      → HasDistinctIds db.drafts
      → HasDistinctKeys selections
      → find (draft_in app env) db.drafts ≡ some d
      → transact (update_draft_selections app env expected selections) db ≡ (ok n, db')
      → (n ≡ expected + 1)
        × (find (draft_in app env) db'.drafts ≡ some (record d { version = n }))
        × ((s : ℕ)
            → selected_version d.id s db'.draft_selections
              ≡ or_else (lookup s selections) (selected_version d.id s db.draft_selections))
        × ((other s : ℕ)
            → other ≢ d.id
            → selected_version other s db'.draft_selections
              ≡ selected_version other s db.draft_selections)
  update_draft_selections-selects d n db' distinct keys found done =
      let (current, valid, bump, e) = accepted d distinct found done in
      (
        bump,
        ground (arith, find-bumped app env db.drafts d found),
        λ s. rw e (selected_version-upsert_all d.id s selections db.draft_selections keys),
        λ other s ne.
            rw e (selected_version-upsert_all_other other d.id s selections db.draft_selections ne),
      )

-- No lost update: of two updates that were prepared against the same version of a Draft, the one that
-- comes second is refused as a conflict and changes nothing, whatever either of them selects.
pub second_update_conflicts :
    (app env expected : ℕ) (first second : Dict ℕ) (db : Db) (d : Draft) (n : ℕ) (db' : Db)
    → HasDistinctIds db.drafts
    → find (draft_in app env) db.drafts ≡ some d
    → transact (update_draft_selections app env expected first) db ≡ (ok n, db')
    → transact (update_draft_selections app env expected second) db' ≡ (err conflict, db')
second_update_conflicts app env expected first second db d n db' distinct found done =
    let (current, valid, bump, e) = accepted app env expected first db d distinct found done in
    rw e (
      ground (
        arith,
        update_draft_selections_lem app env expected second (updated d.id first db)
            (record d { version = d.version + 1 }) (bumped-HasDistinctIds d.id db.drafts distinct)
            (find-bumped app env db.drafts d found),
      ))
