-- ===== src/Workflow/Postgres/Versions.antt =====
-- store/postgres/workflow.go: the versions of artifacts.
use spec_powers.Prelude.{
  ℕ, suc, ◌≤◌, ◌<◌, ◌≡◌, refl, Bool, true, ◌&&◌, none, some, List, [], ◌∷◌, ◌++◌, String, find, ltb,
  if◌then◌else◌, eq_refl, arith,
}
use spec_powers.Domain.{Artifact}
use spec_powers.Api.{found}
use spec_powers.Workflow.Postgres.{
  Db, of_kind, of_version, max_version, create_artifact, get_artifact,
}

module _ {A : Type 0} (p : A → Bool) where
  find-append :
      (xs : List A) (y : A)
      → find p (xs ++ y ∷ [])
        ≡ (elim (find p xs) [ some x ↦ some x | none ↦ if p y then some y else none ])
  find-append [] y = refl
  find-append (x ∷ xs) y = ground (arith, find-append xs y)

module _ (change kind : String) where
  max_version-append :
      (rows : List Artifact) (a : Artifact)
      → max_version change kind (rows ++ a ∷ []) ≡ (
          if of_kind change kind a && ltb (max_version change kind rows) a.version
          then a.version
          else max_version change kind rows)
  unfolding max_version
  max_version-append [] a = ground arith
  max_version-append (x ∷ rows) a = ground (arith, max_version-append rows a)

  -- No row has a version above the largest.
  find_above :
      (rows : List Artifact) (v : ℕ)
      → max_version change kind rows < v
      → find (of_version change kind v) rows ≡ none
  unfolding max_version
  find_above [] v h = refl
  find_above (x ∷ rows) v h = ground (arith, find_above rows v)

module _ (new_id : ℕ → String) (a : Artifact) (d : Db) {row : Artifact} {d' : Db}
    (written : create_artifact new_id a d ≡ (found row, d')) where
  row-version :
      (row.version ≡ suc (max_version a.change_id a.kind d.artifacts))
      × (row.change_id ≡ a.change_id)
      × (row.kind ≡ a.kind)
      × (row.content ≡ a.content)
      × (d'.artifacts ≡ d.artifacts ++ row ∷ [])
  unfolding create_artifact
  row-version = ground arith

  row-of_kind : of_kind a.change_id a.kind row ≡ true
  row-of_kind =
      let (version, same_change, same_kind, content, rows) = row-version in
      rw (same_change, same_kind) (ground (arith, eq_refl a.change_id, eq_refl a.kind))

  -- The artifact that was just written is the latest of its change and kind; its version is one more
  -- than the largest before it, and it has the content that was given.
  pub get-create_artifact :
      (get_artifact a.change_id a.kind 0 d' ≡ found row)
      × (row.version ≡ suc (max_version a.change_id a.kind d.artifacts))
      × (row.content ≡ a.content)
  unfolding get_artifact
  get-create_artifact =
      let (version, same_change, same_kind, content, rows) = row-version in
      (
        rw rows (
            ground (
              arith,
              row-of_kind,
              version,
              max_version-append a.change_id a.kind d.artifacts row,
              find_above a.change_id a.kind d.artifacts row.version,
              find-append (of_version a.change_id a.kind row.version) d.artifacts row,
            )),
        version,
        content,
      )

  -- The older versions of the kind are still there, unchanged.
  pub get_older-create_artifact :
      (v : ℕ)
      → suc v ≤ max_version a.change_id a.kind d.artifacts
      → get_artifact a.change_id a.kind (suc v) d' ≡ get_artifact a.change_id a.kind (suc v) d
  unfolding get_artifact
  get_older-create_artifact v h =
      let (version, same_change, same_kind, content, rows) = row-version in
      rw rows (
        ground
          (arith, version, find-append (of_version a.change_id a.kind (suc v)) d.artifacts row))
