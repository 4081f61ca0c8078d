-- ===== src/Property/Stored.antt =====
-- property/service.go on the tables: the stored values are values of their definitions.
use mathlib.Core.Option.{some-injective}
use spec_powers.Prelude.{
  ℕ, String, ◌≡◌, refl, sym, subst, ◌∙◌, Bool, not, some, List, [], ◌∷◌, ◌++◌, map, any, find,
  select, All, str_eq, Bool-cases, Option-cases, inl, inr, ◌⊎◌,
}
use spec_powers.Api.{
  Result, AppError, ok, err, err_not_found, err_forbidden, err_internal, checked, reads, lift, pure,
  >>=-reads, >>=-after, >>=-keeps,
}
use spec_powers.Issue.Access.{role_suffices}
use spec_powers.Property.Values.{PropertyDefinition, IssuePropertyValue, Readers, validate_value}
use spec_powers.Property.Service.{
  require_project_role, require_project_issue, set_or_clear, set_issue_value, cleared,
}
use spec_powers.Property.Postgres.{
  PropertyDb, Others, get_property, put, same_key, set_issue_property, delete_issue_property,
  pg_properties,
}

module _ (r : Readers) where
  -- The value is one that its definition admits, if there is a definition of its id.
  abbrev pub IsAdmitted : List PropertyDefinition → IssuePropertyValue → Type 0
  IsAdmitted defs v =
      (p : PropertyDefinition)
      → find (λ (x : PropertyDefinition). str_eq x.id v.property_id) defs ≡ some p
      → validate_value r p.type v.value p.options ≡ ok tt

  abbrev pub Admitted : PropertyDb → Type 0
  Admitted d = All (IsAdmitted d.definitions) d.values

  put-All :
      (defs : List PropertyDefinition) (v : IssuePropertyValue) (rows : List IssuePropertyValue)
      → IsAdmitted defs v
      → All (IsAdmitted defs) rows
      → All (IsAdmitted defs) (map (put v) rows)
  put-All defs v [] h hs = tt
  put-All defs v (x ∷ rows) h (g, gs) = elim (Bool-cases (same_key v.issue_id v.property_id x)) [
    | inl e ↦ rw e (h, put-All defs v rows h gs)
    | inr e ↦ rw e (g, put-All defs v rows h gs)
  ]

  append-All :
      (defs : List PropertyDefinition) (v : IssuePropertyValue) (rows : List IssuePropertyValue)
      → IsAdmitted defs v
      → All (IsAdmitted defs) rows
      → All (IsAdmitted defs) (rows ++ v ∷ [])
  append-All defs v [] h hs = (h, tt)
  append-All defs v (x ∷ rows) h (g, gs) = (g, append-All defs v rows h gs)

  select-All :
      (defs : List PropertyDefinition) (p : IssuePropertyValue → Bool)
      (rows : List IssuePropertyValue)
      → All (IsAdmitted defs) rows
      → All (IsAdmitted defs) (select p rows)
  select-All defs p [] hs = tt
  select-All defs p (x ∷ rows) (g, gs) = elim (Bool-cases (p x)) [
    | inl e ↦ rw e (g, select-All defs p rows gs)
    | inr e ↦ rw e (select-All defs p rows gs)
  ]

  written-Admitted :
      (v : IssuePropertyValue) (d : PropertyDb)
      → IsAdmitted d.definitions v
      → Admitted d
      → Admitted (set_issue_property v d).1
  unfolding set_issue_property
  written-Admitted v d h hs = elim (Bool-cases (any (same_key v.issue_id v.property_id) d.values)) [
    | inl e ↦ rw e (put-All d.definitions v d.values h hs)
    | inr e ↦ rw e (append-All d.definitions v d.values h hs)
  ]

  deleted-Admitted :
      (issue property : String) (d : PropertyDb)
      → Admitted d
      → Admitted (delete_issue_property issue property d).1
  unfolding delete_issue_property
  deleted-Admitted issue property d hs =
      elim (Bool-cases (any (same_key issue property) d.values)) [
        | inl e ↦ rw e (select-All d.definitions (λ v. not (same_key issue property v)) d.values hs)
        | inr e ↦ rw e hs
      ]

Result-cases : (r : Result (Unit {0})) → (r ≡ ok tt) ⊎ ((e : AppError) × (r ≡ err e))
Result-cases (ok u) = inl refl
Result-cases (err e) = inr (e, refl)

module _ (new_id : ℕ → String) (ordered : List IssuePropertyValue → List IssuePropertyValue)
    (o : Others) where
  set_or_clear-Admitted :
      (issue property value : String) (p : PropertyDefinition) (d : PropertyDb)
      → find (λ (x : PropertyDefinition). str_eq x.id property) d.definitions ≡ some p
      → Admitted o.readers d
      → Admitted o.readers
          (set_or_clear (pg_properties new_id ordered o) issue property value p d).1
  unfolding set_or_clear
  set_or_clear-Admitted issue property value p d at hs = elim (Bool-cases (str_eq value "")) [
    | inl e ↦ rw e (
        >>=-after (Admitted o.readers)
          (λ s. let (r, s') = delete_issue_property issue property s in (cleared r, s'))
          (λ _. pure (record { issue_id = issue; property_id = property; value = "" })) d
          (λ _ x. refl) (deleted-Admitted o.readers issue property d hs))
    | inr e ↦ elim (Result-cases (validate_value o.readers p.type value p.options)) [
      | inr (x, f) ↦ rw (e, f) hs
      | inl f ↦
          rw (e, f)
            (written-Admitted o.readers
              (record { issue_id = issue; property_id = property; value = value }) d
              (λ q found.
                let same : p ≡ q = some-injective p q (sym at ∙ found) in
                subst
                  (λ (x : PropertyDefinition).
                    validate_value o.readers x.type value x.options ≡ ok tt)
                  same f)
              hs)
    ]
  ]

  role-reads :
      (user project min : String) (d : PropertyDb)
      → (require_project_role (pg_properties new_id ordered o) user project min d).1 ≡ d
  unfolding require_project_role
  role-reads user project min d =
      >>=-keeps (λ (x : PropertyDb). x)
        (reads (λ s.
          checked (o.project project s) (err_not_found "project not found")
            (err_internal "get project failed")))
        _ (λ x. refl)
        (λ p x.
          >>=-keeps (λ (y : PropertyDb). y)
            (reads (λ s.
              checked (o.member project user s) (err_forbidden "not a project member")
                (err_internal "get project member failed")))
            (λ pm. lift (role_suffices min pm)) (λ y. refl) (λ pm y. refl) x)
        d

  issue-reads :
      (user issue : String) (d : PropertyDb)
      → (require_project_issue (pg_properties new_id ordered o) user issue d).1 ≡ d
  unfolding require_project_issue
  issue-reads user issue d =
      >>=-keeps (λ (x : PropertyDb). x)
        (reads (λ s.
          checked (o.issue issue s) (err_not_found "issue not found")
            (err_internal "get issue failed")))
        _ (λ x. refl)
        (λ i x.
          >>=-keeps (λ (y : PropertyDb). y)
            (require_project_role (pg_properties new_id ordered o) user i.project_id "member")
            (λ _. pure i) (role-reads user i.project_id "member") (λ _ y. refl) x)
        d

  -- SetIssueValue stores no value that its definition does not admit: if every stored value is one that
  -- the definition with its id admits, this is so afterwards, whether or not the call succeeds.
  pub set_issue_value-Admitted :
      (user issue property value : String) (d : PropertyDb)
      → Admitted o.readers d
      → Admitted o.readers
          (set_issue_value (pg_properties new_id ordered o) user issue property value d).1
  unfolding set_issue_value get_property
  set_issue_value-Admitted user issue property value d hs =
      >>=-reads (Admitted o.readers)
        (require_project_issue (pg_properties new_id ordered o) user issue) _ d
        (issue-reads user issue d) hs
        (λ i _.
          elim (Option-cases
            (find (λ (x : PropertyDefinition). str_eq x.id property) d.definitions)) [
              | inl e ↦ rw e hs
              | inr (p, e) ↦ elim (Bool-cases (str_eq p.project_id i.project_id)) [
                | inr f ↦ rw (e, f) hs
                | inl f ↦ rw (e, f) (set_or_clear-Admitted issue property value p d e hs)
              ]
            ])
