-- ===== src/Property/Checked.antt =====
-- property/service.go: which definitions are accepted, and what a taken name is answered with.
use spec_powers.Prelude.{
  ℕ, String, ◌≡◌, refl, sym, ◌∙◌, true, false, not, ◌&&◌, List, [], ◌∷◌, any, All, str_eq,
  str_eq_comm, is_blank, arith, Bool-cases, inl, inr, ◌⊎◌, subst, all, ◌==◌, codes,
}
use spec_powers.Api.{Result, AppError, ok, err, err_internal, >>=-ok}
use spec_powers.Workflow.Tasks.{trim}
use spec_powers.Property.Values.{
  DefinitionInput, IssuePropertyValue, is_among, check_options, none_given, has_options,
  valid_types, validate_definition,
}
use spec_powers.Property.Service.{create_definition, create_in, require_project_role}
use spec_powers.Property.Postgres.{
  PropertyDb, Others, create_property, list_properties, pg_properties,
}

abbrev pub Distinct : List String → Type 0
Distinct [] = Unit
Distinct (o ∷ options) = (is_among o options ≡ false) × Distinct options

not-among :
    (o : String) (options seen : List String)
    → All (λ x. is_among x (o ∷ seen) ≡ false) options
    → is_among o options ≡ false
not-among o [] seen hs = refl
not-among o (x ∷ options) seen (h, hs) =
    ground (arith, h, str_eq_comm x o, not-among o options seen hs)

fewer :
    (o : String) (options seen : List String)
    → All (λ x. is_among x (o ∷ seen) ≡ false) options
    → All (λ x. is_among x seen ≡ false) options
fewer o [] seen hs = tt
fewer o (x ∷ options) seen (h, hs) = (ground (arith, h), fewer o options seen hs)

check_options-Distinct :
    (seen options : List String)
    → check_options seen options ≡ ok tt
    → All (λ o. is_blank o ≡ false) options
      × All (λ o. is_among o seen ≡ false) options
      × Distinct options
unfolding check_options
check_options-Distinct seen [] h = (tt, tt, tt)
check_options-Distinct seen (o ∷ options) h = elim (Bool-cases (is_blank o)) [
  | inl e ↦ absurd (ground (arith, rw e at h))
  | inr e ↦ elim (Bool-cases (is_among o seen)) [
    | inl f ↦ absurd (ground (arith, rw (e, f) at h))
    | inr f ↦
        let (blank, apart, rest) = check_options-Distinct (o ∷ seen) options (rw (e, f) at h) in
        ((e, blank), (f, fewer o options seen apart), (not-among o options seen apart, rest))
  ]
]

-- Options are given exactly for the select types: distinct ones, and none of them blank.
abbrev pub IsProper : DefinitionInput → Type 0
IsProper u =
    (str_eq u.name "" ≡ false)
    × (valid_types u.type ≡ true)
    × (has_options u.type ≡ not (none_given u.options))
    × All (λ o. is_blank o ≡ false) u.options
    × Distinct u.options

Result-cases : (r : Result (Unit {0})) → (r ≡ ok tt) ⊎ ((e : AppError) × (r ≡ err e))
Result-cases (ok u) = inl refl
Result-cases (err e) = inr (e, refl)

-- A definition that is accepted has a name, which is the given one without the white space around it,
-- one of the six types, and options exactly if the type is one of the two select types; the options
-- are distinct, and none is blank. Type and options are the given ones.
pub validate_definition-IsProper :
    (u out : DefinitionInput)
    → validate_definition u ≡ ok out
    → (out ≡ record u { name = trim u.name }) × IsProper out
unfolding validate_definition
validate_definition-IsProper u out h = elim (Bool-cases (str_eq (trim u.name) "")) [
  | inl e ↦ absurd (ground (arith, rw e at h))
  | inr e ↦ elim (Bool-cases (valid_types u.type)) [
    | inr f ↦ absurd (ground (arith, rw (e, f) at h))
    | inl f ↦ elim (Bool-cases (has_options u.type)) [
      | inl g ↦ elim (Result-cases (check_options [] u.options)) [
        | inr (x, k) ↦ absurd (ground (arith, rw (e, f, g, k) at h))
        | inl k ↦ elim (Bool-cases (none_given u.options)) [
          | inl l ↦ absurd (ground (arith, rw (e, f, g, k, l) at h))
          | inr l ↦
              let same : record u { name = trim u.name } ≡ out = cc (rw (e, f, g, k, l) at h) in
              let (blank, _, apart) = check_options-Distinct [] u.options k in
              (sym same, subst IsProper same (e, f, rw (g, l) refl, blank, apart))
        ]
      ]
      | inr g ↦ elim (Bool-cases (none_given u.options)) [
        | inr l ↦ absurd (ground (arith, rw (e, f, g, l) at h))
        | inl l ↦
            let same : record u { name = trim u.name } ≡ out = cc (rw (e, f, g, l) at h) in
            (
              sym same,
              (let (blank, apart) = no_options u.options l in
                  subst IsProper same (e, f, rw (g, l) refl, blank, apart)),
            )
      ]
    ]
  ]
]
  where
    no_options :
        (l : List String) → none_given l ≡ true → All (λ o. is_blank o ≡ false) l × Distinct l
    no_options [] e = (tt, tt)
    no_options (o ∷ l) e = absurd (ground (arith, e))

module _ (new_id : ℕ → String) (ordered : List IssuePropertyValue → List IssuePropertyValue)
    (o : Others) where
  create_in-taken :
      (project : String) (u input : DefinitionInput) (d : PropertyDb)
      → validate_definition u ≡ ok input
      → any (λ x. str_eq x.project_id project && str_eq x.name input.name) d.definitions ≡ true
      → create_in (pg_properties new_id ordered o) project u d
        ≡ (err (err_internal "create property definition failed"), d)
  unfolding create_in create_property list_properties
  create_in-taken project u input d valid taken =
      elim (Bool-cases (not (all (λ c. c == 32) (codes input.name)) && valid_types input.type)) [
        | inl e ↦ rw (valid, taken, e) refl
        | inr e ↦ rw (valid, taken, e) refl
      ]

  -- A name that is taken is never answered with a conflict: an owner who creates a definition that is
  -- accepted, with a name that the project has, gets an internal error, and nothing is written.
  pub create_definition-taken :
      (user project : String) (u input : DefinitionInput) (d : PropertyDb)
      → require_project_role (pg_properties new_id ordered o) user project "owner" d ≡ (ok tt, d)
      → validate_definition u ≡ ok input
      → any (λ x. str_eq x.project_id project && str_eq x.name input.name) d.definitions ≡ true
      → create_definition (pg_properties new_id ordered o) user project u d
        ≡ (err (err_internal "create property definition failed"), d)
  unfolding create_definition
  create_definition-taken user project u input d role valid taken =
      >>=-ok (require_project_role (pg_properties new_id ordered o) user project "owner")
        (λ _. create_in (pg_properties new_id ordered o) project u) d d tt role
      ∙ create_in-taken project u input d valid taken
