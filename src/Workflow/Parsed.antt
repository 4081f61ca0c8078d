-- ===== src/Workflow/Parsed.antt =====
-- workflow/parser.go: what a list of tasks is once it parses.
use Prim.Native.Char.{code}
use spec_powers.Prelude.{
  ℕ, suc, String, ◌≡◌, refl, ap, subst, ◌⊎◌, ◌∙◌, true, false, ◌&&◌, some, List, [], ◌∷◌, All,
  str_eq, eq_iff, is_space, all_space, is_blank, if◌then◌else◌, arith, Bool-cases, inl, inr, length,
  Option-cases,
}
use spec_powers.Prelude.Int.{ℤ, pos, negsuc, ltb_ℤ, eq_ℤ}
use spec_powers.Workflow.Tasks.{
  TaskSpec, RawTask, Unmarshalled, bad_json, block, Json, trim_left, trim_right, trim,
  extract_json_fence, Tasks, tasks, bad_tasks, and_then, spec_of, specs_from, specs_in, parse_tasks,
}

trim_left-blank : (s : String) → is_blank (trim_left s) ≡ is_blank s
unfolding trim_left is_blank all_space
trim_left-blank String.[] = refl
trim_left-blank (String.◌∷◌ c s) = ground (arith, trim_left-blank s)

trim_right-blank : (s : String) → is_blank (trim_right s) ≡ is_blank s
unfolding trim_right is_blank all_space
trim_right-blank String.[] = refl
trim_right-blank (String.◌∷◌ c s) =
    elim (Bool-cases (str_eq (trim_right s) "" && is_space (code c))) [
      | inl e ↦
          let empty : trim_right s ≡ "" = (eq_iff (trim_right s) "").0 (ground arith) in
          rw e (ground (arith, trim_right-blank s, ap is_blank empty))
      | inr e ↦ rw e (ground (arith, trim_right-blank s))
    ]

trim-blank : (s : String) → is_blank (trim s) ≡ is_blank s
unfolding trim
trim-blank s = trim_right-blank (trim_left s) ∙ trim_left-blank s

-- A title with text in it, and a stage from 1 on.
abbrev pub IsTask : TaskSpec → Type 0
IsTask t = (is_blank t.title ≡ false) × (ltb_ℤ (pos 0) t.stage ≡ true)

stage-positive :
    (n : ℤ) → ltb_ℤ n (pos 0) ≡ false → ltb_ℤ (pos 0) (if eq_ℤ n (pos 0) then pos 1 else n) ≡ true
stage-positive (pos n) h = ground arith
stage-positive (negsuc n) h = absurd (ground arith)

-- One more task before the others.
added :
    (l : Tasks) (t : TaskSpec) (n : ℕ)
    → ((us : List TaskSpec) → l ≡ tasks us → All IsTask us × (length us ≡ n))
    → IsTask t
    → (ts : List TaskSpec) → and_then t l ≡ tasks ts
    → All IsTask ts × (length ts ≡ suc n)
added (bad_tasks e) t n ih ht ts h = absurd (ground arith)
added (tasks us) t n ih ht ts h =
    let at : t ∷ us ≡ ts = cc in
    let (hs, same) = ih us refl in
    subst (λ l. All IsTask l × (length l ≡ suc n)) at ((ht, hs), ap suc same)

block-cases :
    (u : Unmarshalled)
    → ((e : String) × (u ≡ bad_json e))
      ⊎ ((u ≡ block []) ⊎ ((r : RawTask) × (rest : List RawTask) × (u ≡ block (r ∷ rest))))
block-cases (bad_json e) = inl (e, refl)
block-cases (block []) = inr (inl refl)
block-cases (block (r ∷ rest)) = inr (inr (r, rest, refl))

module _ (j : Json) where
  specs_from-IsTask :
      (rest : List RawTask) (i : ℕ) (ts : List TaskSpec)
      → specs_from j i rest ≡ tasks ts
      → All IsTask ts × (length ts ≡ length rest)
  unfolding specs_from
  specs_from-IsTask [] i ts h =
      let none_left : [] ≡ ts = cc in
      subst (λ l. All IsTask l × (length l ≡ 0)) none_left (tt, refl)
  specs_from-IsTask (r ∷ rest) i ts h = elim (Bool-cases (is_blank r.title)) [
    | inl e ↦ absurd (ground arith)
    | inr e ↦ elim (Bool-cases (ltb_ℤ r.stage (pos 0))) [
      | inl f ↦ absurd (ground arith)
      | inr f ↦
          added (specs_from j (suc i) rest) (spec_of r) (length rest)
            (specs_from-IsTask rest (suc i)) (rw (trim-blank r.title) e, stage-positive r.stage f)
            ts (ground arith)
    ]
  ]

  -- A tasks artifact that parses has at least one task; every task has a title with text in it and a
  -- stage from 1 on; and there are as many as the JSON of the artifact's first json block has
  -- entries.
  pub parse_tasks-IsTask :
      (content : String) (ts : List TaskSpec)
      → parse_tasks j content ≡ tasks ts
      → All IsTask ts
        × ((text : String) × (r : RawTask) × (rest : List RawTask) × (extract_json_fence content
              ≡ some text)
            × (j.unmarshal text ≡ block (r ∷ rest))
            × (length ts ≡ suc (length rest)))
  unfolding parse_tasks specs_in
  parse_tasks-IsTask content ts h = elim (Option-cases (extract_json_fence content)) [
    | inl e ↦ absurd (ground arith)
    | inr (text, e) ↦ elim (block-cases (j.unmarshal text)) [
      | inl (message, b) ↦ absurd (ground arith)
      | inr (inl b) ↦ absurd (ground arith)
      | inr (inr (r, rest, b)) ↦
          let parsed : specs_from j 0 (r ∷ rest) ≡ tasks ts = rw (e, parse_tasks, b) at h in
          let (all, same) = specs_from-IsTask (r ∷ rest) 0 ts parsed in
          (all, (text, r, rest, e, b, same))
    ]
  ]
