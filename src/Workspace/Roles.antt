-- ===== src/Workspace/Roles.antt =====
-- Rows of members, and what a change of one role does to the owners among them.
use spec_powers.Prelude.{
  ℕ, suc, ◌≤◌, ◌<◌, String, ◌≡◌, refl, sym, ap, subst, ◌∙◌, Bool, true, false, some, List, [], ◌∷◌,
  map, any, select, All, All-imp, length, leb, ◌==◌, str_eq, eq_iff, arith, Bool-cases,
  Option-cases, inl, inr, ◌⊎◌,
}
use spec_powers.Workspace.Service.{Member, role_owner, last_of}
use spec_powers.Workspace.Postgres.{WorkspaceDb, is_member, set_role_of, has_role}

-- At most one row for each workspace and user.
abbrev pub Unique : List Member → Type 0
Unique [] = Unit
Unique (m ∷ rows) = (any (is_member m.workspace_id m.user_id) rows ≡ false) × Unique rows

abbrev pub owns : String → Member → Bool
owns w m = has_role w role_owner m

abbrev pub Owned : String → WorkspaceDb → Type 0
Owned w d = any (owns w) d.members ≡ true

any-map :
    (p : Member → Bool) (f : Member → Member) (rows : List Member)
    → All (λ x. p x ≡ true → p (f x) ≡ true) rows
    → any p rows ≡ true
    → any p (map f rows) ≡ true
any-map p f [] hs e = e
any-map p f (x ∷ rows) (h, hs) e = elim (Bool-cases (p x)) [
  | inl g ↦ rw (h g) refl
  | inr g ↦ ground (arith, g, any-map p f rows hs)
]

set_role-absent :
    (w u : String) (r : ℕ) (rows : List Member)
    → any (is_member w u) rows ≡ false
    → map (set_role_of w u r) rows ≡ rows
set_role-absent w u r [] h = refl
set_role-absent w u r (x ∷ rows) h =
    let e : is_member w u x ≡ false = ground (arith, h) in
    let es : any (is_member w u) rows ≡ false = ground (arith, h) in
    rw (e, set_role-absent w u r rows es) refl

same_key :
    (w u : String) (x : Member) (rows : List Member)
    → is_member w u x ≡ true
    → any (is_member x.workspace_id x.user_id) rows ≡ any (is_member w u) rows
same_key w u x rows h =
    let at : x.workspace_id ≡ w = (eq_iff x.workspace_id w).0 (ground arith) in
    let by : x.user_id ≡ u = (eq_iff x.user_id u).0 (ground arith) in
    ap (λ i. any (is_member i x.user_id) rows) at ∙ ap (λ i. any (is_member w i) rows) by

-- A change of one role takes away one owner at most.
one_less :
    (v w u : String) (r : ℕ) (rows : List Member)
    → Unique rows
    → length (select (owns v) rows) ≤ suc (length (select (owns v) (map (set_role_of w u r) rows)))
one_less v w u r [] h = omega arith
one_less v w u r (x ∷ rows) (h, hs) = elim (Bool-cases (is_member w u x)) [
  | inl e ↦
      let rest : map (set_role_of w u r) rows ≡ rows =
        set_role-absent w u r rows (sym (same_key w u x rows e) ∙ h) in
      rw (e, rest) (ground arith)
  | inr e ↦ rw e (ground (arith, one_less v w u r rows hs))
]

some_owner :
    (v : String) (rows : List Member) → 0 < length (select (owns v) rows) → any (owns v) rows ≡ true
some_owner v [] h = absurd (omega arith)
some_owner v (x ∷ rows) h = elim (Bool-cases (owns v x)) [
  | inl e ↦ rw e refl
  | inr e ↦ rw e (some_owner v rows (rw e at h))
]

-- The row that the loop finds is the one of the key.
pub found_row :
    (w u : String) (rows : List Member) (t : Member)
    → last_of u (select (λ m. str_eq m.workspace_id w) rows) ≡ some t
    → any (is_member w u) rows ≡ true
unfolding last_of
found_row w u [] t h = absurd (ground arith)
found_row w u (x ∷ rows) t h = elim (Bool-cases (str_eq x.workspace_id w)) [
  | inr e ↦ rw e (found_row w u rows t (rw e at h))
  | inl e ↦ elim (Bool-cases (str_eq x.user_id u)) [
    | inl f ↦ rw (e, f) refl
    | inr f ↦
        elim (Option-cases (last_of u (select (λ (m : Member). str_eq m.workspace_id w) rows))) [
          | inl g ↦ absurd (ground (arith, rw (e, g, f) at h))
          | inr (y, g) ↦ ground (arith, found_row w u rows y g)
        ]
  ]
]

row_role :
    (w u : String) (rows : List Member) (t : Member)
    → Unique rows
    → last_of u (select (λ m. str_eq m.workspace_id w) rows) ≡ some t
    → All (λ x. is_member w u x ≡ true → x.role_id ≡ t.role_id) rows
unfolding last_of
row_role w u [] t hs e = tt
row_role w u (x ∷ rows) t (h, hs) e = elim (Bool-cases (str_eq x.workspace_id w)) [
  | inr f ↦ ((λ g. absurd (ground (arith, f, g))), row_role w u rows t hs (rw f at e))
  | inl f ↦
      elim (Option-cases (last_of u (select (λ (m : Member). str_eq m.workspace_id w) rows))) [
        | inr (y, g) ↦
            let same : some y ≡ some t = ground (arith, rw (f, g) at e) in
            (
              (λ key. absurd (ground (arith, same_key w u x rows key, found_row w u rows y g, h))),
              row_role w u rows t hs (g ∙ same),
            )
        | inl g ↦ elim (Bool-cases (str_eq x.user_id u)) [
          | inr k ↦ absurd (ground (arith, rw (f, g, k) at e))
          | inl k ↦
              let same : x ≡ t = cc (rw (f, g, k) at e) in
              let key : is_member w u x ≡ true = rw (f, k) refl in
              let others : any (is_member w u) rows ≡ false = sym (same_key w u x rows key) ∙ h in
              ((λ _. ap (λ (m : Member). m.role_id) same), none_other rows others)
        ]
      ]
]
  where
    none_other :
        (l : List Member)
        → any (is_member w u) l ≡ false
        → All (λ m. is_member w u m ≡ true → m.role_id ≡ t.role_id) l
    none_other [] o = tt
    none_other (m ∷ l) o =
        ((λ key. absurd (ground (arith, o, key))), none_other l (ground (arith, o)))

any-set_role :
    (a b w u : String) (r : ℕ) (rows : List Member)
    → any (is_member a b) (map (set_role_of w u r) rows) ≡ any (is_member a b) rows
any-set_role a b w u r [] = refl
any-set_role a b w u r (x ∷ rows) = elim (Bool-cases (is_member w u x)) [
  | inl e ↦ rw (e, any-set_role a b w u r rows) refl
  | inr e ↦ rw (e, any-set_role a b w u r rows) refl
]

pub set_role-Unique :
    (w u : String) (r : ℕ) (rows : List Member)
    → Unique rows
    → Unique (map (set_role_of w u r) rows)
set_role-Unique w u r [] h = tt
set_role-Unique w u r (x ∷ rows) (h, hs) = elim (Bool-cases (is_member w u x)) [
  | inl e ↦
      rw e (any-set_role x.workspace_id x.user_id w u r rows ∙ h, set_role-Unique w u r rows hs)
  | inr e ↦
      rw e (any-set_role x.workspace_id x.user_id w u r rows ∙ h, set_role-Unique w u r rows hs)
]

-- Rows of another workspace, rows of no owner, and rows that become an owner's.
other_rows :
    (v w u : String) (r : ℕ) (rows : List Member)
    → str_eq w v ≡ false
    → All (λ x. owns v x ≡ true → owns v (set_role_of w u r x) ≡ true) rows
other_rows v w u r [] e = tt
other_rows v w u r (x ∷ rows) e = (step (Bool-cases (is_member w u x)), other_rows v w u r rows e)
  where
    step :
        (is_member w u x ≡ true) ⊎ (is_member w u x ≡ false)
        → owns v x ≡ true
        → owns v (set_role_of w u r x) ≡ true
    step (inr f) h = rw f h
    step (inl f) h =
        let at : x.workspace_id ≡ w = (eq_iff x.workspace_id w).0 (ground arith) in
        absurd (ground (arith, h, e, ap (λ i. str_eq i v) at))

no_owner_rows :
    (v w u : String) (r : ℕ) (t : Member) (rows : List Member)
    → (t.role_id == role_owner) ≡ false
    → All (λ x. is_member w u x ≡ true → x.role_id ≡ t.role_id) rows
    → All (λ x. owns v x ≡ true → owns v (set_role_of w u r x) ≡ true) rows
no_owner_rows v w u r t rows e hs =
    All-imp rows (λ x h o. step x h (Bool-cases (is_member w u x)) o) hs
  where
    step :
        (x : Member)
        → (is_member w u x ≡ true → x.role_id ≡ t.role_id)
        → (is_member w u x ≡ true) ⊎ (is_member w u x ≡ false)
        → owns v x ≡ true
        → owns v (set_role_of w u r x) ≡ true
    step x h (inr f) o = rw f o
    step x h (inl f) o = absurd (ground (arith, o, e, h f))

new_owner_rows :
    (v w u : String) (r : ℕ) (rows : List Member)
    → (r == role_owner) ≡ true
    → All (λ x. owns v x ≡ true → owns v (set_role_of w u r x) ≡ true) rows
new_owner_rows v w u r [] e = tt
new_owner_rows v w u r (x ∷ rows) e =
    (step (Bool-cases (is_member w u x)), new_owner_rows v w u r rows e)
  where
    step :
        (is_member w u x ≡ true) ⊎ (is_member w u x ≡ false)
        → owns v x ≡ true
        → owns v (set_role_of w u r x) ≡ true
    step (inr f) h = rw f h
    step (inl f) h = rw f (ground (arith, h))

-- What the guard lets pass.
abbrev pub Spares : String → ℕ → Member → WorkspaceDb → Type 0
Spares w r t d =
    ((t.role_id == role_owner) ≡ false)
    ⊎ (((r == role_owner) ≡ true) ⊎ (leb (length (select (owns w) d.members)) 1 ≡ false))

pub owners-stay :
    (v w u : String) (r : ℕ) (t : Member) (d : WorkspaceDb)
    → Unique d.members
    → last_of u (select (λ m. str_eq m.workspace_id w) d.members) ≡ some t
    → Spares w r t d
    → Owned v d
    → any (owns v) (map (set_role_of w u r) d.members) ≡ true
owners-stay v w u r t d keys row (inl e) h =
    any-map (owns v) (set_role_of w u r) d.members
      (no_owner_rows v w u r t d.members e (row_role w u d.members t keys row)) h
owners-stay v w u r t d keys row (inr (inl e)) h =
    any-map (owns v) (set_role_of w u r) d.members (new_owner_rows v w u r d.members e) h
owners-stay v w u r t d keys row (inr (inr e)) h = elim (Bool-cases (str_eq w v)) [
  | inr f ↦ any-map (owns v) (set_role_of w u r) d.members (other_rows v w u r d.members f) h
  | inl f ↦
      let same : w ≡ v = (eq_iff w v).0 f in
      subst (λ i. any (owns i) (map (set_role_of w u r) d.members) ≡ true) same
        (some_owner w (map (set_role_of w u r) d.members)
          (ground (arith, e, one_less w w u r d.members keys)))
]
