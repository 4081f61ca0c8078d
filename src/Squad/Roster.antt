-- ===== src/Squad/Roster.antt =====
-- squad/service.go: the leader of a squad stays on its roster.
use spec_powers.Prelude.{
  ℕ, String, some, Option-cases, ◌≢◌, ◌≡◌, refl, sym, ap, ◌∙◌, Bool, true, false, not, List, [],
  ◌∷◌, any, select, str_eq, eq_iff, arith, Bool-cases, inl, inr, ◌⊎◌,
}
use spec_powers.Domain.{Squad}
use spec_powers.Api.{Stored, found, missing, failed, ok}
use spec_powers.Squad.Service.{leave_squad}
use spec_powers.Squad.Postgres.{
  Member, SquadDb, squad_at, get_squad, is_member, remove_at, remove_squad_member, pg_squads,
}

-- Every squad's leader is a member of the squad.
abbrev pub Led : SquadDb → Type 0
Led d =
    (id : String) (sq : Squad)
    → squad_at id d ≡ found sq
    → any (is_member id sq.leader_id) d.members ≡ true

any-select :
    (p q : Member → Bool) (rows : List Member)
    → ((m : Member) → p m ≡ true → q m ≡ false)
    → any p rows ≡ true
    → any p (select (λ m. not (q m)) rows) ≡ true
any-select p q [] apart h = h
any-select p q (m ∷ rows) apart h = elim (Bool-cases (p m)) [
  | inl e ↦ rw (apart m e, e) refl
  | inr e ↦
      let later = any-select p q rows apart (rw e at h) in
      elim (Bool-cases (q m)) [ inl f ↦ rw f later | inr f ↦ rw (f, e) later ]
]

found-same : {a b : Squad} → found a ≡ found b → a ≡ b
found-same e = cc

-- The row that goes is not that of a leader.
leader-stays :
    (squad user id : String) (sq x : Squad) (d : SquadDb)
    → squad_at squad d ≡ found sq
    → str_eq sq.leader_id user ≡ false
    → squad_at id d ≡ found x
    → (m : Member) → is_member id x.leader_id m ≡ true
    → is_member squad user m ≡ false
leader-stays squad user id sq x d row other h m e = elim (Bool-cases (is_member squad user m)) [
  | inr f ↦ f
  | inl f ↦
      let at : m.squad_id ≡ id = (eq_iff m.squad_id id).0 (ground arith) in
      let at' : m.squad_id ≡ squad = (eq_iff m.squad_id squad).0 (ground arith) in
      let led : m.user_id ≡ x.leader_id = (eq_iff m.user_id x.leader_id).0 (ground arith) in
      let goes : m.user_id ≡ user = (eq_iff m.user_id user).0 (ground arith) in
      let same : sq ≡ x = found-same (sym row ∙ ap (λ y. squad_at y d) (sym at' ∙ at) ∙ h) in
      let leads : sq.leader_id ≡ user = ap (λ (y : Squad). y.leader_id) same ∙ sym led ∙ goes in
      absurd (ground (arith, (eq_iff sq.leader_id user).1 leads))
]

Stored-cases : (r : Stored Squad) → ((sq : Squad) × (r ≡ found sq)) ⊎ ((r ≡ missing) ⊎ (r ≡ failed))
Stored-cases (found sq) = inl (sq, refl)
Stored-cases missing = inr (inl refl)
Stored-cases failed = inr (inr refl)

removed-Led :
    (squad user : String) (sq : Squad) (d : SquadDb)
    → squad_at squad d ≡ found sq
    → str_eq sq.leader_id user ≡ false
    → Led d
    → Led (remove_at squad user d).1
unfolding remove_at squad_at
removed-Led squad user sq d row other led id x h =
    elim (Bool-cases (any (is_member squad user) d.members)) [
      | inr e ↦ rw e (led id x (rw (e, squad_at) at h))
      | inl e ↦
          let kept : squad_at id d ≡ found x = rw (e, squad_at) at h in
          rw e (
            any-select (is_member id x.leader_id) (is_member squad user) d.members
              (leader-stays squad user id sq x d row other kept) (led id x kept))
    ]

module _ (known : String → Bool) (new_id : ℕ → String) (squad user : String) (d : SquadDb) where
  -- RemoveMember keeps the leader of every squad on its roster, whether or not it succeeds, if the
  -- member's id is given in its canonical spelling.
  pub leave-Led :
      d.uuid user ≡ some user → Led d → Led (leave_squad (pg_squads known new_id) squad user d).1
  unfolding leave_squad get_squad remove_squad_member
  leave-Led plain led = elim (Option-cases (d.uuid squad)) [
    | inl none_read ↦ rw none_read led
    | inr (k, at) ↦ elim (Stored-cases (squad_at k d)) [
      | inl (sq, e) ↦ elim (Bool-cases (str_eq sq.leader_id user)) [
        | inl f ↦ rw (at, e, f) led
        | inr f ↦ rw (at, e, f, at, plain) (removed-Led k user sq d e f led)
      ]
      | inr (inl e) ↦ rw (at, e) led
      | inr (inr e) ↦ rw (at, e) led
    ]
  ]

  any-removed :
      (p : Member → Bool) (rows : List Member) → any p (select (λ m. not (p m)) rows) ≡ false
  any-removed p [] = refl
  any-removed p (m ∷ rows) = elim (Bool-cases (p m)) [
    | inl e ↦ rw e (any-removed p rows)
    | inr e ↦ rw (e, e) (any-removed p rows)
  ]

  -- In another spelling of the id the guard for the leader is no guard: RemoveMember of a leader who
  -- is on the roster succeeds, and the squad keeps that leader, who is no member of it any more.
  pub leave-unled :
      (k : String) (sq : Squad)
      → d.uuid squad ≡ some k
      → squad_at k d ≡ found sq
      → d.uuid user ≡ some sq.leader_id
      → user ≢ sq.leader_id
      → any (is_member k sq.leader_id) d.members ≡ true
      → (let r = leave_squad (pg_squads known new_id) squad user d in
          (r.0 ≡ ok tt)
          × (squad_at k r.1 ≡ found sq)
          × (any (is_member k sq.leader_id) r.1.members ≡ false))
  unfolding leave_squad get_squad remove_squad_member remove_at squad_at
  leave-unled k sq at e other differs there =
      let apart : str_eq sq.leader_id user ≡ false = ground (arith, eq_iff sq.leader_id user) in
      rw (at, e, apart, at, other, there)
        (refl, e, any-removed (is_member k sq.leader_id) d.members)
