-- ===== src/Agent/Claims.antt =====
-- store/postgres/agent.go: which run a claim takes.
use spec_powers.Prelude.{
  String, ◌≡◌, refl, ap, Bool, true, false, Option, none, some, List, [], ◌∷◌, ◌++◌, map, All,
  All-imp, arith, inl, inr, Bool-cases, Option-cases, if◌then◌else◌,
}
use spec_powers.Api.{Stored, found, missing, failed}
use spec_powers.Agent.Runs.{
  Runs, Run, earlier, first_of, oldest, claim, started, start_at, remote_queued, queued_of,
  claim_next_run, claim_next_run_for_agent,
}

module _ (p : Run → Bool) where
  oldest-none : (rs : List Run) → oldest p rs ≡ none → All (λ x. p x ≡ false) rs
  unfolding oldest
  oldest-none [] e = tt
  oldest-none (r ∷ rs) e = (ground arith, oldest-none rs (ground arith))

  -- A row that passes the test does not come before `q`.
  unfoldable pub NotBefore : Run → Run → Type 0
  NotBefore q x = p x ≡ true → earlier x q ≡ false

  -- `q` is a row that passes the test, and none that passes comes before it.
  unfoldable pub Oldest : List Run → Run → Type 0
  unfolding NotBefore
  Oldest rs q =
      (before after : List Run) × (rs ≡ before ++ q ∷ after) × (p q ≡ true) × All (NotBefore q) rs

  Oldest-alone :
      (r : Run) (rs : List Run) → p r ≡ true → All (λ x. p x ≡ false) rs → Oldest (r ∷ rs) r
  unfolding Oldest NotBefore
  Oldest-alone r rs h none_pass =
      ([], rs, refl, h, (λ _. ground arith, All-imp rs (λ x fails passes. ground arith) none_pass))

  Oldest-skip : (r x : Run) (rs : List Run) → NotBefore x r → Oldest rs x → Oldest (r ∷ rs) x
  unfolding Oldest
  Oldest-skip r x rs h (before, after, e, passes, least) =
      (r ∷ before, after, ap (λ l. r ∷ l) e, passes, (h, least))

  Oldest-take :
      (r x : Run) (rs : List Run)
      → p r ≡ true
      → earlier x r ≡ false
      → Oldest rs x
      → Oldest (r ∷ rs) r
  unfolding Oldest NotBefore
  Oldest-take r x rs h later (before, after, e, passes, least) = (
    [],
    rs,
    refl,
    h,
    (
      λ _. ground arith,
      All-imp rs (λ y not_before y_passes. ground (arith, not_before y_passes)) least,
    ),
  )

  earlier_asym : (r x : Run) → earlier x r ≡ true → earlier r x ≡ false
  earlier_asym r x e = ground arith

  Oldest-first_of :
      (r x : Run) (rs : List Run) → p r ≡ true → Oldest rs x → Oldest (r ∷ rs) (first_of r (some x))
  unfolding NotBefore
  Oldest-first_of r x rs h least = elim (Bool-cases (earlier x r)) [
    | inl e ↦ rw e (Oldest-skip r x rs (λ _. earlier_asym r x e) least)
    | inr e ↦ rw e (Oldest-take r x rs h e least)
  ]

  Oldest-step :
      (r : Run) (rs : List Run) (q : Run) (b : Bool) (rest : Option Run)
      → p r ≡ b
      → (rest ≡ none → All (λ x. p x ≡ false) rs)
      → ((x : Run) → rest ≡ some x → Oldest rs x)
      → (if b then some (first_of r rest) else rest) ≡ some q
      → Oldest (r ∷ rs) q
  unfolding NotBefore
  Oldest-step r rs q false rest h fails least e =
      Oldest-skip r q rs (λ k. absurd (ground arith)) (least q e)
  Oldest-step r rs q true none h fails least e =
      let same : r ≡ q = ground arith in rw (← same) (Oldest-alone r rs h (fails refl))
  Oldest-step r rs q true (some x) h fails least e =
      let same : first_of r (some x) ≡ q = ground arith in
      rw (← same) (Oldest-first_of r x rs h (least x refl))

  oldest-Oldest : (rs : List Run) (q : Run) → oldest p rs ≡ some q → Oldest rs q
  unfolding oldest
  oldest-Oldest [] q e = absurd (ground arith)
  oldest-Oldest (r ∷ rs) q e =
      Oldest-step r rs q (p r) (oldest p rs) refl (oldest-none rs) (λ x. oldest-Oldest rs x) e

  -- What a claim returns, and the table after it.
  unfoldable pub Claimed : Runs → Stored Run × Runs → Type 0
  Claimed d (found r, d') =
      (q : Run) × Oldest d.runs q
      × (r ≡ started d.now q)
      × (d' ≡ record d { runs = map (start_at q.id d.now) d.runs })
  Claimed d (missing, d') = All (λ x. p x ≡ false) d.runs × (d' ≡ d)
  Claimed d (failed, d') = ⊥

  pub claim-Claimed : (d : Runs) → Claimed d (claim p d)
  unfolding claim Claimed
  claim-Claimed d = elim (Option-cases (oldest p d.runs)) [
    | inl e ↦ rw (e, claim) (oldest-none d.runs e, refl)
    | inr (q, e) ↦ rw (e, claim) (q, oldest-Oldest d.runs q e, refl, refl)
  ]

-- A claim by the server takes the oldest queued run of an agent that is not local, by creation time
-- and then by id, and sets it running; it finds none exactly if there is none. A claim by an agent
-- does the same among the agent's own runs.
pub claim-takes_oldest :
    (d : Runs) (agent : String)
    → Claimed (remote_queued d.agents) d (claim_next_run d)
      × Claimed (queued_of agent) d (claim_next_run_for_agent agent d)
unfolding claim_next_run claim_next_run_for_agent
claim-takes_oldest d agent =
    (claim-Claimed (remote_queued d.agents) d, claim-Claimed (queued_of agent) d)
