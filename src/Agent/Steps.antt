-- ===== src/Agent/Steps.antt =====
-- The steps of all the processes that share the table of runs, in any order.
use spec_powers.Prelude.{
  ℕ, String, ◌≡◌, ◌≢◌, refl, ap, subst, ◌∙◌, Bool, true, false, not, List, [], ◌∷◌, ◌++◌, map, any,
  arith, inl, inr, Bool-cases, Option-cases, if◌then◌else◌, ◌==◌, ◌||◌, ◌&&◌, find,
}
use spec_powers.Api.{Stored, found}
use spec_powers.Agent.Runs.{
  Runs, Run, Agent, RunStatus, is_queued, is_unfinished, start_at, remote_queued, queued_of,
  create_run, finish_run, finish_if, claim, claim_next_run, claim_next_run_for_agent, new_run,
  valid_trigger, oldest,
}
use spec_powers.Agent.Claims.{Oldest, Claimed, claim-Claimed}

-- One statement of one process: FinishRun is called with done or failed only. The agents and the
-- time change as they like.
pub data Step (new_id : ℕ → ℕ) : Runs → Runs → Type 0 where
  creates :
      (d : Runs) (agent issue trigger : String)
      → Step new_id d (create_run new_id agent issue trigger d).1
  claims_next : (d : Runs) → Step new_id d (claim_next_run d).1
  claims_own : (d : Runs) (agent : String) → Step new_id d (claim_next_run_for_agent agent d).1
  finishes :
      (d : Runs) (id : ℕ) (status : RunStatus) (error : String)
      → is_queued status ≡ false
      → Step new_id d (finish_run id status error d).1
  elapses :
      (d : Runs) (agents : List Agent) (now : ℕ)
      → Step new_id d (record d { agents = agents; now = now })

pub data Steps (new_id : ℕ → ℕ) : Runs → Runs → Type 0 where
  stays : (d : Runs) → Steps new_id d d
  goes : {d d' d'' : Runs} → Step new_id d d' → Steps new_id d' d'' → Steps new_id d d''

-- A run that a process received by a claim.
pub data Claims (d : Runs) (r : Run) (d' : Runs) : Type 0 where
  by_server : claim_next_run d ≡ (found r, d') → Claims d r d'
  by_agent : (agent : String) → claim_next_run_for_agent agent d ≡ (found r, d') → Claims d r d'

module _ (i : ℕ) where
  -- The table has a run with the id, and none that is queued.
  abbrev pub has_id : List Run → Bool
  has_id rs = any (λ (x : Run). x.id == i) rs

  abbrev pub has_queued : List Run → Bool
  has_queued rs = any (λ (x : Run). x.id == i && is_queued x.status) rs

  unfoldable pub Taken : List Run → Type 0
  Taken rs = (has_id rs ≡ true) × (has_queued rs ≡ false)

  has_id-++ : (xs ys : List Run) → has_id (xs ++ ys) ≡ has_id xs || has_id ys
  has_id-++ [] ys = refl
  has_id-++ (x ∷ xs) ys = ground (arith, has_id-++ xs ys)

  has_queued-++ : (xs ys : List Run) → has_queued (xs ++ ys) ≡ has_queued xs || has_queued ys
  has_queued-++ [] ys = refl
  has_queued-++ (x ∷ xs) ys = ground (arith, has_queued-++ xs ys)

  has_id-start : (j now : ℕ) (rs : List Run) → has_id (map (start_at j now) rs) ≡ has_id rs
  has_id-start j now [] = refl
  has_id-start j now (x ∷ rs) = ground (arith, has_id-start j now rs)

  has_queued-start :
      (j now : ℕ) (rs : List Run)
      → has_queued rs ≡ false
      → has_queued (map (start_at j now) rs) ≡ false
  has_queued-start j now [] h = refl
  has_queued-start j now (x ∷ rs) h = ground (arith, has_queued-start j now rs)

  has_queued-start_self : (now : ℕ) (rs : List Run) → has_queued (map (start_at i now) rs) ≡ false
  has_queued-start_self now [] = refl
  has_queued-start_self now (x ∷ rs) = ground (arith, has_queued-start_self now rs)

  has_id-finish :
      (j now : ℕ) (status : RunStatus) (error : String) (rs : List Run)
      → has_id (map (finish_if j now status error) rs) ≡ has_id rs
  has_id-finish j now status error [] = refl
  has_id-finish j now status error (x ∷ rs) = ground (arith, has_id-finish j now status error rs)

  has_queued-finish :
      (j now : ℕ) (status : RunStatus) (error : String) (rs : List Run)
      → is_queued status ≡ false
      → has_queued rs ≡ false
      → has_queued (map (finish_if j now status error) rs) ≡ false
  has_queued-finish j now status error [] h k = refl
  has_queued-finish j now status error (x ∷ rs) h k =
      ground (arith, has_queued-finish j now status error rs h)

  -- A new id is another one.
  other_id :
      (j : ℕ) (rs : List Run)
      → has_id rs ≡ true
      → any (λ (x : Run). x.id == j) rs ≡ false
      → (j == i) ≡ false
  other_id j [] h k = ground arith
  other_id j (x ∷ rs) h k = elim (Bool-cases (has_id rs)) [
    | inl e ↦ other_id j rs e (ground arith)
    | inr e ↦ ground arith
  ]

  Taken-append :
      (rs : List Run) (row : Run)
      → any (λ (x : Run). x.id == row.id) rs ≡ false
      → Taken rs
      → Taken (rs ++ row ∷ [])
  unfolding Taken
  Taken-append rs row fresh (h, k) = (
    ground (arith, has_id-++ rs (row ∷ [])),
    ground (arith, has_queued-++ rs (row ∷ []), other_id row.id rs h fresh),
  )

  Taken-if :
      (b : Bool) (x y : Stored Run × Runs)
      → (b ≡ true → Taken x.1.runs)
      → Taken y.1.runs
      → Taken ((if b then x else y).1.runs)
  Taken-if true x y h k = h refl
  Taken-if false x y h k = k

  Taken-create :
      (new_id : ℕ → ℕ) (agent issue trigger : String) (d : Runs)
      → Taken d.runs
      → Taken ((create_run new_id agent issue trigger d).1.runs)
  unfolding create_run
  Taken-create new_id agent issue trigger d h =
      Taken-if (valid_trigger trigger && not (any (λ (x : Run). x.id == new_id d.serial) d.runs)) _
        _
        (λ e.
          Taken-append d.runs (new_run (new_id d.serial) d.now agent issue trigger) (ground arith)
            h)
        h

  Taken-claim : (p : Run → Bool) (d : Runs) → Taken d.runs → Taken ((claim p d).1.runs)
  unfolding Taken claim
  Taken-claim p d (h, k) = elim (Option-cases (oldest p d.runs)) [
    | inl e ↦ rw (e, claim) (h, k)
    | inr (q, e) ↦
        rw (e, claim) (has_id-start q.id d.now d.runs ∙ h, has_queued-start q.id d.now d.runs k)
  ]

  Taken-finish :
      (j : ℕ) (status : RunStatus) (error : String) (d : Runs)
      → is_queued status ≡ false
      → Taken d.runs
      → Taken ((finish_run j status error d).1.runs)
  unfolding Taken finish_run
  Taken-finish j status error d ended (h, k) = elim (Option-cases (find (is_unfinished j) d.runs)) [
    | inl e ↦ rw (e, finish_run) (h, k)
    | inr (q, e) ↦
        rw (e, finish_run)
          (
            has_id-finish j d.now status error d.runs ∙ h,
            has_queued-finish j d.now status error d.runs ended k,
          )
  ]

  Taken-Step : (new_id : ℕ → ℕ) {d d' : Runs} → Step new_id d d' → Taken d.runs → Taken d'.runs
  unfolding claim_next_run claim_next_run_for_agent
  Taken-Step new_id (creates d agent issue trigger) h = Taken-create new_id agent issue trigger d h
  Taken-Step new_id (claims_next d) h = Taken-claim (remote_queued d.agents) d h
  Taken-Step new_id (claims_own d agent) h = Taken-claim (queued_of agent) d h
  Taken-Step new_id (finishes d id status error ended) h = Taken-finish id status error d ended h
  Taken-Step new_id (elapses d agents now) h = h

  pub Taken-Steps :
      (new_id : ℕ → ℕ) {d d' : Runs} → Steps new_id d d' → Taken d.runs → Taken d'.runs
  Taken-Steps new_id (stays d) h = h
  Taken-Steps new_id (goes step steps) h = Taken-Steps new_id steps (Taken-Step new_id step h)

has_id_self : (before after : List Run) (q : Run) → has_id q.id (before ++ q ∷ after) ≡ true
has_id_self before after q = ground (arith, has_id-++ q.id before (q ∷ after))

-- A claimed run is in the table and is not queued.
module _ (p : Run → Bool) (queued_only : (x : Run) → p x ≡ true → is_queued x.status ≡ true) where
  claim-Taken : (d : Runs) (r : Run) (d' : Runs) → Claimed p d (found r, d') → Taken r.id d'.runs
  unfolding Claimed Oldest Taken
  claim-Taken d r d' (q, (before, after, e, passes, least), same, table) =
      rw (same, table)
        (
          has_id-start q.id q.id d.now d.runs ∙ ap (has_id q.id) e ∙ has_id_self before after q,
          has_queued-start_self q.id d.now d.runs,
        )

  claim-not-Taken :
      (i : ℕ) (d : Runs) (r : Run) (d' : Runs)
      → Claimed p d (found r, d')
      → Taken i d.runs
      → (r.id == i) ≡ false
  unfolding Claimed Oldest Taken
  claim-not-Taken i d r d' (q, (before, after, e, passes, least), same, table) (h, k) = ground (
    arith,
    ap (has_queued i) e,
    has_queued-++ i before (q ∷ after),
    queued_only q passes,
    ap (λ (x : Run). x.id) same,
  )

pub Claims-Taken : {d : Runs} {r : Run} {d' : Runs} → Claims d r d' → Taken r.id d'.runs
unfolding claim_next_run claim_next_run_for_agent
Claims-Taken {d} {r} {d'} (by_server e) =
    claim-Taken (remote_queued d.agents) (λ x h. ground arith) d r d'
      (subst (Claimed (remote_queued d.agents) d) (e) (claim-Claimed (remote_queued d.agents) d))
Claims-Taken {d} {r} {d'} (by_agent agent e) =
    claim-Taken (queued_of agent) (λ x h. ground arith) d r d'
      (subst (Claimed (queued_of agent) d) (e) (claim-Claimed (queued_of agent) d))

Claims-not-Taken :
    (i : ℕ) {d : Runs} {r : Run} {d' : Runs} → Claims d r d' → Taken i d.runs → (r.id == i) ≡ false
unfolding claim_next_run claim_next_run_for_agent
Claims-not-Taken i {d} {r} {d'} (by_server e) =
    claim-not-Taken (remote_queued d.agents) (λ x h. ground arith) i d r d'
      (subst (Claimed (remote_queued d.agents) d) (e) (claim-Claimed (remote_queued d.agents) d))
Claims-not-Taken i {d} {r} {d'} (by_agent agent e) =
    claim-not-Taken (queued_of agent) (λ x h. ground arith) i d r d'
      (subst (Claimed (queued_of agent) d) (e) (claim-Claimed (queued_of agent) d))

-- A run is claimed at most once: whatever statements any processes run after a claim, a later claim
-- gives another run.
pub claimed_once :
    (new_id : ℕ → ℕ) {d1 d2 d3 d4 : Runs} {r r' : Run}
    → Claims d1 r d2
    → Steps new_id d2 d3
    → Claims d3 r' d4
    → r'.id ≢ r.id
claimed_once new_id {r} {r'} first steps second same =
    let other = Claims-not-Taken r.id second (Taken-Steps r.id new_id steps (Claims-Taken first)) in
    ground arith
