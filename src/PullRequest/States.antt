-- ===== src/PullRequest/States.antt =====
-- pr/service.go on the tables: what an upsert does to the state of a pull request.
use spec_powers.Prelude.{
  ℕ, String, ◌≡◌, refl, sym, subst, Bool, true, false, not, ◌&&◌, Option, none, some, List, [], ◌∷◌,
  any, str_eq, is_blank, codes, concat, if◌then◌else◌, Bool-cases, Option-cases, inl, inr,
}
use spec_powers.Prelude.Int.{pos, ltb_ℤ}
use spec_powers.Domain.{Project, Issue}
use spec_powers.Api.{
  err_not_found, err_forbidden, err_internal, checked, required, reads, writes, calls, whenever,
  lift, pure, ◌>>=◌, ◌>>◌, >>=-keeps, >>=-reads, >>=-holds,
}
use spec_powers.Issue.Access.{role_suffices}
use spec_powers.Issue.Status.{is_terminal}
use spec_powers.PullRequest.Keys.{split_issue_key, parse_close_intents, extract_issue_keys}
use spec_powers.PullRequest.Service.{
  PullRequest, UpsertInput, valid_state, or_open, require_project_role, record_event,
  resolve_issue_key, issue_of_project, project_for, link_found, link_each, close_issue, close_each,
  apply_close_intents, link_referenced_issues, refer, state_of, write_row, upsert_as,
  upsert_pull_request,
}
use spec_powers.PullRequest.Postgres.{
  PullDb, Others, by_number, upsert_pull, link_issue, is_link, pg_pulls,
}
use spec_powers.PullRequest.Rows.{Aside, HasState, row_of, upsert-HasState}

module _ (new_id : ℕ → String) (o : Others) (aside : Aside o) where
  role-reads :
      (user project min : String) (d : PullDb)
      → (require_project_role (pg_pulls new_id o) user project min d).1 ≡ d
  unfolding require_project_role
  role-reads user project min d =
      >>=-keeps (λ (x : PullDb). x)
        (reads (λ s.
          checked (o.project project s) (err_not_found "project not found")
            (err_internal "get project failed")))
        _ (λ x. refl)
        (λ p x.
          >>=-keeps (λ (y : PullDb). y)
            (reads (λ s.
              checked (o.member project user s) (err_forbidden "not a project member")
                (err_internal "get project member failed")))
            (λ pm. lift (role_suffices min pm)) (λ y. refl) (λ pm y. refl) x)
        d

  resolve-pulls :
      (project : Project) (key : List ℕ) (d : PullDb)
      → (resolve_issue_key (pg_pulls new_id o) project key d).1.pulls ≡ d.pulls
  unfolding resolve_issue_key
  resolve-pulls project key d =
      >>=-keeps (λ (y : PullDb). y.pulls)
        (reads (project_for (pg_pulls new_id o) project (split_issue_key key)))
        (λ p. reads (issue_of_project (pg_pulls new_id o) p (split_issue_key key).1)) (λ x. refl)
        (λ p x. refl) d

  linked-pulls : (pr issue : String) (d : PullDb) → (link_issue pr issue d).1.pulls ≡ d.pulls
  unfolding link_issue
  linked-pulls pr issue d = elim (Bool-cases (any (is_link issue pr) d.links)) [
    | inl e ↦ rw e refl
    | inr e ↦ rw e refl
  ]

  event-pulls :
      (i user field old new : String) (d : PullDb)
      → (record_event (pg_pulls new_id o) i user field old new d).1.pulls ≡ d.pulls
  unfolding record_event
  event-pulls i user field old new d = elim (Option-cases o.events) [
    | inl e ↦ rw e refl
    | inr (f, e) ↦ let (_, quiet) = aside in rw e (quiet f e _ d)
  ]

  link_each-pulls :
      (project : Project) (pr : String) (keys : List (List ℕ)) (d : PullDb)
      → (link_each (pg_pulls new_id o) project pr keys d).1.pulls ≡ d.pulls
  unfolding link_each
  link_each-pulls project pr [] d = refl
  link_each-pulls project pr (key ∷ keys) d =
      >>=-keeps (λ (y : PullDb). y.pulls) (resolve_issue_key (pg_pulls new_id o) project key) _
        (resolve-pulls project key)
        (λ i x.
          >>=-keeps (λ (y : PullDb). y.pulls) (link_found (pg_pulls new_id o) pr i)
            (λ linked. link_each (pg_pulls new_id o) project pr keys >>= λ rest.
              pure (if linked then key ∷ rest else rest))
            (found-pulls i)
            (λ linked x'.
              >>=-keeps (λ (y : PullDb). y.pulls) (link_each (pg_pulls new_id o) project pr keys)
                (λ rest. pure (if linked then key ∷ rest else rest))
                (link_each-pulls project pr keys) (λ rest y. refl) x')
            x)
        d
    where
      found-pulls :
          (i : Option Issue) (x : PullDb)
          → (link_found (pg_pulls new_id o) pr i x).1.pulls ≡ x.pulls
      found-pulls none x = refl
      found-pulls (some i) x =
          >>=-keeps (λ (y : PullDb). y.pulls)
            (calls (link_issue pr i.id) (err_internal "link issue failed")) (λ _. pure true)
            (linked-pulls pr i.id) (λ _ y. refl) x

  close_issue-pulls :
      (user : String) (i : Option Issue) (d : PullDb)
      → (close_issue (pg_pulls new_id o) user i d).1.pulls ≡ d.pulls
  unfolding close_issue
  close_issue-pulls user none d = refl
  close_issue-pulls user (some i) d = elim (Bool-cases (is_terminal i.status)) [
    | inl e ↦ rw e refl
    | inr e ↦ rw e (
        >>=-keeps (λ (y : PullDb). y.pulls)
          (writes (o.update_issue (record i { status = "done" }))
            (err_internal "close issue failed"))
          (λ _. record_event (pg_pulls new_id o) i.id user "status" i.status "done")
          (λ x. let (quiet, _) = aside in quiet _ x)
          (λ _ x. event-pulls i.id user "status" i.status "done" x) d)
  ]

  close_each-pulls :
      (user : String) (project : Project) (keys : List (List ℕ)) (d : PullDb)
      → (close_each (pg_pulls new_id o) user project keys d).1.pulls ≡ d.pulls
  unfolding close_each
  close_each-pulls user project [] d = refl
  close_each-pulls user project (key ∷ keys) d =
      >>=-keeps (λ (y : PullDb). y.pulls) (resolve_issue_key (pg_pulls new_id o) project key)
        (λ i.
          close_issue (pg_pulls new_id o) user i
          >> close_each (pg_pulls new_id o) user project keys)
        (resolve-pulls project key)
        (λ i x.
          >>=-keeps (λ (y : PullDb). y.pulls) (close_issue (pg_pulls new_id o) user i)
            (λ _. close_each (pg_pulls new_id o) user project keys) (close_issue-pulls user i)
            (λ _ y. close_each-pulls user project keys y) x)
        d

  intents-pulls :
      (user : String) (pr : PullRequest) (d : PullDb)
      → (apply_close_intents (pg_pulls new_id o) user pr d).1.pulls ≡ d.pulls
  unfolding apply_close_intents
  intents-pulls user pr d =
      >>=-keeps (λ (y : PullDb). y.pulls)
        (reads (λ s. required (o.project pr.project_id s) (err_internal "get project failed")))
        (λ p.
          close_each (pg_pulls new_id o) user p
            (parse_close_intents (codes (concat pr.title (concat "\n" pr.body)))))
        (λ x. refl)
        (λ p x.
          close_each-pulls user p
            (parse_close_intents (codes (concat pr.title (concat "\n" pr.body)))) x)
        d

  refer-pulls :
      (user : String) (project : Project) (state previous : String) (pr : PullRequest) (d : PullDb)
      → (refer (pg_pulls new_id o) user project state previous pr d).1.pulls ≡ d.pulls
  unfolding refer link_referenced_issues
  refer-pulls user project state previous pr d =
      >>=-keeps (λ (y : PullDb). y.pulls) (link_referenced_issues (pg_pulls new_id o) project pr)
        (λ linked.
          whenever (merges (str_eq state "merged") (str_eq previous "merged"))
            (apply_close_intents (pg_pulls new_id o) user pr)
          >> pure (pr, linked))
        (λ x.
          link_each-pulls project pr.id
            (extract_issue_keys
              (codes (concat pr.title (concat "\n" (concat pr.body (concat "\n" pr.head_branch))))))
            x)
        (λ linked x.
          >>=-keeps (λ (y : PullDb). y.pulls)
            (whenever (merges (str_eq state "merged") (str_eq previous "merged"))
              (apply_close_intents (pg_pulls new_id o) user pr))
            (λ _. pure (pr, linked))
            (closes (merges (str_eq state "merged") (str_eq previous "merged"))) (λ _ y. refl) x)
        d
    where
      merges : Bool → Bool → Bool
      merges b c = b && not c

      closes :
          (b : Bool) (x : PullDb)
          → (whenever b (apply_close_intents (pg_pulls new_id o) user pr) x).1.pulls ≡ x.pulls
      closes true x = intents-pulls user pr x
      closes false x = refl

  write_row-HasState :
      (user project : String) (u : UpsertInput) (state : String) (p : Project) (previous s : String)
      (d : PullDb)
      → HasState project u.repo u.number s d.pulls
      → HasState project u.repo u.number s
          (write_row (pg_pulls new_id o) user project u state p previous d).1.pulls
  unfolding write_row
  write_row-HasState user project u state p previous s d h =
      >>=-holds (λ (x : PullDb). HasState project u.repo u.number s x.pulls)
        (writes (upsert_pull new_id (row_of user project u state))
          (err_internal "upsert pull request failed"))
        (refer (pg_pulls new_id o) user p state previous) d
        (upsert-HasState new_id project u.repo s u.number (row_of user project u state) d h)
        (λ pr x i.
          subst (HasState project u.repo u.number s) (sym (refer-pulls user p state previous pr x))
            i)

  upsert_as-HasState :
      (user project : String) (u : UpsertInput) (state s : String) (d : PullDb)
      → HasState project u.repo u.number s d.pulls
      → HasState project u.repo u.number s
          (upsert_as (pg_pulls new_id o) user project u state d).1.pulls
  unfolding upsert_as
  upsert_as-HasState user project u state s d h =
      >>=-reads (λ (x : PullDb). HasState project u.repo u.number s x.pulls)
        (reads (λ x. required (o.project project x) (err_internal "get project failed")))
        (λ p. reads (λ x. state_of (by_number project u.repo u.number x)) >>= λ previous.
          write_row (pg_pulls new_id o) user project u state p previous)
        d refl h
        (λ p _.
          >>=-reads (λ (x : PullDb). HasState project u.repo u.number s x.pulls)
            (reads (λ x. state_of (by_number project u.repo u.number x)))
            (write_row (pg_pulls new_id o) user project u state p) d refl h
            (λ previous _. write_row-HasState user project u state p previous s d h))

  -- An upsert never changes the state of a pull request that is stored: whatever state is given, and
  -- whether or not the call succeeds, the row of the number has the state that it had. Closing issues
  -- leaves the pull requests alone.
  pub upsert_pull_request-HasState :
      (user project : String) (u : UpsertInput) (s : String) (d : PullDb)
      → HasState project u.repo u.number s d.pulls
      → HasState project u.repo u.number s
          (upsert_pull_request (pg_pulls new_id o) user project u d).1.pulls
  unfolding upsert_pull_request
  upsert_pull_request-HasState user project u s d h =
      >>=-reads (λ (x : PullDb). HasState project u.repo u.number s x.pulls)
        (require_project_role (pg_pulls new_id o) user project "member") _ d
        (role-reads user project "member" d) h
        (λ _ _. elim (Bool-cases (ltb_ℤ (pos 0) u.number)) [
          | inr e ↦ rw e h
          | inl e ↦ elim (Bool-cases (is_blank u.title)) [
            | inl f ↦ rw (e, f) h
            | inr f ↦ elim (Bool-cases (valid_state (or_open u.state))) [
              | inr g ↦ rw (e, f, g) h
              | inl g ↦ rw (e, f, g) (upsert_as-HasState user project u (or_open u.state) s d h)
            ]
          ]
        ])
