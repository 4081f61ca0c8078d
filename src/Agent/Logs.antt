-- ===== src/Agent/Logs.antt =====
-- store/postgres/agent.go: the logs of runs. The primary key is the run with the sequence number. A
-- number that is not positive asks for the next one of the run; it stands as 0.
use spec_powers.Prelude.{
  ℕ, zero, suc, ◌<◌, String, ◌≡◌, refl, ap, ◌∙◌, Bool, true, false, ◌&&◌, not, leb, str_eq, lt→ltb,
  ◌^◌, ◌-◌, List, [], ◌∷◌, ◌++◌, any, All, select, ltb, ◌==◌, arith, if◌then◌else◌, Bool-cases, inl,
  inr,
}
use spec_powers.Api.{Stored, found, failed}

pub record RunLog : Type 0 where
  pub run_id : ℕ
  pub seq : ℕ
  pub kind : String
  pub content : String
  pub created_at : ℕ

-- `COALESCE(MAX(seq), 0)` over the logs of a run.
unfoldable pub max_seq : ℕ → List RunLog → ℕ
max_seq run [] = 0
max_seq run (l ∷ logs) =
    let m = max_seq run logs in if l.run_id == run && ltb m l.seq then l.seq else m

abbrev pub next_seq : ℕ → ℕ → List RunLog → ℕ
next_seq zero run logs = suc (max_seq run logs)
next_seq (suc n) run logs = suc n

-- The CHECK constraint of migration 0008.
abbrev pub is_log_kind : String → Bool
is_log_kind k =
    any (λ x. str_eq k x)
      ("llm_request" ∷ "llm_response" ∷ "tool_call" ∷ "tool_result" ∷ "error" ∷ [])

-- The largest `int` of the server: a sum past it is an error.
abbrev pub max_int4 : ℕ
max_int4 = 2 ^ 31 - 1

-- The row that AppendRunLog inserts.
abbrev pub log_row : ℕ → RunLog → List RunLog → RunLog
log_row now l logs = record l { seq = next_seq l.seq l.run_id logs; created_at = now }

unfoldable pub append_run_log : ℕ → RunLog → List RunLog → Stored RunLog × List RunLog
append_run_log now l logs =
    let row = log_row now l logs in
    if is_log_kind l.kind
      && leb row.seq max_int4
      && not (any (λ (x : RunLog). x.run_id == row.run_id && x.seq == row.seq) logs)
    then (found row, logs ++ row ∷ [])
    else (failed, logs)

-- `ORDER BY seq`.
insert_log : RunLog → List RunLog → List RunLog
insert_log l [] = l ∷ []
insert_log l (x ∷ xs) =
    let rest = insert_log l xs in if ltb l.seq x.seq then l ∷ x ∷ xs else x ∷ rest

by_seq : List RunLog → List RunLog
unfolding insert_log
by_seq [] = []
by_seq (l ∷ logs) = insert_log l (by_seq logs)

unfoldable pub list_run_logs : ℕ → List RunLog → List RunLog
unfolding by_seq
list_run_logs run logs = by_seq (select (λ (l : RunLog). l.run_id == run) logs)

max_seq-fresh :
    (run m : ℕ) (logs : List RunLog)
    → max_seq run logs < m
    → any (λ (x : RunLog). x.run_id == run && x.seq == m) logs ≡ false
unfolding max_seq
max_seq-fresh run m [] h = refl
max_seq-fresh run m (l ∷ logs) h = ground (arith, max_seq-fresh run m logs)

select-append :
    {A : Type 0} (p : A → Bool) (xs : List A) (a : A)
    → p a ≡ true
    → select p (xs ++ a ∷ []) ≡ select p xs ++ a ∷ []
select-append p [] a h = rw h refl
select-append p (x ∷ xs) a h = elim (Bool-cases (p x)) [
  | inl e ↦ rw e (ap (λ l. x ∷ l) (select-append p xs a h))
  | inr e ↦ rw e (select-append p xs a h)
]

insert-last :
    (l row : RunLog) (xs : List RunLog)
    → l.seq < row.seq
    → insert_log l (xs ++ row ∷ []) ≡ insert_log l xs ++ row ∷ []
unfolding insert_log
insert-last l row [] h = rw (lt→ltb l.seq row.seq h) refl
insert-last l row (x ∷ xs) h = elim (Bool-cases (ltb l.seq x.seq)) [
  | inl e ↦ rw e refl
  | inr e ↦ rw e (ap (λ t. x ∷ t) (insert-last l row xs h))
]

by_seq-last :
    (row : RunLog) (xs : List RunLog)
    → All (λ (x : RunLog). x.seq < row.seq) xs
    → by_seq (xs ++ row ∷ []) ≡ by_seq xs ++ row ∷ []
unfolding by_seq
by_seq-last row [] h = refl
by_seq-last row (x ∷ xs) (h, hs) =
    ap (insert_log x) (by_seq-last row xs hs) ∙ insert-last x row (by_seq xs) h

below_next :
    (run : ℕ) (logs : List RunLog) (m : ℕ)
    → max_seq run logs < m
    → All (λ (x : RunLog). x.seq < m) (select (λ (l : RunLog). l.run_id == run) logs)
unfolding max_seq
below_next run [] m h = tt
below_next run (l ∷ logs) m h = elim (Bool-cases (l.run_id == run)) [
  | inl e ↦ rw e (ground arith, below_next run logs m (ground arith))
  | inr e ↦ rw e (below_next run logs m (ground arith))
]

row_seq :
    (now : ℕ) (l : RunLog) (logs : List RunLog)
    → l.seq ≡ 0
    → (log_row now l logs).seq ≡ suc (max_seq l.run_id logs)
row_seq now l logs z = rw z refl

append-row :
    (now : ℕ) (l : RunLog) (logs : List RunLog)
    → is_log_kind l.kind ≡ true
    → l.seq ≡ 0
    → max_seq l.run_id logs < max_int4
    → append_run_log now l logs ≡ (found (log_row now l logs), logs ++ log_row now l logs ∷ [])
unfolding append_run_log
append-row now l logs k z m =
    let n = row_seq now l logs z in
    let fits : leb (log_row now l logs).seq max_int4 ≡ true = ground arith in
    let fresh = max_seq-fresh l.run_id (log_row now l logs).seq logs (omega arith) in
    rw (k, fits, fresh) refl

-- A log of an admitted kind that asks for the next number is appended, unless the number passes the
-- server's int; the logs of its run are then listed as before, with the new one last.
pub list-append_run_log :
    (now : ℕ) (l : RunLog) (logs : List RunLog)
    → is_log_kind l.kind ≡ true
    → l.seq ≡ 0
    → max_seq l.run_id logs < max_int4
    → (append_run_log now l logs ≡ (found (log_row now l logs), logs ++ log_row now l logs ∷ []))
      × (list_run_logs l.run_id (append_run_log now l logs).1
          ≡ list_run_logs l.run_id logs ++ log_row now l logs ∷ [])
unfolding list_run_logs
list-append_run_log now l logs k z m =
    let row = log_row now l logs in
    let n = row_seq now l logs z in
    let stored = append-row now l logs k z m in
    (
      stored,
      rw stored (
          ap by_seq (select-append (λ (x : RunLog). x.run_id == l.run_id) logs row (ground arith))
          ∙ by_seq-last row (select (λ (x : RunLog). x.run_id == l.run_id) logs)
              (below_next l.run_id logs row.seq (omega arith))),
    )
