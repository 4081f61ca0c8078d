-- ===== src/Lib.antt =====
-- spec-powers: a server on which people and agents work on issues by a change workflow, modelled from
-- its Go backend (backend/internal).
--
-- The parts and how they interact
--   * An issue moves through the statuses of its workspace. Every workspace has a directory of
--     statuses, each with a category; the moves are a fixed table over the categories.
--     Issue.Status is issue/statemachine.go with the directory of domain/models.go; Issue.Machine
--     has the theorems. The service is issue/service.go: Issue.Stores is what it is written against,
--     Issue.Access the checks that its methods share, Issue.Tree the check of a new parent, and
--     Issue.Create, Update, Transition, Directory and Children are the methods. Issue.Postgres fills
--     Issue.Stores from the tables (store/postgres/issues.go, statuses.go, subscribers.go,
--     issue_events.go). Forest, Sorted, Refusals and Spellings have theorems.
--   * A change carries one issue through the phases proposal, specs, design and tasks, with an
--     artifact for each, until it is archived. Workflow.Phases is the order of the phases
--     (workflow/splitter.go), Workflow.Access the access checks and reads of workflow/service.go,
--     Workflow.Guard the gates and GuardStatus (workflow/guard.go, verify.go), Workflow.Advance the
--     operations AdvancePhase, SubmitVerifyReport and Archive. They are written over
--     Workflow.Stores, a record of the operations of the stores with the state behind them, so that
--     the theorems of Workflow.Gates, Moved and Archived hold for every implementation.
--   * Workflow.Postgres fills that record from store/postgres/workflow.go: tables as lists of rows in
--     the order of insertion, statements as functions of the tables, with the CHECK and UNIQUE
--     constraints of the migrations. Versions, Listing and Verify are its theorems.
--   * A split makes the change of an issue, its artifacts and its sub-issues in one run.
--     Workflow.Tasks is ParseTasks (workflow/parser.go), Workflow.Split the phases of
--     workflow/splitter.go with the binding of sub-issues, Workflow.Run its loop Run and StartSplit,
--     Workflow.Manual what agents and people write themselves (workflow/manual.go). Parsed, Mapped
--     and Ended are the theorems.
--   * Agents execute runs on issues. Agent.Runs is the table of runs with its statements
--     (store/postgres/agent.go), Agent.Queue the queue over it (agent/queue.go), Agent.Steps the
--     statements of all processes in any order, Agent.Logs the logs of runs; Claims and Ends
--     have theorems. Agent.Trigger tells the assignee of an issue (the Trigger of agent/queue.go,
--     which the issue service calls as its RunTrigger), Agent.Finished tells of the end of a run, and
--     Agent.Mention calls the agents that a comment names (agent/mention.go); Mentioned is on whom
--     it reaches.
--   * A squad has a leader and a roster. Squad.Service is squad/service.go, Squad.Postgres its tables
--     (store/postgres/squad.go); Roster has theorems.
--   * Notifications: Notification.Fanout is the service's Notify and NotifyMany, Mentions the syntax
--     of mentions, Due the due-date scan (notification/*.go), and Postgres the table
--     (store/postgres/notifications.go). Delivery, Syntax and Scans have theorems.
--   * Scheduled automation fires by cron expressions (cronexpr/cronexpr.go). Cron.Calendar is the
--     part of package time that it calls, Cron.Parse is Parse with parseField and setRange, over the
--     code points of the text, and Cron.Schedule is Next. Fields, Steps and Selection are theorems
--     on parsing, Skips, Rounds and Next on the search.
--   * Automation (automation/*.go) fires autopilots, by cron expressions, webhooks or by hand. Stores is
--     what its service is written against, Service the service, Scheduler the Tick over the due
--     autopilots, Hook the signatures of events and receiveEvent, Postgres the two tables
--     (store/postgres/webhooks.go, autopilots.go). Ticks, Hopeless, Signatures and Events have theorems.
--   * Workspace (workspace/service.go) has members with roles, and invitations by email. Emails is the
--     pattern of emails and lower case, Service the service over a record of its stores, Postgres the
--     tables (store/postgres/workspaces.go, invites.go). Roles, Owners, Invited and Redeemed have
--     theorems and their lemmas.
--   * Property (property/service.go) has the property definitions of a project and the values of its
--     issues. Values is the checks of both, Service the service, Postgres the tables
--     (store/postgres/properties.go). Checked and Stored have theorems.
--   * Collab (collab/service.go) has the comments, files, metadata and subscribers of an issue. Stores
--     is what its service is written against, Comments, Attachments and Entries the service, Postgres
--     the tables (store/postgres/collab.go) and the files. Reads, Told, Threads and Files have theorems.
--   * PullRequest (pr/*.go) links pull requests to the issues that they name, and closes issues on a
--     merge. Keys is the regular expressions of keyparse.go as matchers, Service the service, Postgres
--     the tables (store/postgres/pull_requests.go). Distinct, Rows and States have theorems.
--   * Domain has the records of domain/models.go, Api the errors of httpapi/router.go and the shape
--     of a service method: a function of the state that returns a value or an API error with the
--     new state. Prelude has the names that the modules share.
--
-- Conventions
--   A Go int is an integer or, where the code keeps it non-negative, a natural number; the one
--   addition that can overflow (in setRange) wraps as in the code. A text is
--   compared as a whole, and walked by code points. An error that a caller tells apart is a value;
--   a run-time panic is a result of its own. Ids are uuids: the tables of issues and of
--   squads read a text as a uuid, in any spelling, by a parameter; elsewhere ids are taken in their
--   canonical spelling, in which the tables give them. A method runs alone on its state, which stands for the
--   isolation of one request.
--
-- Fuel
--   The loop of setRange takes hi - lo + 2 rounds: each adds a step of at least 1, and one is left for a
--   sum that has wrapped. The loop of
--   Next takes as many rounds as there are minutes up to its limit, plus 2, and each moves to a later
--   minute. Both are enough, since no loop has more rounds than that. The walk from a new parent to
--   the root takes a step for each ancestor, on fuel that its caller chooses; the code has no bound,
--   and on a cycle it would not end. The attempts of the splitter are one more than its retries.
--
-- Parameters
--   The YAML parser (two calls, by their results), encoding/json (by what it reads from tasks, events
--   and select values), the language model and the prompt templates, the texts of dates and numbers,
--   which texts are numbers, new ids, which texts are uuids
--   and their canonical spelling, random secrets and codes, HMAC-SHA256, the clock, whether the
--   driver accepts a scan with so many columns and targets, the order of a SELECT without ORDER BY and
--   by ids, the collaborators of other tables, the executor of runs, and the wakeup recorder and hook.
--   Theorems name what they assume of them.
--
-- Not modelled
--   Locations with clock changes: a time is a civil time at a fixed offset of whole minutes. Display
--   fields of records. Mentions, emails, keys and cut texts beyond ASCII. The tickers around RunOne,
--   the scan and Tick. The services of projects, skills and authentication, and the agent's own
--   service and executor. HTTP handlers, JSON, configuration, the command line client, process start
--   and the frontend are glue around third-party code.
mod Prelude
pub mod Domain
pub mod Api
pub mod Agent
pub mod Notification
pub mod Automation
pub mod Collab
pub mod Property
pub mod PullRequest
pub mod Squad
pub mod Issue
pub mod Workflow
pub mod Cron
pub mod Workspace
