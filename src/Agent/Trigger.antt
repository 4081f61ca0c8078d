-- ===== src/Agent/Trigger.antt =====
-- agent/queue.go: `Trigger`, which tells the assignee of an issue: an agent by a run, a user by a
-- notice, a squad by way of its leader. A call reports its success; a run store that fails reports it.
use spec_powers.Prelude.{
  String, Bool, true, false, not, Option, none, some, str_eq, concat, if◌then◌else◌,
}
use spec_powers.Domain.{Issue, Squad}
use spec_powers.Api.{Stored, found, missing, failed}
use spec_powers.Notification.Fanout.{NotifyInput, Sink}
use spec_powers.Issue.Stores.{RunTrigger}

-- `create_run` takes the agent, the issue and the trigger.
pub record Dispatch : Type 1 where
  pub State : Type 0
  pub get_agent : String → State → Bool
  pub create_run : String → String → String → State → Bool × State
  pub squads : Option (String → State → Stored Squad)
  pub notifier : Option (Sink State)

module _ (t : Dispatch) where
  open t use {State, get_agent, create_run, squads, notifier}

  -- `isAgent`.
  unfoldable pub is_agent : String → State → Bool
  is_agent id s = if str_eq id "" then false else get_agent id s

  abbrev pub notice : String → Issue → String → String → NotifyInput
  notice user i kind title = record {
    user_id = user;
    kind = kind;
    title = title;
    body = "";
    issue_id = i.id;
    project_id = i.project_id;
  }

  abbrev pub notify_by : Option (Sink State) → String → NotifyInput → State → State
  notify_by none user n s = s
  notify_by (some sink) user n s = if str_eq user "" then s else sink n s

  -- `notifyUser`.
  unfoldable pub notify_user : String → Issue → String → String → State → State
  notify_user user i kind title s = notify_by notifier user (notice user i kind title) s

  unfoldable pub to_leader : Squad → Issue → String → String → State → Bool × State
  unfolding is_agent notify_user
  to_leader sq i kind title s =
      if is_agent sq.leader_id s
      then create_run sq.leader_id i.id kind s
      else (true, notify_user sq.leader_id i kind title s)

  unfoldable pub to_squad : Stored Squad → Issue → String → String → State → Bool × State
  unfolding to_leader
  to_squad (found sq) i kind title s = to_leader sq i kind title s
  to_squad missing i kind title s = (false, s)
  to_squad failed i kind title s = (false, s)

  unfoldable pub route_by :
      Option (String → State → Stored Squad) → Issue → String → String → State → Bool × State
  unfolding to_squad
  route_by none i kind title s = (false, s)
  route_by (some get_squad) i kind title s =
      if str_eq i.assignee_id ""
      then (false, s)
      else to_squad (get_squad i.assignee_id s) i kind title s

  -- `routeToLeader`.
  unfoldable pub route_to_leader : Issue → String → String → State → Bool × State
  unfolding route_by
  route_to_leader i kind title s = route_by squads i kind title s

  -- `if t.routeToLeader(…) { return nil }`, and the notice to the assignee.
  unfoldable pub unless_routed : Bool → Issue → String → String → State → Bool × State
  unfolding notify_user
  unless_routed true i kind title s = (true, s)
  unless_routed false i kind title s = (true, notify_user i.assignee_id i kind title s)

  unfoldable pub tell : Issue → String → String → String → State → Bool × State
  unfolding is_agent route_to_leader unless_routed
  tell i kind led title s =
      if is_agent i.assignee_id s
      then create_run i.assignee_id i.id kind s
      else let (routed, s') = route_to_leader i kind led s in unless_routed routed i kind title s'

  unfoldable pub on_issue_assigned : Issue → State → Bool × State
  unfolding tell
  on_issue_assigned i s =
      tell i "assigned" (concat "Issue assigned to your squad: " i.title)
        (concat "Issue assigned to you: " i.title) s

  unfoldable pub on_issue_status_changed : Issue → State → Bool × State
  unfolding is_agent
  on_issue_status_changed i s =
      if not (is_agent i.assignee_id s)
      then (true, s)
      else create_run i.assignee_id i.id "status_changed" s

  unfoldable pub on_parent_wakeup : Issue → State → Bool × State
  unfolding tell
  on_parent_wakeup parent s =
      let title = concat "Sub-issues finished, awaiting acceptance: " parent.title in
      tell parent "wakeup" title title s

  -- What the issue service calls.
  abbrev pub run_trigger : RunTrigger State
  run_trigger = record {
    assigned = on_issue_assigned;
    status_changed = on_issue_status_changed;
    wakeup = on_parent_wakeup;
  }
