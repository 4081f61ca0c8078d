-- ===== src/Notification/Fanout.antt =====
-- notification/service.go and fanout.go: one event, for one user or for many. Delivery has no result:
-- a sink changes the state.
use spec_powers.Prelude.{
  String, Bool, true, false, ◌||◌, Option, none, some, List, [], ◌∷◌, any, str_eq, if◌then◌else◌,
}

pub record NotifyInput : Type 0 where
  pub user_id : String
  pub kind : String
  pub title : String
  pub body : String
  pub issue_id : String
  pub project_id : String

abbrev pub Sink : Type 0 → Type 0
Sink S = NotifyInput → S → S

-- `seen[id]`.
abbrev pub is_in : String → List String → Bool
is_in id ids = any (λ x. str_eq x id) ids

module _ {S : Type 0} where
  -- The loop of `NotifyMany`, after `seen`.
  unfoldable pub fan_out : Sink S → List String → List String → NotifyInput → S → S
  fan_out sink seen [] n s = s
  fan_out sink seen (id ∷ ids) n s = elim (str_eq id "" || is_in id seen) [
    | true ↦ fan_out sink seen ids n s
    | false ↦ fan_out sink (id ∷ seen) ids n (sink (record n { user_id = id }) s)
  ]

  -- `NotifyMany`.
  unfoldable pub notify_many : Option (Sink S) → List String → String → NotifyInput → S → S
  notify_many none ids skip n s = s
  notify_many (some sink) ids skip n s = fan_out sink (skip ∷ []) ids n s

  -- `Service.Notify` over a store's insertion, whose failure is only logged.
  unfoldable pub notify : (NotifyInput → S → S) → Sink S
  notify create n s = if str_eq n.user_id "" || str_eq n.title "" then s else create n s
