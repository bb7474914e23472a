-- ===== src/Identity/Access.antt =====
-- identity_core/access.py: the default-deny policy.
use meeting_bot_service.Prelude.{
  Bool, true, false, ◌||◌, String, Option, none, some, ◌≡◌, ◌↔◌, str_eq, eq_iff, is_empty, arith,
  if◌then◌else◌, Option-cases, inl, inr,
}

-- the reasons of a decision that this adapter gives
pub data Reason : Type 0 where
  owner not_owner default_deny : Reason

pub record Resource : Type 0 where
  pub kind : String
  pub id : String
  pub owner : Option String

-- RESOURCE_KINDS
abbrev pub is_resource_kind : String → Bool
is_resource_kind k =
    str_eq k "meeting_transcript" || str_eq k "recording" || str_eq k "ws_subscribe"

-- Resource(…); `none` is the ValueError
unfoldable pub resource : String → String → Option String → Option Resource
resource kind id owned_by =
    if is_resource_kind kind then some (record { kind = kind; id = id; owner = owned_by }) else none

pub record AccessDecision : Type 0 where
  pub allow : Bool
  pub subject : String
  pub resource_kind : String
  pub resource_id : String
  pub action : String
  pub reason : Reason

-- OwnerOnlyPolicy.decide
unfoldable pub decide_access : String → Resource → String → AccessDecision
decide_access subject r action =
    let decision : Bool → Reason → AccessDecision = λ allow reason. record {
      allow = allow;
      subject = subject;
      resource_kind = r.kind;
      resource_id = r.id;
      action = action;
      reason = reason;
    } in
    elim r.owner [
      | none ↦ decision false default_deny
      | some o ↦
          if is_empty subject
          then decision false default_deny
          else if str_eq subject o
          then decision true owner
          else decision false not_owner
    ]

-- can_access with no policy of the caller's
abbrev pub can_access : String → Resource → String → AccessDecision
can_access subject r action = decide_access subject r action

-- Access is allowed exactly to a subject that has a name and is the recorded owner, with `owner` as
-- the reason of exactly these decisions; and the decision is about what was asked.
pub allow_iff :
    (subject : String) (r : Resource) (action : String)
    → let d = can_access subject r action in
      ((d.allow ≡ true) ↔ ((is_empty subject ≡ false) × (r.owner ≡ some subject)))
      × ((d.reason ≡ owner) ↔ (d.allow ≡ true))
      × (d.subject ≡ subject)
      × (d.resource_kind ≡ r.kind)
      × (d.resource_id ≡ r.id)
      × (d.action ≡ action)
unfolding decide_access
allow_iff subject r action = elim (Option-cases r.owner) [
  | inl unowned ↦ ground (arith, unowned)
  | inr (o, owned) ↦ ground (arith, owned, eq_iff subject o)
]
