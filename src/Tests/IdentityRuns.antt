-- ===== src/Tests/IdentityRuns.antt =====
-- The theorem on identity_core/access.py, for one recording.
use meeting_bot_service.Prelude.{true, false, some, ◌≡◌, ◌↔◌, is_empty}
use meeting_bot_service.Identity.Access.{Resource, Reason, can_access, allow_iff}
use meeting_bot_service.Identity.Access as Access

abbrev tape : Resource
tape = record { kind = "recording"; id = "7"; owner = some "alice" }

allow_iff_example :
    let d = can_access "alice" tape "read" in
    ((d.allow ≡ true) ↔ ((is_empty "alice" ≡ false) × (tape.owner ≡ some "alice")))
    × ((d.reason ≡ Access.owner) ↔ (d.allow ≡ true))
    × (d.subject ≡ "alice")
    × (d.resource_kind ≡ "recording")
    × (d.resource_id ≡ "7")
    × (d.action ≡ "read")
allow_iff_example = allow_iff "alice" tape "read"
