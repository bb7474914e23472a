-- ===== src/Spawn/Service/Capacity.antt =====
-- The cap over all ways to a row.
use mathlib.Core.Path.{subst}
use meeting_bot_service.Prelude.{
  ℕ, ◌≤◌, ◌<◌, ◌≡◌, refl, Bool, true, false, ◌||◌, none, some, pos, Option-cases, inl, inr, arith,
  if◌then◌else◌,
}
use meeting_bot_service.Spawn.Rows.{
  Meeting, Tables, Result, SpawnError, count_active_bots, reopen_meeting,
}
use meeting_bot_service.Spawn.Guarded.{at_cap, is_depleted, create_meeting_guarded}
use meeting_bot_service.Spawn.Rows.Cap.{IsKeyed, guarded_cap, reopen_cap}
use meeting_bot_service.Spawn.Service.{BotRequest, acquire, reused_row, meeting_data}

under_cap {ℓ} :
    {A : Type ℓ} (full : Bool) (made : Result A) {a : A}
    → (if full then Result.raised SpawnError.max_bots_exceeded else made) ≡ Result.ok a
    → (full ≡ false) × (made ≡ Result.ok a)
under_cap true made h = ground (arith, h)
under_cap false made h = (refl, h)

below : (n cap : ℕ) → (is_depleted (some (pos cap)) || at_cap n (some (pos cap))) ≡ false → n < cap
below n cap h = ground (arith, h)

-- Whichever way a request with a cap gets its row (an ended one is reopened, a planned one claimed, or a
-- new one inserted), the user then has at most as many active bots as the cap.
pub acquire_cap :
    (db db' : Tables) (r : BotRequest) (m : Meeting) (cap : ℕ)
    → IsKeyed db.meetings
    → r.max_concurrent ≡ some (pos cap)
    → acquire db r ≡ Result.ok (db', m)
    → count_active_bots db' r.user_id none ≤ cap
unfolding acquire
acquire_cap db db' r m cap keyed capped h = elim (Option-cases (reused_row db r)) [
  | inl fresh ↦
      guarded_cap db db' r.user_id cap r.platform r.native_meeting_id (meeting_data r) m keyed (
        subst
          (λ c.
            create_meeting_guarded db r.user_id r.platform r.native_meeting_id (meeting_data r) c
            ≡ Result.ok (db', m))
          capped (rw (acquire, fresh) at h))
  | inr (old, again) ↦
      let n = count_active_bots db r.user_id (some old.id) in
      let (room, made) =
        under_cap (is_depleted r.max_concurrent || at_cap n r.max_concurrent)
          (reopen_meeting db old) (rw (acquire, again) at h) in
      reopen_cap db db' r.user_id cap old m keyed
        (below n cap (subst (λ c. (is_depleted c || at_cap n c) ≡ false) capped room)) made
]
