-- ===== src/Runtime/Enforcement/Limits.antt =====
-- Which workloads are past a limit, apart from the code of the Enforcer, and that its verdict says so.
use meeting_bot_service.Prelude.{
  ℕ, ◌+◌, ◌≤◌, ◌<◌, ◌⊎◌, ◌↔◌, true, String, Option, none, some, List, [], ◌∷◌, ◌≡◌, refl, ◌∙◌, sym,
  ap, Bool-cases, inl, inr, get, arith, Option-cases,
}
use meeting_bot_service.Runtime.Models.{RuntimeState, StopReason, WorkloadSpec, Profile}
use meeting_bot_service.Runtime.Store.{WorkloadRecord}
use meeting_bot_service.Runtime.Kernel.{Config}
use meeting_bot_service.Runtime.Enforcement.{
  Track, Tracked, or_else, passed, limit_hit, limits_by, effective_limits, verdict,
}

-- the time since `since` has reached the limit that a workload has, its own or else its profile's; a
-- limit of 0 is none
abbrev pub IsPast : Option ℕ → Option ℕ → ℕ → ℕ → Type 0
IsPast own profile since now =
    (limit : ℕ) × ((own ≡ some limit) ⊎ ((own ≡ none) × (profile ≡ some limit)))
    × (0 < limit)
    × (since + limit ≤ now)

abbrev pub limit_in : Option Profile → (Profile → Option ℕ) → Option ℕ
limit_in none limit = none
limit_in (some p) limit = limit p

-- a limit of the profile of a workload, if there is such a profile
abbrev pub profile_limit : Config → WorkloadSpec → (Profile → Option ℕ) → Option ℕ
profile_limit cfg spec limit = limit_in (get cfg.profiles spec.profile) limit

-- the record runs, is tracked, and has outlived its lifetime; or it has not, and has been idle, since
-- its last activity, for its idle limit
abbrev pub IsDue : Config → Tracked → ℕ → WorkloadRecord → StopReason → Type 0
IsDue cfg tracked now r reason =
    let outlived = λ (t : Track).
      IsPast r.spec.max_lifetime_sec (profile_limit cfg r.spec (λ p. p.max_lifetime_sec)) t.started
        now in
    (t : Track) × (get tracked r.status.workload_id ≡ some t)
    × (r.status.state ≡ RuntimeState.running)
    × (((reason ≡ StopReason.max_lifetime) × outlived t)
        ⊎ ((reason ≡ StopReason.idle_timeout)
            × (outlived t → ⊥)
            × IsPast r.spec.idle_timeout_sec (profile_limit cfg r.spec (λ p. p.idle_timeout_sec))
                t.last_active now))

-- the ids are those of the records that are due, in the order of the store
abbrev pub Picked : Config → Tracked → ℕ → List WorkloadRecord → List String → Type 0
Picked cfg tracked now [] ids = ids ≡ []
Picked cfg tracked now (r ∷ rs) ids =
    ((reason : StopReason) × IsDue cfg tracked now r reason
      × ((later : List String) × (ids ≡ r.status.workload_id ∷ later)
          × Picked cfg tracked now rs later))
    ⊎ (((reason : StopReason) → IsDue cfg tracked now r reason → ⊥) × Picked cfg tracked now rs ids)

-- the test of the code is the limit
passed_iff :
    (own profile : Option ℕ) (since now : ℕ)
    → (passed (or_else own profile) since now ≡ true) ↔ IsPast own profile since now
passed_iff none none since now = (
  λ h. absurd (ground (arith, h)),
  λ (limit, has, rest, over).
      absurd (elim has [ inl e ↦ ground (arith, e) | inr (_, e) ↦ ground (arith, e) ]),
)
passed_iff none (some limit) since now = (
  λ h. (limit, inr (refl, refl), ground (arith, h), ground (arith, h)),
  λ (limit', has, some_time, over). elim has [
    | inl e ↦ absurd (ground (arith, e))
    | inr (_, e) ↦ ground (arith, e, some_time, over)
  ],
)
passed_iff (some limit) profile since now = (
  λ h. (limit, inl refl, ground (arith, h), ground (arith, h)),
  λ (limit', has, some_time, over). elim has [
    | inl e ↦ ground (arith, e, some_time, over)
    | inr (e, _) ↦ absurd (ground (arith, e))
  ],
)

or_else-none : (o : Option ℕ) → or_else o none ≡ o
or_else-none none = refl
or_else-none (some n) = refl

limits_by-each :
    (spec : WorkloadSpec) (o : Option Profile)
    → limits_by spec o ≡ (
      or_else spec.idle_timeout_sec (limit_in o (λ p. p.idle_timeout_sec)),
      or_else spec.max_lifetime_sec (limit_in o (λ p. p.max_lifetime_sec)),
    )
limits_by-each spec none =
    ap (λ i. (i, spec.max_lifetime_sec)) (sym (or_else-none spec.idle_timeout_sec))
    ∙ ap (λ m. (or_else spec.idle_timeout_sec none, m)) (sym (or_else-none spec.max_lifetime_sec))
limits_by-each spec (some p) = refl

-- the verdict on a tracked workload that runs
verdict_known :
    (cfg : Config) (tracked : Tracked) (now : ℕ) (r : WorkloadRecord) (t : Track)
    → get tracked r.status.workload_id ≡ some t
    → r.status.state ≡ RuntimeState.running
    → verdict cfg tracked now r
      ≡ limit_hit
          (
            or_else r.spec.idle_timeout_sec (profile_limit cfg r.spec (λ p. p.idle_timeout_sec)),
            or_else r.spec.max_lifetime_sec (profile_limit cfg r.spec (λ p. p.max_lifetime_sec)),
          )
          t
          now
unfolding verdict effective_limits
verdict_known cfg tracked now r t known runs =
    rw (known, runs)
      (ap (λ l. limit_hit l t now) (limits_by-each r.spec (get cfg.profiles r.spec.profile)))

verdict_tracked :
    (cfg : Config) (tracked : Tracked) (now : ℕ) (r : WorkloadRecord) (reason : StopReason)
    → verdict cfg tracked now r ≡ some reason
    → (t : Track) × (get tracked r.status.workload_id ≡ some t)
      × (r.status.state ≡ RuntimeState.running)
unfolding verdict
verdict_tracked cfg tracked now r reason h =
    elim (Option-cases (get tracked r.status.workload_id)) [
      | inl unknown ↦ absurd (ground (arith, h, unknown))
      | inr (t, known) ↦ (t, known, ground (arith, h))
    ]

-- what the verdict says is due
pub verdict_due :
    (cfg : Config) (tracked : Tracked) (now : ℕ) (r : WorkloadRecord) (reason : StopReason)
    → verdict cfg tracked now r ≡ some reason
    → IsDue cfg tracked now r reason
unfolding limit_hit
verdict_due cfg tracked now r reason h =
    let (t, known, runs) = verdict_tracked cfg tracked now r reason h in
    let own_life = r.spec.max_lifetime_sec in
    let life = profile_limit cfg r.spec (λ p. p.max_lifetime_sec) in
    let own_idle = r.spec.idle_timeout_sec in
    let idle = profile_limit cfg r.spec (λ p. p.idle_timeout_sec) in
    let hit = sym (verdict_known cfg tracked now r t known runs) ∙ h in
    elim (Bool-cases (passed (or_else own_life life) t.started now)) [
      | inl out ↦ (
        t,
        known,
        runs,
        inl (ground (arith, hit, out), (passed_iff own_life life t.started now).0 out),
      )
      | inr young ↦ (
        t,
        known,
        runs,
        inr (
          ground (arith, hit, young),
          (λ old. ground (arith, young, (passed_iff own_life life t.started now).1 old)),
          (passed_iff own_idle idle t.last_active now).0 (ground (arith, hit, young)),
        ),
      )
    ]

-- what is due has its verdict
due_verdict :
    (cfg : Config) (tracked : Tracked) (now : ℕ) (r : WorkloadRecord) (reason : StopReason)
    → IsDue cfg tracked now r reason
    → verdict cfg tracked now r ≡ some reason
unfolding limit_hit
due_verdict cfg tracked now r reason (t, known, runs, why) =
    let own_life = r.spec.max_lifetime_sec in
    let life = profile_limit cfg r.spec (λ p. p.max_lifetime_sec) in
    let own_idle = r.spec.idle_timeout_sec in
    let idle = profile_limit cfg r.spec (λ p. p.idle_timeout_sec) in
    verdict_known cfg tracked now r t known runs ∙ elim why [
      | inl (named, out) ↦ ground (arith, named, (passed_iff own_life life t.started now).1 out)
      | inr (named, young, quiet) ↦
          elim (Bool-cases (passed (or_else own_life life) t.started now)) [
            | inl out ↦ absurd (young ((passed_iff own_life life t.started now).0 out))
            | inr still ↦
                ground (arith, named, still, (passed_iff own_idle idle t.last_active now).1 quiet)
          ]
    ]

-- without a verdict nothing is due
pub undue :
    (cfg : Config) (tracked : Tracked) (now : ℕ) (r : WorkloadRecord)
    → verdict cfg tracked now r ≡ none
    → (reason : StopReason) → IsDue cfg tracked now r reason
    → ⊥
undue cfg tracked now r kept reason due =
    ground (arith, sym kept ∙ due_verdict cfg tracked now r reason due)
