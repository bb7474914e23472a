-- ===== src/Lifecycle/Reconcile/Windows.antt =====
-- The window of an untracked meeting over a sequence of sweeps.
use mathlib.Core.Option
use meeting_bot_service.Prelude.{
  ℕ, ◌-◌, ◌≤◌, ◌<◌, true, ◌&&◌, String, none, some, List, [], ◌∷◌, ◌++◌, ◌≡◌, refl, get,
  get-put_self, ◌∙◌, Option-cases, inl, inr, eq_refl, eq_iff, arith, All, if◌then◌else◌,
}
use meeting_bot_service.Lifecycle.Reconcile.{
  Body, Call, posted, asked_state, Ports, not_found, workload_of, probe_bot_workload, post, Tracker,
  first_seen, untracked_window_elapsed, escalation,
}
use meeting_bot_service.Lifecycle.Reconcile.Sweeps.{
  Row, Sweep, is_live_nonterminal, has_container, escalate, observe_untracked, sweep_row,
  sweep_rows, among, keep_seen, reconcile_stale_nonterminal_sweep,
}
use meeting_bot_service.Lifecycle.Reconcile.Evidence.{count_posts, count_posts-append}
use meeting_bot_service.Lifecycle.Reconcile.Terminals.{event_of, HasEnded, ending_lands}
use meeting_bot_service.Lifecycle.Types.{CompletionReason, TransitionSource, reason_value}
use meeting_bot_service.Lifecycle.Machine.{MeetingRecord, MeetingStore}
use meeting_bot_service.Lifecycle.Sink.{apply_change}

get-keep_seen :
    (tracker : Tracker) (seen : List String) (id : String)
    → get (keep_seen tracker seen) id ≡ (if among id seen then get tracker id else none)
unfolding keep_seen get
get-keep_seen [] seen id = ground arith
get-keep_seen ((j, t) ∷ tracker) seen id =
    ground (arith, eq_iff j id, get-keep_seen tracker seen id)

module _ (ports : Ports) (grace : ℕ) (row : Row) (workload : String) where
  -- the sweeps at the given times find the one row; the calls made, and the tracker left
  unfoldable pub sweeps : List Call → Tracker → List ℕ → Sweep
  sweeps calls tracker [] = record { calls = calls; tracker = tracker; seen = []; reconciled = 0 }
  sweeps calls tracker (now ∷ nows) =
      let s = reconcile_stale_nonterminal_sweep ports grace now calls tracker (some (row ∷ [])) in
      sweeps s.calls s.tracker nows

  module _ (live : is_live_nonterminal row.status && has_container row.container ≡ true)
      (tracked : workload_of ports.has_runtime row.container ≡ some workload)
      (lost : (calls : List Call) → ports.get_workload calls workload ≡ not_found) where
    sweep_row_observes :
        (now : ℕ) (s : Sweep)
        → sweep_row ports grace now s row
          ≡ observe_untracked ports grace now
              (record s { calls = s.calls ++ asked_state workload not_found ∷ [] })
              row
    unfolding sweep_row probe_bot_workload
    sweep_row_observes now s = ground (arith, live, tracked, lost s.calls)

    asked_posts :
        (calls : List Call)
        → count_posts (calls ++ asked_state workload not_found ∷ []) ≡ count_posts calls
    asked_posts calls =
        ground (arith, count_posts-append calls (asked_state workload not_found ∷ []))

    observe_waits :
        (s : Sweep) (first now : ℕ)
        → Option.get_or (get s.tracker row.meeting_id) now ≡ first
        → now - first ≤ grace
        → let s' = observe_untracked ports grace now s row in
          (s'.calls ≡ s.calls)
          × (get s'.tracker row.meeting_id ≡ some first)
          × (s'.seen ≡ s.seen ++ row.meeting_id ∷ [])
    unfolding observe_untracked untracked_window_elapsed first_seen
    observe_waits s first now since early = elim (Option-cases (get s.tracker row.meeting_id)) [
      | inl fresh ↦ ground (arith, fresh, since, early, get-put_self s.tracker row.meeting_id now)
      | inr (t, found) ↦ ground (arith, found, since, early)
    ]

    sweep_waits :
        (calls : List Call) (tracker : Tracker) (first now : ℕ)
        → Option.get_or (get tracker row.meeting_id) now ≡ first
        → now - first ≤ grace
        → let s =
            reconcile_stale_nonterminal_sweep ports grace now calls tracker (some (row ∷ [])) in
          (count_posts s.calls ≡ count_posts calls) × (get s.tracker row.meeting_id ≡ some first)
    unfolding reconcile_stale_nonterminal_sweep sweep_rows
    sweep_waits calls tracker first now since early =
        let begun : Sweep = record {
          calls = calls;
          tracker = tracker;
          seen = [];
          reconciled = 0;
        } in
        let asked : Sweep = record begun { calls = calls ++ asked_state workload not_found ∷ [] } in
        let s = observe_untracked ports grace now asked row in
        let (same, kept, noted) = observe_waits asked first now since early in
        rw (sweep_row_observes now begun) (
          ground (arith, same, asked_posts calls),
          ground (
            arith,
            kept,
            noted,
            get-keep_seen s.tracker s.seen row.meeting_id,
            eq_refl row.meeting_id,
          ),
        )

    sweeps_wait :
        (nows : List ℕ) (calls : List Call) (tracker : Tracker) (first : ℕ)
        → get tracker row.meeting_id ≡ some first
        → All (λ (now : ℕ). now - first ≤ grace) nows
        → let s = sweeps calls tracker nows in
          (count_posts s.calls ≡ count_posts calls) × (get s.tracker row.meeting_id ≡ some first)
    unfolding sweeps
    sweeps_wait [] calls tracker first since early = (refl, since)
    sweeps_wait (now ∷ nows) calls tracker first since early =
        let s = reconcile_stale_nonterminal_sweep ports grace now calls tracker (some (row ∷ [])) in
        let (quiet, kept) = sweep_waits calls tracker first now (ground (arith, since)) early.0 in
        let (quiet', kept') = sweeps_wait nows s.calls s.tracker first kept early.1 in
        (quiet' ∙ quiet, kept')

    sweep_escalates :
        ((calls : List Call) (body : Body) → ports.post_lifecycle calls body ≡ true)
        → (calls : List Call) (tracker : Tracker) (first now : ℕ)
        → get tracker row.meeting_id ≡ some first
        → grace < now - first
        → let s =
            reconcile_stale_nonterminal_sweep ports grace now calls tracker (some (row ∷ [])) in
          (s.calls
            ≡ (calls ++ asked_state workload not_found ∷ [])
              ++ posted (escalation row.status row.session_uid row.container grace) true ∷ [])
          × (s.reconciled ≡ 1)
    unfolding reconcile_stale_nonterminal_sweep sweep_rows observe_untracked
        untracked_window_elapsed first_seen escalate post
    sweep_escalates lands calls tracker first now since late =
        let begun : Sweep = record {
          calls = calls;
          tracker = tracker;
          seen = [];
          reconciled = 0;
        } in
        let asked = calls ++ asked_state workload not_found ∷ [] in
        let body = escalation row.status row.session_uid row.container grace in
        rw (sweep_row_observes now begun) (
          ground (arith, since, late, lands asked body),
          ground (arith, since, late, lands asked body),
        )

    -- A live meeting whose workload the runtime has forgotten, swept again and again: from the sweep
    -- that first sees it so, at `first`, none posts anything while the grace time lasts. The first
    -- sweep after it asks the runtime once more and then posts, if the post returns, one body: for the
    -- session of the row, `failed` as left_alone. Taken as a forced terminal, this body leaves the
    -- record of that session completed or failed, whatever state the store had it in.
    pub zombie_converges :
        ((calls : List Call) (body : Body) → ports.post_lifecycle calls body ≡ true)
        → (first late : ℕ) (nows : List ℕ) (calls : List Call) (tracker : Tracker)
          (store : MeetingStore) (source : TransitionSource) (stamp : String)
        → get tracker row.meeting_id ≡ none
        → All (λ (now : ℕ). now - first ≤ grace) nows
        → grace < late - first
        → let s = sweeps calls tracker (first ∷ nows) in
          let e =
            reconcile_stale_nonterminal_sweep ports grace late s.calls s.tracker
              (some (row ∷ [])) in
          (count_posts s.calls ≡ count_posts calls)
          × (e.reconciled ≡ 1)
          × ((body : Body) × (e.calls
                ≡ (s.calls ++ asked_state workload not_found ∷ []) ++ posted body true ∷ [])
              × (body.connection_id ≡ row.session_uid)
              × (body.status ≡ "failed")
              × (body.completion_reason ≡ "left_alone")
              × ((rec : MeetingRecord) × (get
                      (apply_change true store (event_of body) source stamp).0
                      row.session_uid
                    ≡ some rec)
                  × HasEnded rec))
    unfolding sweeps escalation reason_value
    zombie_converges lands first late nows calls tracker store source stamp fresh early over =
        let one =
          reconcile_stale_nonterminal_sweep ports grace first calls tracker (some (row ∷ [])) in
        let (quiet, kept) =
          sweep_waits calls tracker first first (ground (arith, fresh)) (omega arith) in
        let (quiet', kept') = sweeps_wait nows one.calls one.tracker first kept early in
        let s = sweeps one.calls one.tracker nows in
        let (told, counted) = sweep_escalates lands s.calls s.tracker first late kept' over in
        let body = escalation row.status row.session_uid row.container grace in
        (
          quiet' ∙ quiet,
          counted,
          (
            body,
            told,
            refl,
            refl,
            refl,
            ending_lands body store source stamp CompletionReason.left_alone (inr refl, refl),
          ),
        )
