-- ===== src/Gateway/WsGuard/Admissions.antt =====
-- How many connects of one address the guard admits in a window.
use meeting_bot_service.Prelude.{
  ℕ, ◌+◌, ◌≤◌, ◌<◌, Bool, true, false, String, Option, none, some, List, [], ◌∷◌, ◌++◌, ◌≡◌, ◌∙◌,
  refl, sym, get, remove, get-put_self, get-remove_self, length, ltb, leb, arith, Option-cases,
  Bool-cases, inl, inr, if◌then◌else◌, ◌⊎◌,
}
use meeting_bot_service.Gateway.WsGuard.{
  GuardConfig, WsGuard, fresh_guard, times_of, count_of, prune, ip_matches, strike, limit_rate,
  heed_ban, check,
}
use meeting_bot_service.Gateway.WsGuard.Windows.{
  recent, Covers, unmet, waited, pruned, admit, banish, recent-Covers, no_ban,
}

-- the connects of one address at the times, and the times of those admitted
unfoldable pub admissions :
    (String → String → Bool) → GuardConfig → WsGuard → String → List ℕ → List ℕ
unfolding check
admissions in_network cfg g ip [] = []
admissions in_network cfg g ip (now ∷ times) =
    let (g', ok) = check in_network cfg g ip now in
    let rest = admissions in_network cfg g' ip times in if ok then now ∷ rest else rest

-- times that do not go back
unfoldable pub IsOrdered : ℕ → List ℕ → Type 0
IsOrdered last [] = Unit
IsOrdered last (t ∷ ts) = last ≤ t × IsOrdered t ts

-- each time has fewer than the limit of the earlier ones in its window
unfoldable pub IsSpaced : GuardConfig → List ℕ → List ℕ → Type 0
IsSpaced cfg earlier [] = Unit
IsSpaced cfg earlier (t ∷ ts) =
    recent cfg.rate_limit_window t earlier < cfg.rate_limit × IsSpaced cfg (earlier ++ t ∷ []) ts

module _ (cfg : GuardConfig) (ip : String) where
  -- what holds of a guard, and of the answer to a connect at `now`
  Holds : WsGuard → List ℕ → ℕ → Type 0
  Holds g = Covers cfg.rate_limit_window (times_of (get g.rl ip)) (get g.bans ip)

  Decides : WsGuard × Bool → List ℕ → ℕ → Type 0
  Decides r admitted now =
      ((r.1 ≡ true)
        × (recent cfg.rate_limit_window now admitted < cfg.rate_limit)
        × Holds r.0 (admitted ++ now ∷ []) now)
      ⊎ ((r.1 ≡ false) × Holds r.0 admitted now)

  module _ (on : cfg.enable_rate_limiting ≡ true)
      (long : cfg.rate_limit_window ≤ cfg.auto_ban_duration) where
    strike-Holds :
        (g : WsGuard) (admitted : List ℕ) (now : ℕ) (bucket : List ℕ)
        → get g.bans ip ≡ none
        → Covers cfg.rate_limit_window bucket none admitted now
        → Holds (strike cfg g ip now bucket) admitted now
    unfolding strike Holds
    strike-Holds g admitted now bucket free c = elim (Bool-cases cfg.enable_ip_banning) [
      | inl ban ↦
          elim (Bool-cases (leb cfg.auto_ban_threshold (count_of (get g.ban_counts ip) + 1))) [
            | inl many ↦ rw ban (
                rw many (
                  rw (get-put_self g.rl ip []) (
                    rw (get-put_self g.bans ip (now + cfg.auto_ban_duration)) (
                      banish cfg.rate_limit_window cfg.auto_ban_duration bucket admitted now long
                        c))))
            | inr few ↦ rw ban (rw few (rw (get-put_self g.rl ip bucket) (rw free c)))
          ]
      | inr keep ↦ rw keep (rw (get-put_self g.rl ip bucket) (rw free c))
    ]

    limit_rate-Decides :
        (g : WsGuard) (admitted : List ℕ) (now : ℕ)
        → get g.bans ip ≡ none
        → Covers cfg.rate_limit_window
            (prune cfg.rate_limit_window now (times_of (get g.rl ip)))
            none
            admitted
            now
        → Decides (limit_rate cfg g ip now) admitted now
    unfolding limit_rate Decides Holds
    limit_rate-Decides g admitted now free c =
        let bucket = prune cfg.rate_limit_window now (times_of (get g.rl ip)) in
        elim (Bool-cases (leb cfg.rate_limit (length bucket))) [
          | inl full ↦ rw on (rw full (inr (refl, strike-Holds g admitted now bucket free c)))
          | inr room ↦ rw on (
              rw room (
                inl (
                  refl,
                  ground (arith, room, recent-Covers cfg.rate_limit_window bucket admitted now c),
                  rw (get-put_self g.rl ip (bucket ++ now ∷ []))
                      (rw free (admit cfg.rate_limit_window bucket admitted now c)),
                )))
        ]

    -- after the ban, or without one
    proceed :
        (g : WsGuard) (admitted : List ℕ) (last now : ℕ) (ban : Option ℕ)
        → Covers cfg.rate_limit_window (times_of (get g.rl ip)) ban admitted last
        → last ≤ now
        → ((unban : ℕ) → ban ≡ some unban → unban ≤ now)
        → get g.bans ip ≡ none
        → Decides (limit_rate cfg g ip now) admitted now
    proceed g admitted last now ban c later over free =
        limit_rate-Decides g admitted now free
          (pruned cfg.rate_limit_window (times_of (get g.rl ip)) ban admitted last now c later over)

    heed_ban-Decides :
        (g : WsGuard) (admitted : List ℕ) (last now : ℕ)
        → Holds g admitted last
        → last ≤ now
        → Decides (heed_ban cfg g ip now) admitted now
    unfolding heed_ban Holds Decides
    heed_ban-Decides g admitted last now c later = elim (Option-cases (get g.bans ip)) [
      | inl free ↦
          rw (heed_ban, free)
            (proceed g admitted last now (get g.bans ip) c later
              (λ u e. no_ban now u (sym free ∙ e)) free)
      | inr (unban, e) ↦ elim (Bool-cases (ltb now unban)) [
        | inl banned ↦
            rw (heed_ban, e, banned)
              (inr (
                refl,
                waited cfg.rate_limit_window (times_of (get g.rl ip)) (get g.bans ip) admitted last
                    now c later,
              ))
        | inr over ↦
            rw (heed_ban, e, over)
              (proceed (record g { bans = remove g.bans ip }) admitted last now (get g.bans ip) c
                later (λ u e'. ground (arith, over, sym e ∙ e')) (get-remove_self g.bans ip))
      ]
    ]

    module _ (in_network : String → String → Bool)
        (outside : ip_matches in_network ip cfg.whitelist ≡ false) where
      check-Decides :
          (g : WsGuard) (admitted : List ℕ) (last now : ℕ)
          → Holds g admitted last
          → last ≤ now
          → Decides (check in_network cfg g ip now) admitted now
      unfolding check Holds Decides
      check-Decides g admitted last now c later =
          elim (Bool-cases (ip_matches in_network ip cfg.blacklist)) [
            | inl black ↦
                rw (outside, black)
                  (inr (
                    refl,
                    waited cfg.rate_limit_window (times_of (get g.rl ip)) (get g.bans ip) admitted
                        last now c later,
                  ))
            | inr clear ↦ rw (outside, clear) (heed_ban-Decides g admitted last now c later)
          ]

      run_limited :
          (g : WsGuard) (admitted : List ℕ) (last : ℕ) (times : List ℕ)
          → Holds g admitted last
          → IsOrdered last times
          → IsSpaced cfg admitted (admissions in_network cfg g ip times)
      unfolding admissions IsOrdered IsSpaced Decides
      run_limited g admitted last [] c h = tt
      run_limited g admitted last (now ∷ times) c (later, h) =
          elim (check-Decides g admitted last now c later) [
            | inl (let_in, room, c') ↦ rw let_in (
              room,
              run_limited (check in_network cfg g ip now).0 (admitted ++ now ∷ []) now times c' h,
            )
            | inr (kept_out, c') ↦
                rw kept_out (run_limited (check in_network cfg g ip now).0 admitted now times c' h)
          ]

-- From a fresh guard, an address that is not on the whitelist, with rate limiting on and a window no
-- longer than a ban, connects at times that do not go back: at every admission fewer than
-- `rate_limit` of the earlier admissions lie in the window before it, whatever bans come between.
pub admissions_limited :
    (in_network : String → String → Bool) (cfg : GuardConfig) (ip : String) (times : List ℕ)
    → cfg.enable_rate_limiting ≡ true
    → cfg.rate_limit_window ≤ cfg.auto_ban_duration
    → ip_matches in_network ip cfg.whitelist ≡ false
    → IsOrdered 0 times
    → IsSpaced cfg [] (admissions in_network cfg fresh_guard ip times)
unfolding Holds get
admissions_limited in_network cfg ip times on long outside ordered =
    run_limited cfg ip on long in_network outside fresh_guard [] 0 times start ordered
  where
    start : Holds cfg ip fresh_guard [] 0
    start = unmet cfg.rate_limit_window
