-- ===== src/Webhooks/Guard/Dials.antt =====
-- What the guard lets through.
use meeting_bot_service.Prelude.{
  ℕ, ◌+◌, ◌<◌, ◌≡◌, refl, ap, ◌∙◌, Bool, true, false, not, ◌&&◌, String, Option, List, [], ◌∷◌,
  one_of, str_eq, eq_iff, arith, Bool-cases, inl, inr, if_split,
}
use meeting_bot_service.Webhooks.Guard.{
  Address, v6, is_blocked_address, Checked, Dial, is_blocked_ip, is_literal, any_blocked,
  validate_resolved_ips, check_host, is_blocked_hostname, revalidate_at_connect, dial_checked,
  handle_request, SsrfError,
}

module _ (ip_address : String → Option Address) (resolver : String → List String) where
  abbrev blocks : String → Bool
  blocks t = is_blocked_ip ip_address resolver t

  -- the dial is refused, or made to an address that is not blocked
  abbrev pub IsPublic : Dial → Type 0
  IsPublic (Dial.refused e) = Unit
  IsPublic (Dial.dialled t) = blocks t ≡ false

  one_of-any_blocked :
      (h : String) (ts : List String)
      → one_of h ts ≡ true
      → any_blocked ip_address resolver ts ≡ false
      → blocks h ≡ false
  unfolding one_of
  one_of-any_blocked h [] e k = ground (arith, e)
  one_of-any_blocked h (t ∷ ts) e k = elim (Bool-cases (str_eq h t)) [
    | inl same ↦ ap blocks ((eq_iff h t).0 same) ∙ ground (arith, k)
    | inr other ↦ one_of-any_blocked h ts (ground (arith, e, other)) (ground (arith, k))
  ]

  resolved-IsPublic :
      (host : String) (literal : Bool) (ts : List String)
      → (literal ≡ true → one_of host ts ≡ true)
      → IsPublic (
          dial_checked ip_address resolver host literal
            (validate_resolved_ips ip_address resolver ts))
  unfolding validate_resolved_ips
  resolved-IsPublic host literal [] own = tt
  resolved-IsPublic host literal (t ∷ ts) own =
      if_split (λ c. IsPublic (dial_checked ip_address resolver host literal c))
        (any_blocked ip_address resolver (t ∷ ts)) (Checked.ssrf_error SsrfError.internal_target)
        (Checked.ok (t ∷ ts)) (λ _. tt)
        (λ open_all.
          if_split IsPublic literal (Dial.dialled host) (Dial.dialled t)
            (λ lit. one_of-any_blocked host (t ∷ ts) (own lit) open_all)
            (λ _. ground (arith, open_all)))

  check-IsPublic :
      (host : String)
      → (is_literal ip_address resolver host ≡ true → one_of host (resolver host) ≡ true)
      → IsPublic (
          dial_checked ip_address resolver host
            (is_literal ip_address resolver host)
            (check_host ip_address resolver host))
  unfolding check_host
  check-IsPublic host own =
      let literal = is_literal ip_address resolver host in
      if_split (λ c. IsPublic (dial_checked ip_address resolver host literal c))
        (literal && not (blocks host)) (Checked.ok (host ∷ []))
        (validate_resolved_ips ip_address resolver (resolver host))
        (λ h.
          if_split IsPublic literal (Dial.dialled host) (Dial.dialled host) (λ _. ground (arith, h))
            (λ _. ground (arith, h)))
        (λ _. resolved-IsPublic host literal (resolver host) own)

  -- A pinned dial goes to no blocked address: for every host, where a resolver that is asked for a literal
  -- address answers with that address among others or alone, the dial is refused or made to an address
  -- outside the blocked networks, whatever the resolver answered when the url was validated.
  pub handle_request-IsPublic :
      (host : String)
      → (is_literal ip_address resolver host ≡ true → one_of host (resolver host) ≡ true)
      → IsPublic (handle_request ip_address resolver host)
  unfolding handle_request revalidate_at_connect
  handle_request-IsPublic host own =
      let literal = is_literal ip_address resolver host in
      if_split (λ c. IsPublic (dial_checked ip_address resolver host literal c))
        (is_blocked_hostname host) (Checked.ssrf_error SsrfError.internal_target)
        (check_host ip_address resolver host) (λ _. tt) (λ _. check-IsPublic host own)

  -- The check on literal addresses is undone by the handler around it: a literal in a blocked network is
  -- dialled where the resolver answers it with an address outside of them.
  pub blocked_literal_dialled :
      (host t : String)
      → is_blocked_hostname host ≡ false
      → is_literal ip_address resolver host ≡ true
      → is_blocked_ip ip_address resolver host ≡ true
      → resolver host ≡ t ∷ []
      → is_blocked_ip ip_address resolver t ≡ false
      → handle_request ip_address resolver host ≡ Dial.dialled host
  unfolding handle_request revalidate_at_connect check_host validate_resolved_ips
  blocked_literal_dialled host t name literal blocked answer public =
      rw (name) (rw (literal) (rw (blocked) (rw (answer) (rw public refl))))

-- An IPv4 address that is written as an IPv6 one (::ffff:0:0/96) is in no blocked network, whatever IPv4
-- network it lies in.
pub mapped_unblocked :
    (a : ℕ) → a < 4294967296 → is_blocked_address (v6 (281470681743360 + a)) ≡ false
mapped_unblocked a h = ground (arith, h)
