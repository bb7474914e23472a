-- ===== src/Identity/Dispatch/Payload.antt =====
-- The payload of a token is read back as the claims that it was made from.
use meeting_bot_service.Prelude.{
  ℕ, ◌+◌, ◌≡◌, refl, ap, ◌∙◌, ◌⊎◌, inl, inr, String, List, [], ◌∷◌, All, leb, if◌then◌else◌,
}
use meeting_bot_service.Identity.Dispatch.{
  WorkspaceGrant, DispatchClaims, TokenError, Verified, Fields, lookup, Libraries, and_then,
  workspace_grant, grants_of, texts_of, grant_values, text_values, payload_of, unless_expired,
  read_fields,
}

-- a grant has passed the check of its mode
abbrev pub IsGrant : WorkspaceGrant → Type 0
IsGrant g = (g.mode ≡ "ro") ⊎ (g.mode ≡ "rw")

workspace_grant-given :
    (g : WorkspaceGrant) → IsGrant g → workspace_grant g.id g.mode ≡ Verified.ok g
unfolding workspace_grant
workspace_grant-given g (inl e) = rw e refl
workspace_grant-given g (inr e) = rw e refl

grants_of-values :
    (gs : List WorkspaceGrant) → All IsGrant gs → grants_of (grant_values gs) ≡ Verified.ok gs
unfolding grants_of grant_values lookup
grants_of-values [] h = refl
grants_of-values (g ∷ gs) (h, hs) =
    ap
      (λ v.
        and_then v (λ g'. and_then (grants_of (grant_values gs)) (λ gs'. Verified.ok (g' ∷ gs'))))
      (workspace_grant-given g h)
    ∙ ap (λ v. and_then v (λ gs'. Verified.ok (g ∷ gs'))) (grants_of-values gs hs)

texts_of-values : (ts : List String) → texts_of (text_values ts) ≡ Verified.ok ts
unfolding texts_of text_values
texts_of-values [] = refl
texts_of-values (t ∷ ts) = ap (λ v. and_then v (λ ts'. Verified.ok (t ∷ ts'))) (texts_of-values ts)

module _ (L : Libraries) (subject launcher : String) (workspaces : List WorkspaceGrant)
    (tools : List String) (ttl_sec minted : ℕ) where
  -- the claims that a token is minted with
  abbrev pub minted_claims : DispatchClaims
  minted_claims = record {
    subject = subject;
    launcher = launcher;
    workspaces = workspaces;
    tools = tools;
    iat = minted;
    exp = minted + ttl_sec;
  }

  read_minted :
      (now : ℕ)
      → All IsGrant workspaces
      → read_fields L now (payload_of subject launcher workspaces tools ttl_sec minted) ≡ (
          if leb (minted + ttl_sec) now
          then Verified.raised TokenError.expired
          else Verified.ok minted_claims)
  unfolding payload_of lookup unless_expired
  read_minted now given = rw (grants_of-values workspaces given, texts_of-values tools) refl

  -- fields that have the values of the payload, in any order, are read as its claims
  pub read_same :
      (now : ℕ) (p : Fields)
      → All IsGrant workspaces
      → ((key : String)
          → lookup p key ≡ lookup (payload_of subject launcher workspaces tools ttl_sec minted) key)
      → read_fields L now p ≡ (
          if leb (minted + ttl_sec) now
          then Verified.raised TokenError.expired
          else Verified.ok minted_claims)
  read_same now p given same =
      rw (same "sub", same "lch", same "ws", same "tools", same "iat", same "exp")
        (read_minted now given)
