-- ===== src/Identity/Dispatch/Custody.antt =====
-- What is minted is verified.
use Prim.Native.Char.{Char, code}
use Prim.Native.String.append
use Prim.Native.String.{◌++◌ as join}
use meeting_bot_service.Prelude.{
  ℕ, ◌+◌, ◌≡◌, refl, ap, ◌∙◌, false, ◌||◌, ◌==◌, String, some, List, [], ◌∷◌, is_empty, eq_refl,
  leb, All, arith, if◌then◌else◌,
}
use meeting_bot_service.Identity.Dispatch.{
  WorkspaceGrant, TokenError, Verified, push, split_dots, Fields, object, lookup, Libraries,
  payload_of, token_header, b64u, b64u_decode, signing_input, sign, mint_dispatch_token,
  read_fields, read_json, read_payload, check_signature, verify_parts, verify_dispatch_token,
}
use meeting_bot_service.Identity.Dispatch.Payload.{IsGrant, read_same}
use meeting_bot_service.Identity.Dispatch.Base64.{
  has_code, IsEncoded, b64u_decode-b64u, b64u-no_dot,
}

split_dots-dot : (t : String) → split_dots (join "." t) ≡ "" ∷ split_dots t
unfolding split_dots
split_dots-dot t =
    ap split_dots (append.cons "." String.[] t ∙ ap (λ u. String.◌∷◌ "." u) (append.nil t))

-- one character in front of the first field
push_one : (c : Char) (s : String) → join (String.◌∷◌ c String.[]) s ≡ String.◌∷◌ c s
push_one c s = append.cons c String.[] s ∙ ap (λ u. String.◌∷◌ c u) (append.nil s)

split_dots-push :
    (c : Char) (s u : String) (fs : List String)
    → (code c == 46) ≡ false
    → split_dots u ≡ s ∷ fs
    → split_dots (String.◌∷◌ c u) ≡ String.◌∷◌ c s ∷ fs
unfolding split_dots
split_dots-push c s u fs plain rest =
    rw plain (ap (push (String.◌∷◌ c String.[])) rest ∙ ap (λ f. f ∷ fs) (push_one c s))

split_dots-field :
    (s t : String) → has_code 46 s ≡ false → split_dots (join s (join "." t)) ≡ s ∷ split_dots t
unfolding has_code
split_dots-field String.[] t h = ap split_dots (append.nil (join "." t)) ∙ split_dots-dot t
split_dots-field (String.◌∷◌ c s) t h =
    ap split_dots (append.cons c s (join "." t))
    ∙ split_dots-push c s (join s (join "." t)) (split_dots t) (ground (arith, h))
        (split_dots-field s t (ground (arith, h)))

split_dots-last : (s : String) → has_code 46 s ≡ false → split_dots s ≡ s ∷ []
unfolding has_code split_dots
split_dots-last String.[] h = refl
split_dots-last (String.◌∷◌ c s) h =
    split_dots-push c s s [] (ground (arith, h)) (split_dots-last s (ground (arith, h)))

module _ (L : Libraries) where
  -- the texts that a token of these fields is made of are encoded as RFC 4648 says, and the payload is read
  -- back as an object with the same values
  pub record IsFaithful (key : String) (payload : Fields) : Type 0 where
    pub header : IsEncoded L (L.dumps token_header)
    pub body : IsEncoded L (L.dumps (object payload))
    pub signature : IsEncoded L (L.digest key (signing_input L payload))
    pub loaded : Fields
    pub loads_dumps : L.loads (L.dumps (object payload)) ≡ some (object loaded)
    pub same : (name : String) → lookup loaded name ≡ lookup payload name

  signed_verifies :
      (key : String) (payload : Fields) (now : ℕ) (f : IsFaithful key payload)
      → verify_dispatch_token L (sign L key payload) key now ≡ read_fields L now f.loaded
  unfolding verify_dispatch_token sign
  signed_verifies key payload now f =
      let head = b64u L (L.dumps token_header) in
      let body = b64u L (L.dumps (object payload)) in
      let sig = L.digest key (signing_input L payload) in
      let parts =
        split_dots-field head (join body (join "." (b64u L sig)))
          (b64u-no_dot L (L.dumps token_header) f.header)
        ∙ ap (λ fs. head ∷ fs)
            (split_dots-field body (b64u L sig) (b64u-no_dot L (L.dumps (object payload)) f.body)
              ∙ ap (λ fs. body ∷ fs)
                  (split_dots-last (b64u L sig) (b64u-no_dot L sig f.signature))) in
      ap (verify_parts L key now) parts
      ∙ ap (check_signature L now sig body) (b64u_decode-b64u L sig f.signature)
      ∙ ap
          (λ b.
            if b
            then read_payload L now (b64u_decode L body)
            else Verified.raised TokenError.bad_signature)
          (eq_refl sig)
      ∙ ap (read_payload L now) (b64u_decode-b64u L (L.dumps (object payload)) f.body)
      ∙ ap (read_json L now) f.loads_dumps

  -- The chain of custody. Where base64 encodes the header, the payload and the signature as RFC 4648 says,
  -- and json.loads reads the text of json.dumps as an object with the same values: a token that is minted for
  -- a subject and a launcher, with workspaces whose modes are ro or rw, verifies under the same key, until it
  -- expires, to exactly the claims that it was minted with; from its expiry on it is refused as expired.
  pub minted_verifies :
      (subject launcher : String) (workspaces : List WorkspaceGrant) (tools : List String)
      (key : String) (ttl_sec minted now : ℕ)
      → is_empty subject ≡ false
      → is_empty launcher ≡ false
      → All IsGrant workspaces
      → IsFaithful key (payload_of subject launcher workspaces tools ttl_sec minted)
      → (token : String) × (mint_dispatch_token L subject launcher workspaces tools key ttl_sec
            minted
          ≡ Verified.ok token)
        × (verify_dispatch_token L token key now ≡ (
            if leb (minted + ttl_sec) now
            then Verified.raised TokenError.expired
            else Verified.ok (record {
              subject = subject;
              launcher = launcher;
              workspaces = workspaces;
              tools = tools;
              iat = minted;
              exp = minted + ttl_sec;
            })))
  unfolding mint_dispatch_token
  minted_verifies subject launcher workspaces tools key ttl_sec minted now named launched modes f =
      let payload = payload_of subject launcher workspaces tools ttl_sec minted in
      let given : (is_empty subject || is_empty launcher) ≡ false =
        ground (arith, named, launched) in
      (
        sign L key payload,
        rw given refl,
        signed_verifies key payload now f
            ∙ read_same L subject launcher workspaces tools ttl_sec minted now f.loaded modes
                f.same,
      )
