-- ===== src/Identity/Tokens.antt =====
-- identity_core/tokens.py: scoped tokens. Instants are whole numbers, all in UTC.
use meeting_bot_service.Prelude.{
  ℕ, Bool, true, false, ◌&&◌, ◌||◌, not, String, Option, none, some, List, [], ◌∷◌, ◌≡◌, ◌≢◌, ◌⊎◌,
  ◌↔◌, str_eq, eq_iff, leb, is_empty, is_nil, arith, if◌then◌else◌, inl, inr, Bool-cases,
}

-- `s in SCOPES`
abbrev pub is_scope : String → Bool
is_scope s = str_eq s "bot" || str_eq s "tx" || str_eq s "browser"

pub record ScopedToken : Type 0 where
  pub subject : String
  pub scopes : List String
  pub expires_at : Option ℕ
  pub email : Option String
  pub issued_at : Option ℕ

abbrev pub all_scopes : List String → Bool
all_scopes [] = true
all_scopes (s ∷ ss) = is_scope s && all_scopes ss

-- mint_token, which is __post_init__ on the token; `none` is the ValueError
unfoldable pub mint_token :
    String → List String → Option ℕ → Option String → Option ℕ → ℕ → Option ScopedToken
mint_token subject scopes expires_at email issued_at now =
    if is_empty subject || is_nil scopes || not (all_scopes scopes)
    then none
    else some (record {
      subject = subject;
      scopes = scopes;
      expires_at = expires_at;
      email = email;
      issued_at = elim issued_at [ none ↦ some now | some t ↦ some t ];
    })

-- ScopedToken.is_expired
abbrev pub is_expired : Option ℕ → ℕ → Bool
is_expired none now = false
is_expired (some at) now = leb at now

-- ScopedToken.has_scope
abbrev pub has_scope : List String → String → Bool
has_scope [] scope = false
has_scope (s ∷ ss) scope = str_eq s scope || has_scope ss scope

pub data Validation : Type 0 where
  valid : ScopedToken → Validation
  token_expired missing_scope : Validation

abbrev lacks : ScopedToken → Option String → Bool
lacks token none = false
lacks token (some scope) = not (has_scope token.scopes scope)

-- validate_token
unfoldable pub validate_token : ScopedToken → Option String → ℕ → Validation
validate_token token required now =
    if is_expired token.expires_at now
    then token_expired
    else if lacks token required
    then missing_scope
    else valid token

has_scope-is_scope :
    (scopes : List String) (scope : String)
    → all_scopes scopes ≡ true
    → has_scope scopes scope ≡ true
    → is_scope scope ≡ true
has_scope-is_scope [] scope all has = cc
has_scope-is_scope (s ∷ ss) scope all has =
    ground (arith, eq_iff s scope, has_scope-is_scope ss scope)

-- A minted token is valid for a scope, at a time, exactly if it has not expired by then and the scope
-- is one that it was minted with; and it is never valid for a scope outside the vocabulary.
minted_valid_iff :
    (subject : String) (scopes : List String) (expires_at : Option ℕ) (email : Option String)
    (issued_at : Option ℕ) (minted now : ℕ) (token : ScopedToken) (scope : String)
    → mint_token subject scopes expires_at email issued_at minted ≡ some token
    → ((validate_token token (some scope) now ≡ valid token)
        ↔ ((is_expired expires_at now ≡ false) × (has_scope scopes scope ≡ true)))
      × ((validate_token token (some scope) now ≢ valid token) ⊎ (is_scope scope ≡ true))
unfolding mint_token validate_token
minted_valid_iff subject scopes expires_at email issued_at minted now token scope made = (
  (λ h. ground (arith, h), λ h. ground (arith, h)),
  elim (Bool-cases (has_scope scopes scope)) [
    | inl has ↦ inr (has_scope-is_scope scopes scope (ground (arith, made)) has)
    | inr lacking ↦ inl (λ h. ground (arith, h, lacking))
  ],
)
