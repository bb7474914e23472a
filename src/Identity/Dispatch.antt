-- ===== src/Identity/Dispatch.antt =====
-- identity_core/dispatch_tokens.py: the tokens that carry what a dispatch may do. base64, json, int and hmac
-- of the standard library are parameters, none where the library raises. A byte string is a text. Of the
-- JSON values null, the Booleans and the numbers that are no naturals are left out, which no payload that is
-- minted has; a claim that is no text where the token has a text is an exception here. Times are seconds.
pub mod Payload
pub mod Base64
pub mod Custody
use Prim.Native.String.{◌++◌ as append}
use Prim.Native.Char.{code}
use text.Mathlib.Text
use meeting_bot_service.Prelude.{
  ℕ, zero, suc, ◌+◌, ◌-◌, ◌%◌, Bool, true, false, ◌&&◌, ◌||◌, not, ◌==◌, String, Option, none, some,
  List, [], ◌∷◌, one_of, str_eq, is_empty, leb, if◌then◌else◌,
}

-- WorkspaceGrant
pub record WorkspaceGrant : Type 0 where
  pub id : String
  pub mode : String

-- DispatchClaims
pub record DispatchClaims : Type 0 where
  pub subject : String
  pub launcher : String
  pub workspaces : List WorkspaceGrant
  pub tools : List String
  pub iat : ℕ
  pub exp : ℕ

-- the mode of the first grant of the workspace decides
unfoldable pub grants : List WorkspaceGrant → String → String → Bool
grants [] workspace mode = false
grants (g ∷ gs) workspace mode =
    if str_eq g.id workspace
    then (if str_eq mode "rw" then str_eq g.mode "rw" else true)
    else grants gs workspace mode

-- may_mount, may_call
abbrev pub may_mount : DispatchClaims → String → String → Bool
may_mount c workspace mode = grants c.workspaces workspace mode

abbrev pub may_call : DispatchClaims → String → Bool
may_call c tool = one_of tool c.tools

-- the exceptions: DispatchTokenError with its code, ValueError, and what the libraries raise
pub data TokenError : Type 0 where
  malformed bad_signature expired value_error library_error : TokenError

pub data Verified {ℓ} (A : Type ℓ) : Type ℓ where
  ok : A → Verified A
  raised : TokenError → Verified A

-- the first field gains a character
abbrev pub push : String → List String → List String
push c [] = c ∷ []
push c (f ∷ fs) = append c f ∷ fs

-- s.split(".")
unfoldable pub split_dots : String → List String
split_dots String.[] = String.[] ∷ []
split_dots (String.◌∷◌ c s) =
    let rest = split_dots s in
    if code c == 46 then String.[] ∷ rest else push (String.◌∷◌ c String.[]) rest

-- a JSON value, an array's values, and an object's fields
mutual
  pub data Json : Type 0 where
    string : String → Json
    number : ℕ → Json
    array : Values → Json
    object : Fields → Json

  pub data Values : Type 0 where
    no_value : Values
    value : Json → Values → Values

  pub data Fields : Type 0 where
    no_field : Fields
    field : String → Json → Fields → Fields

-- d.get(key)
unfoldable pub lookup : Fields → String → Option Json
lookup no_field key = none
lookup (field k v fs) key = if str_eq k key then some v else lookup fs key

-- urlsafe_b64encode and urlsafe_b64decode, json.dumps of `_canon` and json.loads, int of a text, and the
-- HMAC-SHA256 of a text under a key
pub record Libraries : Type 0 where
  pub urlsafe_b64encode : String → String
  pub urlsafe_b64decode : String → Option String
  pub dumps : Json → String
  pub loads : String → Option Json
  pub int_text : String → Option ℕ
  pub digest : String → String → String

-- raw.rstrip("=")
unfoldable pub rstrip_pad : String → String
rstrip_pad String.[] = String.[]
rstrip_pad (String.◌∷◌ c s) =
    let rest = rstrip_pad s in
    if is_empty rest && code c == 61 then String.[] else String.◌∷◌ c rest

-- len(s)
unfoldable pub text_length : String → ℕ
text_length String.[] = 0
text_length (String.◌∷◌ c s) = suc (text_length s)

-- "=" * n
abbrev pub pads : ℕ → String
pads zero = String.[]
pads (suc n) = append "=" (pads n)

-- -n % 4
abbrev pub missing_pads : ℕ → ℕ
missing_pads n = (4 - n % 4) % 4

-- the exception, or the next step on the value
abbrev pub and_then {ℓ} : {A B : Type ℓ} → Verified A → (A → Verified B) → Verified B
and_then (ok a) f = f a
and_then (raised e) f = Verified.raised e

-- WorkspaceGrant.__post_init__
unfoldable pub workspace_grant : String → String → Verified WorkspaceGrant
workspace_grant id mode =
    if str_eq mode "ro" || str_eq mode "rw"
    then Verified.ok (record { id = id; mode = mode })
    else Verified.raised TokenError.value_error

-- d[key]
abbrev pub required : Option Json → Verified Json
required none = Verified.raised TokenError.library_error
required (some j) = Verified.ok j

abbrev pub text_of : Json → Verified String
text_of (string s) = Verified.ok s
text_of _ = Verified.raised TokenError.library_error

-- what a tuple is made of
abbrev pub values_of : Option Json → Verified Values
values_of none = Verified.ok no_value
values_of (some (array vs)) = Verified.ok vs
values_of (some _) = Verified.raised TokenError.library_error

-- WorkspaceGrant(w["id"], w["mode"])
abbrev pub grant_of : Json → Verified WorkspaceGrant
grant_of (object w) = and_then (required (lookup w "id")) (λ i. and_then (text_of i) (λ id.
    and_then (required (lookup w "mode"))
      (λ m. and_then (text_of m) (λ mode. workspace_grant id mode))))
grant_of _ = Verified.raised TokenError.library_error

unfoldable pub grants_of : Values → Verified (List WorkspaceGrant)
grants_of no_value = Verified.ok []
grants_of (value j vs) =
    let rest = grants_of vs in
    and_then (grant_of j) (λ g. and_then rest (λ gs. Verified.ok (g ∷ gs)))

unfoldable pub texts_of : Values → Verified (List String)
texts_of no_value = Verified.ok []
texts_of (value j vs) =
    let rest = texts_of vs in and_then (text_of j) (λ t. and_then rest (λ ts. Verified.ok (t ∷ ts)))

-- the payload of a token
unfoldable pub grant_values : List WorkspaceGrant → Values
grant_values [] = no_value
grant_values (g ∷ gs) =
    value (object (field "id" (string g.id) (field "mode" (string g.mode) no_field)))
      (grant_values gs)

unfoldable pub text_values : List String → Values
text_values [] = no_value
text_values (t ∷ ts) = value (string t) (text_values ts)

unfoldable pub payload_of : String → String → List WorkspaceGrant → List String → ℕ → ℕ → Fields
payload_of subject launcher workspaces tools ttl_sec now = field "sub" (string subject) (
    field "lch" (string launcher) (
      field "ws" (array (grant_values workspaces)) (
        field "tools" (array (text_values tools))
          (field "iat" (number now) (field "exp" (number (now + ttl_sec)) no_field)))))

abbrev pub token_header : Json
token_header = object (field "alg" (string "HS256") (field "typ" (string "vxd") no_field))

module _ (L : Libraries) where
  -- _b64u
  unfoldable pub b64u : String → String
  b64u raw = rstrip_pad (L.urlsafe_b64encode raw)

  -- _b64u_decode
  unfoldable pub b64u_decode : String → Option String
  b64u_decode s = L.urlsafe_b64decode (append s (pads (missing_pads (text_length s))))

  -- `header.payload`
  abbrev pub signing_input : Fields → String
  signing_input payload =
      append (b64u (L.dumps token_header)) (append "." (b64u (L.dumps (object payload))))

  -- `header.payload.sig`
  unfoldable pub sign : String → Fields → String
  sign key payload = append (b64u (L.dumps token_header)) (
      append "." (
        append (b64u (L.dumps (object payload)))
          (append "." (b64u (L.digest key (signing_input payload))))))

  -- mint_dispatch_token, at a time
  unfoldable pub mint_dispatch_token :
      String → String → List WorkspaceGrant → List String → String → ℕ → ℕ → Verified String
  mint_dispatch_token subject launcher workspaces tools key ttl_sec now =
      if is_empty subject || is_empty launcher
      then Verified.raised TokenError.value_error
      else Verified.ok (sign key (payload_of subject launcher workspaces tools ttl_sec now))

  -- int(x)
  abbrev pub int_of : Json → Verified ℕ
  int_of (number n) = Verified.ok n
  int_of (string s) = elim (L.int_text s) [
    | none ↦ Verified.raised TokenError.value_error
    | some n ↦ Verified.ok n
  ]
  int_of _ = Verified.raised TokenError.library_error

  -- int(payload.get("exp", 0))
  abbrev pub expiry_of : Option Json → Verified ℕ
  expiry_of none = Verified.ok 0
  expiry_of (some j) = int_of j

  -- the fields "sub", "lch", "ws", "tools", "iat" and "exp" as claims
  abbrev pub claims_of :
      Option Json
      → Option Json
      → Option Json
      → Option Json
      → Option Json
      → ℕ
      → Verified DispatchClaims
  claims_of sub lch ws tools iat exp = and_then (and_then (required sub) text_of) (λ subject.
      and_then (and_then (required lch) text_of) (λ launcher.
        and_then (and_then (values_of ws) grants_of) (λ workspaces.
          and_then (and_then (values_of tools) texts_of) (λ names.
            and_then (and_then (required iat) int_of) (λ issued. Verified.ok (record {
              subject = subject;
              launcher = launcher;
              workspaces = workspaces;
              tools = names;
              iat = issued;
              exp = exp;
            }))))))

  -- the claims, where they have not expired
  unfoldable pub unless_expired :
      ℕ
      → Option Json
      → Option Json
      → Option Json
      → Option Json
      → Option Json
      → Option Json
      → Verified DispatchClaims
  unless_expired now sub lch ws tools iat exp = and_then (expiry_of exp) (λ t.
      if leb t now then Verified.raised TokenError.expired else claims_of sub lch ws tools iat t)

  abbrev pub read_fields : ℕ → Fields → Verified DispatchClaims
  read_fields now p =
      unless_expired now (lookup p "sub") (lookup p "lch") (lookup p "ws") (lookup p "tools")
        (lookup p "iat") (lookup p "exp")

  abbrev pub read_json : ℕ → Option Json → Verified DispatchClaims
  read_json now (some (object p)) = read_fields now p
  read_json now _ = Verified.raised TokenError.library_error

  abbrev pub read_payload : ℕ → Option String → Verified DispatchClaims
  read_payload now none = Verified.raised TokenError.library_error
  read_payload now (some t) = read_json now (L.loads t)

  -- the comparison of the signature; a signature that is no base64 is an exception of the library
  abbrev pub check_signature : ℕ → String → String → Option String → Verified DispatchClaims
  check_signature now expected payload none = Verified.raised TokenError.library_error
  check_signature now expected payload (some sig) =
      if str_eq expected sig
      then read_payload now (b64u_decode payload)
      else Verified.raised TokenError.bad_signature

  abbrev pub verify_parts : String → ℕ → List String → Verified DispatchClaims
  verify_parts key now (h ∷ p ∷ s ∷ []) =
      check_signature now (L.digest key (append h (append "." p))) p (b64u_decode s)
  verify_parts key now _ = Verified.raised TokenError.malformed

  -- verify_dispatch_token
  unfoldable pub verify_dispatch_token : String → String → ℕ → Verified DispatchClaims
  verify_dispatch_token token key now = verify_parts key now (split_dots token)
