-- ===== src/Tests/DispatchRuns.antt =====
-- The theorem on dispatch_tokens.py, for a nightly job, with small libraries that can be run.
use Prim.Native.Char.{Char, code}
use Prim.Native.String.{◌++◌ as append}
use meeting_bot_service.Prelude.{
  ◌+◌, ◌==◌, ◌≡◌, refl, inl, inr, String, Option, none, some, List, [], ◌∷◌, str_eq, is_empty, leb,
  show_nat, arith, if◌then◌else◌,
}
use meeting_bot_service.Identity.Dispatch.{
  WorkspaceGrant, TokenError, Verified, Json, string, number, array, object, Values, no_value,
  value, Fields, no_field, field, Libraries, text_length, rstrip_pad, payload_of, grant_values,
  text_values, token_header, b64u, signing_input, mint_dispatch_token, verify_dispatch_token,
}
use meeting_bot_service.Identity.Dispatch.Base64.{has_code}
use meeting_bot_service.Identity.Dispatch.Custody.{minted_verifies}

-- three digits for a character, and a fourth, which is padding after the last of them
abbrev digits_of : Char → String → String
digits_of c s =
    if code c == 46
    then append "p+-" s
    else if code c == 61
    then append "e+-" s
    else String.◌∷◌ c (append "--" s)

abbrev encode : String → String
encode String.[] = String.[]
encode (String.◌∷◌ c s) =
    let rest = encode s in if is_empty s then digits_of c "=" else digits_of c (append "-" rest)

-- the same, without the padding
abbrev unpadded : String → String
unpadded String.[] = String.[]
unpadded (String.◌∷◌ c s) =
    let rest = unpadded s in if is_empty s then digits_of c "" else digits_of c (append "-" rest)

abbrev after_first : Char → Option String → Option String
after_first c none = none
after_first c (some s) = some (String.◌∷◌ c s)

abbrev decode : String → Option String
decode String.[] = some String.[]
decode (String.◌∷◌ a (String.◌∷◌ b (String.◌∷◌ c (String.◌∷◌ d s)))) =
    let rest = decode s in
    if code b == 43
    then (if code a == 112 then after_first "." rest else after_first "=" rest)
    else after_first a rest
decode _ = none

mutual
  print : Json → String
  print (string s) = append "\"" (append s "\"")
  print (number n) = show_nat n
  print (array vs) = append "[" (append (print_values vs) "]")
  print (object fs) = append "{" (append (print_fields fs) "}")

  print_values : Values → String
  print_values no_value = ""
  print_values (value j vs) = append (print j) (append "," (print_values vs))

  print_fields : Fields → String
  print_fields no_field = ""
  print_fields (field k v fs) =
      append "\"" (append k (append "\":" (append (print v) (append "," (print_fields fs)))))

-- it may read one workspace and write another, and call one tool
abbrev notes : List WorkspaceGrant
notes = record { id = "notes"; mode = "ro" } ∷ record { id = "drafts"; mode = "rw" } ∷ []

abbrev nightly : Fields
nightly = payload_of "alice" "schedule" notes ("search" ∷ []) 900 100

abbrev toy : Libraries
toy = record {
  urlsafe_b64encode = encode;
  urlsafe_b64decode = decode;
  dumps = print;
  loads = λ t. if str_eq t (print (object nightly)) then some (object nightly) else none;
  int_text = λ t. none;
  digest = λ key t. append key (show_nat (text_length t));
}

minted_verifies_example :
    (token : String) × (mint_dispatch_token toy "alice" "schedule" notes
        ("search" ∷ [])
        "key"
        900
        100
      ≡ Verified.ok token)
    × (verify_dispatch_token toy token "key" 500 ≡ (
        if leb (100 + 900) 500
        then Verified.raised TokenError.expired
        else Verified.ok (record {
          subject = "alice";
          launcher = "schedule";
          workspaces = notes;
          tools = "search" ∷ [];
          iat = 100;
          exp = 100 + 900;
        })))
unfolding has_code text_length payload_of grant_values text_values b64u rstrip_pad show_nat print
minted_verifies_example =
    minted_verifies toy "alice" "schedule" notes ("search" ∷ []) "key" 900 100 500 refl refl
      (inl refl, (inr refl, tt))
      (record {
        header = record {
          digits = unpadded (print token_header);
          padding = 1;
          written = refl;
          few = omega arith;
          whole = refl;
          no_pad = refl;
          no_dot = refl;
          decoded = refl;
        };
        body = record {
          digits = unpadded (print (object nightly));
          padding = 1;
          written = refl;
          few = omega arith;
          whole = refl;
          no_pad = refl;
          no_dot = refl;
          decoded = refl;
        };
        signature = record {
          digits = unpadded (toy.digest "key" (signing_input toy nightly));
          padding = 1;
          written = refl;
          few = omega arith;
          whole = refl;
          no_pad = refl;
          no_dot = refl;
          decoded = refl;
        };
        loaded = nightly;
        loads_dumps = refl;
        same = λ name. refl;
      })
