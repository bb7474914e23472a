-- ===== src/Webhooks/Delivery/Signature.antt =====
-- The signature of a delivery, and what its receiver verifies.
use Prim.Native.String.{◌++◌ as append, len}
use text.Mathlib.TextPositions.{len-append}
use meeting_bot_service.Prelude.{
  ◌+◌, ◌≡◌, sym, ap, ◌∙◌, true, false, ◌||◌, String, some, get, put, is_empty, eq_refl, eq_iff,
  arith, if◌then◌else◌, Bool-cases, inl, inr,
}
use meeting_bot_service.Webhooks.Delivery.{
  sign_payload, strip, signed_headers, plain_headers, build_headers, verify_signature,
}

longer : (s t : String) → append s t ≡ "" → len s + len t ≡ 0
longer s t e = sym (len-append s t) ∙ ap len e

prefixed_there : (t : String) → is_empty (append "sha256=" t) ≡ false
prefixed_there t = elim (Bool-cases (is_empty (append "sha256=" t))) [
  | inl gone ↦ absurd (omega (arith, longer "sha256=" t ((eq_iff (append "sha256=" t) "").0 gone)))
  | inr there ↦ there
]

module _ (hexdigest : String → String → String) where
  signed_there :
      (payload secret ts : String) → is_empty (sign_payload hexdigest payload secret ts) ≡ false
  unfolding sign_payload
  signed_there payload secret ts =
      prefixed_there (hexdigest secret (append ts (append "." payload)))

  signed_matches :
      (payload secret ts : String)
      → is_empty ts ≡ false
      → verify_signature hexdigest payload (signed_headers hexdigest secret payload ts) secret
        ≡ true
  unfolding verify_signature get put
  signed_matches payload secret ts there = ground (
    arith,
    there,
    signed_there payload secret ts,
    eq_refl (sign_payload hexdigest payload secret ts),
  )

  -- The receiver verifies what the sink signs: the headers that are built for a payload, a secret that is
  -- not blank and a timestamp pass the verification against the same payload and the secret without the
  -- blanks around it.
  pub verify_signature-build_headers :
      (payload secret ts : String)
      → is_empty secret ≡ false
      → is_empty (strip secret) ≡ false
      → is_empty ts ≡ false
      → verify_signature hexdigest payload
          (build_headers hexdigest (some secret) payload ts)
          (strip secret)
        ≡ true
  unfolding build_headers
  verify_signature-build_headers payload secret ts given inked there =
      let used : (is_empty secret || is_empty (strip secret)) ≡ false =
        ground (arith, given, inked) in
      ap
        (λ b.
          verify_signature hexdigest payload
            (if b
              then plain_headers hexdigest
              else signed_headers hexdigest (strip secret) payload ts)
            (strip secret))
        used
      ∙ signed_matches payload (strip secret) ts there
