-- ===== src/Identity/Dispatch/Base64.antt =====
-- The padding that is cut off an encoded text is put back.
use Prim.Native.Char.{code}
use Prim.Native.String.append
use Prim.Native.String.{◌++◌ as join}
use meeting_bot_service.Prelude.{
  ℕ, zero, suc, ◌&&◌, is_empty, if◌then◌else◌, ◌+◌, ◌<◌, ◌%◌, ◌≡◌, refl, sym, ap, ◌∙◌, Bool, false,
  ◌||◌, ◌==◌, String, some, arith,
}
use meeting_bot_service.Identity.Dispatch.{
  Libraries, rstrip_pad, text_length, pads, missing_pads, b64u, b64u_decode,
}

-- the text has the character
unfoldable pub has_code : ℕ → String → Bool
has_code n String.[] = false
has_code n (String.◌∷◌ c s) = code c == n || has_code n s

rstrip-pads : (n : ℕ) → rstrip_pad (pads n) ≡ ""
unfolding rstrip_pad
rstrip-pads zero = refl
rstrip-pads (suc n) =
    ap rstrip_pad
      (append.cons "=" String.[] (pads n) ∙ ap (λ u. String.◌∷◌ "=" u) (append.nil (pads n)))
    ∙ rw (rstrip-pads n) refl

rstrip-join : (u : String) (n : ℕ) → has_code 61 u ≡ false → rstrip_pad (join u (pads n)) ≡ u
unfolding rstrip_pad has_code
rstrip-join String.[] n h = ap rstrip_pad (append.nil (pads n)) ∙ rstrip-pads n
rstrip-join (String.◌∷◌ c u) n h =
    ap rstrip_pad (append.cons c u (pads n))
    ∙ ap (λ rest. if is_empty rest && code c == 61 then String.[] else String.◌∷◌ c rest)
        (rstrip-join u n (ground (arith, h)))
    ∙ ground (arith, h)

missing-pads : (len n : ℕ) → n < 4 → (len + n) % 4 ≡ 0 → missing_pads len ≡ n
missing-pads len n small whole = omega arith

-- what RFC 4648 says of the encoding of a text: a text without "=" and ".", padded by "=" to a multiple of
-- four, which is decoded to what was encoded
pub record IsEncoded (L : Libraries) (raw : String) : Type 0 where
  pub digits : String
  pub padding : ℕ
  pub written : L.urlsafe_b64encode raw ≡ join digits (pads padding)
  pub few : padding < 4
  pub whole : (text_length digits + padding) % 4 ≡ 0
  pub no_pad : has_code 61 digits ≡ false
  pub no_dot : has_code 46 digits ≡ false
  pub decoded : L.urlsafe_b64decode (L.urlsafe_b64encode raw) ≡ some raw

module _ (L : Libraries) (raw : String) (e : IsEncoded L raw) where
  pub b64u-digits : b64u L raw ≡ e.digits
  unfolding b64u
  b64u-digits = ap rstrip_pad e.written ∙ rstrip-join e.digits e.padding e.no_pad

  pub b64u_decode-b64u : b64u_decode L (b64u L raw) ≡ some raw
  unfolding b64u_decode
  b64u_decode-b64u =
      ap (b64u_decode L) b64u-digits
      ∙ ap (λ n. L.urlsafe_b64decode (join e.digits (pads n)))
          (missing-pads (text_length e.digits) e.padding e.few e.whole)
      ∙ ap L.urlsafe_b64decode (sym e.written)
      ∙ e.decoded

  pub b64u-no_dot : has_code 46 (b64u L raw) ≡ false
  b64u-no_dot = ap (has_code 46) b64u-digits ∙ e.no_dot
