-- ===== src/Auth/Token/RoundTrip.antt =====
-- A token of shared/auth.py that is issued and read again.
use indu_sense.Base.{
  ℕ, ◌*◌, ◌/◌, ◌≤◌, ◌<◌, String, none, some, ◌≡◌, refl, ap, ◌∙◌, ◌==◌, if◌then◌else◌,
}
use indu_sense.Auth.{returned, raised, token_type_mismatch}
use indu_sense.Auth.Token.{
  Claims, Jwt, whole_seconds, payload_of, issue_token, checked_type, claims_of, parse_and_validate,
  ReadsBack,
}

-- the claims with their times in whole seconds
unfoldable pub to_seconds : Claims → Claims
to_seconds c = record c {
  issued_at = elim c.issued_at [ none ↦ none | some t ↦ some (t / 1000000 * 1000000) ];
  expires_at = elim c.expires_at [ none ↦ none | some t ↦ some (t / 1000000 * 1000000) ];
}

-- A token that PyJWT reads back is accepted within its lifetime, with the claims to the second, if it is
-- of the expected type, and refused for its type otherwise.
pub parse_and_validate-issue_token :
    (j : Jwt) (issued now from until : ℕ) (c : Claims) (secret expected : String)
    → c.issued_at ≡ some from
    → c.expires_at ≡ some until
    → ReadsBack j (payload_of issued c) secret
    → from / 1000000 * 1000000 ≤ now
    → now < until / 1000000 * 1000000
    → parse_and_validate j now (issue_token j issued c secret) secret expected
      ≡ (if c.token_type == expected then returned (to_seconds c) else raised token_type_mismatch)
unfolding parse_and_validate issue_token payload_of checked_type whole_seconds claims_of to_seconds
parse_and_validate-issue_token j issued now from until c secret expected ei ee back early late =
    ap (λ o. checked_type o expected)
      (back now (from / 1000000) (until / 1000000) (ap (λ o. some (whole_seconds issued o)) ei)
        (ap (λ o. some (whole_seconds issued o)) ee) early late)
    ∙ rw (ei, ee) refl
