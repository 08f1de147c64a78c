-- ===== src/Sessions/Revocation.antt =====
-- A session that is revoked stays so, and a refresh token that was replaced revokes its session.
use ceoma_api.Prelude.{
  ℕ, ◌≡◌, ◌≢◌, ◌<◌, eq_iff, refl, ap, ◌∙◌, Bool, true, false, not, ◌||◌, some, String, arith,
  Bool-cases, inl, inr, Option-cases, is_some, leb, ◌==◌, str_eq, if◌then◌else◌,
}
use ceoma_api.Errors.{ok, err, is_ok, api_error, text}
use ceoma_api.Sql.Laws.{find-update_where}
use ceoma_api.Sessions.{
  AuthStore, Session, UserRow, TokenClaims, Crypto, session_by_id, user_row_by_id, write_sessions,
  revoke, check_session, refresh,
}

abbrev pub IsRevoked : ℕ → AuthStore → Type 0
IsRevoked id s = (x : Session) × (session_by_id id s ≡ some x) × (is_some x.revoked_at ≡ true)

write_sessions-IsRevoked :
    (id : ℕ) (p : Session → Bool) (f : Session → Session) (s : AuthStore)
    → ((x : Session) → (f x).id ≡ x.id)
    → ((x : Session) → is_some x.revoked_at ≡ true → is_some (f x).revoked_at ≡ true)
    → IsRevoked id s
    → IsRevoked id (write_sessions p f s)
write_sessions-IsRevoked id p f s same stays (x, found, shut) = (
  (if p x then f x else x),
  find-update_where p (λ y. y.id == id) f s.sessions (λ y. ap (λ n. n == id) (same y)) found,
  elim (Bool-cases (p x)) [ inl e ↦ rw e (stays x shut) | inr e ↦ rw e shut ],
)

module _ (crypto : Crypto) (now : ℕ) (token : String) (claims : TokenClaims) (s : AuthStore)
    (verified : crypto.verify_refresh token ≡ ok claims) where
  -- No token of a revoked session is accepted, and nothing is written.
  refresh_revoked :
      IsRevoked claims.session_id s
      → (is_ok (refresh crypto now token s).0 ≡ false) × ((refresh crypto now token s).1 ≡ s)
  unfolding refresh check_session
  refresh_revoked (x, found, shut) = elim (Option-cases (user_row_by_id x.user_id s)) [
    | inl gone ↦ rw (verified, found, gone) (refl, refl)
    | inr (u, named) ↦
        let closed : (not u.is_active || is_some x.revoked_at) ≡ true = ground (arith, shut) in
        rw (verified, found, named, closed) (refl, refl)
  ]

  module _ (x : Session) (u : UserRow) (found : session_by_id claims.session_id s ≡ some x)
      (named : user_row_by_id x.user_id s ≡ some u) where
    -- The state after a token that is not the session's present one
    abbrev pub closed_state : AuthStore
    closed_state = write_sessions (λ y. y.id == x.id) (revoke now) s

    abbrev pub IsUsable : Type 0
    IsUsable =
        ((not u.is_active || is_some x.revoked_at) ≡ false)
        × (leb x.expires_at now ≡ false)
        × (not (x.user_id == claims.sub) ≡ false)
        × (not (u.organization_id == claims.organization_id) ≡ false)

    refresh_mismatch :
        IsUsable
        → str_eq (crypto.hash token) x.refresh_token_hash ≡ false
        → refresh crypto now token s
          ≡ (err (api_error 401 (text "Refresh token mismatch")), closed_state)
    unfolding refresh check_session
    refresh_mismatch (live, lasting, own, home) differ =
        rw (verified, found, named, live, lasting, own, home, differ) refl

    closed_state-IsRevoked : IsRevoked claims.session_id closed_state
    closed_state-IsRevoked =
        let own : (x.id == x.id) ≡ true = ground arith in
        (
          revoke now x,
          find-update_where (λ y. y.id == x.id) (λ y. y.id == claims.session_id) (revoke now)
                s.sessions (λ y. refl) found
              ∙ rw own refl,
          refl,
        )

-- A token of a session in use that is not the one it was last given, as a token that was
-- replaced by a refresh is not, is refused, and closes the session: any token of it, the latest
-- included, is then refused at any time, and changes nothing.
pub refresh_reuse :
    (crypto : Crypto) (now later : ℕ) (token token' : String) (claims claims' : TokenClaims)
    (s : AuthStore) (x : Session) (u : UserRow)
    → crypto.verify_refresh token ≡ ok claims
    → session_by_id claims.session_id s ≡ some x
    → user_row_by_id x.user_id s ≡ some u
    → (u.is_active ≡ true) × (is_some x.revoked_at ≡ false)
    → now < x.expires_at
    → (x.user_id ≡ claims.sub) × (u.organization_id ≡ claims.organization_id)
    → crypto.hash token ≢ x.refresh_token_hash
    → crypto.verify_refresh token' ≡ ok claims'
    → claims'.session_id ≡ claims.session_id
    → let after = (refresh crypto now token s).1 in
      (is_ok (refresh crypto now token s).0 ≡ false)
      × (is_ok (refresh crypto later token' after).0 ≡ false)
      × ((refresh crypto later token' after).1 ≡ after)
refresh_reuse crypto now later token token' claims claims' s x u verified found named
      (active, open_one) lasting (own, home) differ verified' same =
    let apart : str_eq (crypto.hash token) x.refresh_token_hash ≡ false =
      elim (Bool-cases (str_eq (crypto.hash token) x.refresh_token_hash)) [
        | inl e ↦ absurd (differ ((eq_iff (crypto.hash token) x.refresh_token_hash).0 e))
        | inr e ↦ e
      ] in
    let done =
      refresh_mismatch crypto now token claims s verified x u found named
        (ground (arith, active, open_one), ground arith, ground arith, ground arith) apart in
    let shut : IsRevoked claims'.session_id
        (closed_state crypto now token claims s verified x u found named) =
      rw same (closed_state-IsRevoked crypto now token claims s verified x u found named) in
    let next = refresh_revoked crypto later token' claims' _ verified' shut in
    rw done (refl, next.0, next.1)
