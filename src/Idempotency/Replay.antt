-- ===== src/Idempotency/Replay.antt =====
-- A recorded response is replayed as it was.
use ceoma_api.Prelude.{
  ℕ, ◌≤◌, ◌≡◌, refl, ◌≢◌, ◌∙◌, true, false, Option, some, List, String, arith, Bool-cases, inl, inr,
  eq_iff, str_eq, leb, ◌==◌,
}
use ceoma_api.Errors.{api_error, text}
use ceoma_api.Sql.{find}
use ceoma_api.Sql.Laws.{find-update_where}
use ceoma_api.Idempotency.{
  KeyRow, replay, refuse, same_key, record_response, answer, resolve, finish,
}
use ceoma_api.Idempotency.Claims.{resolve_claimed}

module _ {Body : Type 0} where
  answer_recorded :
      (fingerprint : String) (status : ℕ) (payload : Option Body) (content_type : Option String)
      (r : KeyRow Body)
      → r.request_fingerprint ≡ fingerprint
      → answer fingerprint (record_response status payload content_type r)
        ≡ replay status payload content_type
  unfolding answer
  answer_recorded fingerprint status payload content_type r e =
      let same : str_eq r.request_fingerprint fingerprint ≡ true =
        (eq_iff r.request_fingerprint fingerprint).1 e in
      elim (Bool-cases (leb 500 status)) [
        | inl failed ↦ rw (answer, same, failed) refl
        | inr fine ↦ rw (answer, same, fine) refl
      ]

  -- Once the response of a request is recorded under its record, by a database whose column
  -- holds that body as it is, the same request (the same key, actor and fingerprint) is
  -- answered, until the record expires, by that very status, body and content type, whatever
  -- the status, and changes nothing.
  pub replay_recorded :
      (stored : Option Body → Option (Option Body)) (now status : ℕ) (payload : Option Body)
      (content_type : Option String) (new r : KeyRow Body) (rows : List (KeyRow Body))
      → stored payload ≡ some payload
      → find (same_key new.idempotency_key new.actor_scope) rows ≡ some r
      → r.request_fingerprint ≡ new.request_fingerprint
      → now ≤ r.expires_at
      → resolve now new (finish stored r.id status payload content_type rows)
        ≡ (replay status payload content_type, finish stored r.id status payload content_type rows)
  unfolding finish
  replay_recorded stored now status payload content_type new r rows kept found e live =
      let written = record_response status payload content_type in
      let own : (r.id == r.id) ≡ true = ground arith in
      let there =
        find-update_where (λ x. x.id == r.id) (same_key new.idempotency_key new.actor_scope) written
          rows (λ x. refl) found in
      rw (kept, finish)
        (resolve_claimed now now new (written r) _ (omega arith) (there ∙ rw own refl) live
          ∙ rw (answer_recorded new.request_fingerprint status payload content_type r e) refl)

  -- The same key with another payload is refused by 409 while its record lasts, and changes
  -- nothing.
  pub reuse_refused :
      (now : ℕ) (new r : KeyRow Body) (rows : List (KeyRow Body))
      → find (same_key new.idempotency_key new.actor_scope) rows ≡ some r
      → r.request_fingerprint ≢ new.request_fingerprint
      → now ≤ r.expires_at
      → resolve now new rows ≡ (
        refuse (
            api_error 409
              (text "Idempotency-Key has already been used with different request payload")),
        rows,
      )
  unfolding answer
  reuse_refused now new r rows found differ live =
      let apart : str_eq r.request_fingerprint new.request_fingerprint ≡ false =
        elim (Bool-cases (str_eq r.request_fingerprint new.request_fingerprint)) [
          | inl e ↦ absurd (differ ((eq_iff r.request_fingerprint new.request_fingerprint).0 e))
          | inr e ↦ e
        ] in
      resolve_claimed now now new r rows (omega arith) found live ∙ rw (answer, apart) refl
