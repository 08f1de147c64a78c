-- ===== src/Idempotency.antt =====
-- src/common/middleware/idempotency.ts: a mutating request with an Idempotency-Key runs its handler
-- once; the response is recorded under the key and replayed.
pub mod Claims
pub mod Replay
use Prim.Native.String
use ceoma_api.Prelude.{
  ℕ, ◌+◌, ◌*◌, Bool, not, ◌&&◌, ◌||◌, Option, none, some, List, ◌∷◌, String, ltb, leb, ◌==◌, str_eq,
  if◌then◌else◌,
}
use package.text.Mathlib.Text.{starts_with}
use ceoma_api.Errors.{Failure, api_error, text}
use ceoma_api.Sql.{find, update}
use ceoma_api.Texts.{trim}
use ceoma_api.Http.{Request, is_mutating, method_name, first, truthy}

-- `IdempotencyStatus`
pub data KeyStatus : Type 0 where
  processing completed failed : KeyStatus

-- The environment: `idempotencyEnabled`, `idempotencyRequireKey`, `idempotencyTtlSeconds`
pub record KeyConfig : Type 0 where
  pub enabled : Bool
  pub require_key : Bool
  pub ttl_seconds : ℕ

-- What reaches the client, or goes on: `next()`, `next()` under a record of the table, a replayed
-- response with its status, body and content type, `next(error)`.
pub data Reply (Body : Type 0) : Type 0 where
  skip : Reply Body
  proceed : ℕ → Reply Body
  replay : ℕ → Option Body → Option String → Reply Body
  refuse : Failure → Reply Body

-- A row of idempotency_keys; `Body` is the type of JSON values, null excepted, and times are in
-- milliseconds.
pub record KeyRow (Body : Type 0) : Type 0 where
  pub id : ℕ
  pub idempotency_key : String
  pub actor_scope : String
  pub request_method : String
  pub request_path : String
  pub request_fingerprint : String
  pub status : KeyStatus
  pub response_status : Option ℕ
  pub response_body : Option Body
  pub response_content_type : Option String
  pub expires_at : ℕ

-- `digest` is SHA-256 in hexadecimal, `uuid_text` the text of a UUID.
module _ (digest : String → String) (uuid_text : ℕ → String) where
  -- `getActorScope`
  unfoldable pub actor_scope_of : Request → String
  actor_scope_of req = elim req.auth [
    | some auth ↦ String.◌++◌ "org:" (
        String.◌++◌ (uuid_text auth.organization_id)
          (String.◌++◌ ":user:" (uuid_text auth.user_id)))
    | none ↦ String.◌++◌ "anonymous:" req.ip
  ]

  -- `buildFingerprint`
  unfoldable pub build_fingerprint : Request → String → String
  build_fingerprint req scope = digest (
      String.◌++◌ (method_name req.method) (
        String.◌++◌ "|" (
          String.◌++◌ req.original_url
            (String.◌++◌ "|" (String.◌++◌ scope (String.◌++◌ "|" req.body_text))))))

abbrev pub is_multipart : Request → Bool
is_multipart req = elim req.content_type [
  | none ↦ Bool.false
  | some content_type ↦ starts_with content_type "multipart/form-data"
]

module _ {Body : Type 0} where
  -- `idempotency_key = $1 AND actor_scope = $2`
  abbrev pub same_key : String → String → KeyRow Body → Bool
  same_key key scope r = str_eq r.idempotency_key key && str_eq r.actor_scope scope

  -- `DO UPDATE SET`
  abbrev pub take_over : KeyRow Body → KeyRow Body → KeyRow Body
  take_over new r = record r {
    request_method = new.request_method;
    request_path = new.request_path;
    request_fingerprint = new.request_fingerprint;
    status = KeyStatus.processing;
    response_status = none;
    response_body = none;
    response_content_type = none;
    expires_at = new.expires_at;
  }

  -- `INSERT ... ON CONFLICT ... DO UPDATE ... WHERE expires_at < NOW() RETURNING *`
  unfoldable pub claim :
      (now : ℕ) → KeyRow Body → List (KeyRow Body) → Option (KeyRow Body) × List (KeyRow Body)
  unfolding find update
  claim now new rows = elim (find (same_key new.idempotency_key new.actor_scope) rows) [
    | none ↦ (some new, new ∷ rows)
    | some r ↦
        if ltb r.expires_at now
        then (
          some (take_over new r),
          update (same_key new.idempotency_key new.actor_scope) (take_over new) rows,
        )
        else (none, rows)
  ]

  -- What an existing record answers to a request with this fingerprint.
  unfoldable pub answer : String → KeyRow Body → Reply Body
  answer fingerprint r =
      if not (str_eq r.request_fingerprint fingerprint)
      then refuse (
          api_error 409
            (text "Idempotency-Key has already been used with different request payload"))
      else elim r.status [
        | KeyStatus.processing ↦
            refuse (api_error 409 (text "A matching request is already being processed"))
        | _ ↦
            replay (elim r.response_status [ none ↦ 200 | some status ↦ status ]) r.response_body
              r.response_content_type
      ]

  -- The `then` callback up to `next()`, on what the insert returns
  unfoldable pub resolved :
      KeyRow Body → Option (KeyRow Body) × List (KeyRow Body) → Reply Body × List (KeyRow Body)
  unfolding answer find
  resolved new (some active, rows) = (proceed active.id, rows)
  resolved new (none, rows) = elim (find (same_key new.idempotency_key new.actor_scope) rows) [
    | none ↦ (refuse (api_error 409 (text "Unable to resolve idempotent request state")), rows)
    | some existing ↦ (answer new.request_fingerprint existing, rows)
  ]

  unfoldable pub resolve :
      (now : ℕ) → KeyRow Body → List (KeyRow Body) → Reply Body × List (KeyRow Body)
  unfolding claim resolved
  resolve now new rows = resolved new (claim now new rows)

  -- What the `finish` listener writes to the record
  abbrev pub record_response : ℕ → Option Body → Option String → KeyRow Body → KeyRow Body
  record_response status_code payload content_type r = record r {
    status = if leb 500 status_code then KeyStatus.failed else KeyStatus.completed;
    response_status = some status_code;
    response_body = payload;
    response_content_type = content_type;
  }

  -- The `finish` listener of the response of a request that went on. `stored` is what the column of type
  -- jsonb holds of a body, or `none` where the update fails: a text is read as JSON, and an array comes as
  -- a PostgreSQL array, which is none. The failure is only logged.
  unfoldable pub finish :
      (stored : Option Body → Option (Option Body))
      → ℕ
      → ℕ
      → Option Body
      → Option String
      → List (KeyRow Body)
      → List (KeyRow Body)
  unfolding update
  finish stored id status_code payload content_type rows = elim (stored payload) [
    | none ↦ rows
    | some body ↦ update (λ r. r.id == id) (record_response status_code body content_type) rows
  ]

  module _ (digest : String → String) (uuid_text : ℕ → String) where
    -- The row that a request inserts.
    unfoldable pub new_row : KeyConfig → (now record_id : ℕ) → Request → String → KeyRow Body
    unfolding actor_scope_of build_fingerprint
    new_row config now record_id req key = record {
      id = record_id;
      idempotency_key = key;
      actor_scope = actor_scope_of digest uuid_text req;
      request_method = method_name req.method;
      request_path = req.original_url;
      request_fingerprint =
          build_fingerprint digest uuid_text req (actor_scope_of digest uuid_text req);
      status = KeyStatus.processing;
      response_status = none;
      response_body = none;
      response_content_type = none;
      expires_at = now + config.ttl_seconds * 1000;
    }

    -- `idempotencyMiddleware`
    unfoldable pub idempotency :
        KeyConfig
        → (now record_id : ℕ) → Request
        → List (KeyRow Body)
        → Reply Body × List (KeyRow Body)
    unfolding resolve new_row trim
    idempotency config now record_id req rows =
        if not config.enabled
        then (skip, rows)
        else if not (is_mutating req.method)
        then (skip, rows)
        else if is_multipart req
        then (skip, rows)
        else elim (truthy (first req.idempotency_key)) [
          | none ↦
              if config.require_key
              then (
                refuse (
                    api_error 400
                      (text "Idempotency-Key header is required for mutating requests")),
                rows,
              )
              else (skip, rows)
          | some raw ↦
              let key = trim raw in
              if str_eq key "" || ltb 128 (String.count key)
              then (refuse (api_error 400 (text "Idempotency-Key must be 1-128 characters")), rows)
              else resolve now (new_row config now record_id req key) rows
        ]
