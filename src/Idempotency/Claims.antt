-- ===== src/Idempotency/Claims.antt =====
-- A key is claimed once: while its record is not expired, no request under it goes on.
use ceoma_api.Prelude.{
  ℕ, ◌+◌, ◌≤◌, ◌≡◌, refl, sym, ap, ◌∙◌, true, false, Option, none, some, List, [], ◌∷◌, All, String,
  arith, Option-cases, Bool-cases, All-unit, ◌⊎◌, inl, inr, str_eq, ltb, if◌then◌else◌, eq_iff,
  ◌==◌,
}
use mathlib.Core.Bool.{false≢true}
use mathlib.Core.Path.{ap₂}
use ceoma_api.Errors.{api_error, text}
use ceoma_api.Sql.{find, update}
use ceoma_api.Sql.Laws.{find-update, find-update_where, find-All}
use ceoma_api.Idempotency.{
  KeyRow, KeyStatus, Reply, skip, proceed, replay, refuse, same_key, take_over, claim, answer,
  resolve, resolved, record_response, finish,
}

-- What happens to the table: a request comes at a time with the row that it would insert, or the
-- response of a request that went on is recorded, where the database takes it.
pub data Event (Body : Type 0) : Type 0 where
  arrive : ℕ → KeyRow Body → Event Body
  respond : (Option Body → Option (Option Body)) → ℕ → ℕ → Option Body → Option String → Event Body

module _ {Body : Type 0} where
  pub same_key-eq :
      (key scope : String) (r : KeyRow Body)
      → same_key key scope r ≡ true
      → (r.idempotency_key ≡ key) × (r.actor_scope ≡ scope)
  same_key-eq key scope r h = (
    (eq_iff r.idempotency_key key).0 (ground arith),
    (eq_iff r.actor_scope scope).0 (ground arith),
  )

  pub same_key_own : (r : KeyRow Body) → same_key r.idempotency_key r.actor_scope r ≡ true
  same_key_own r = ground (
    arith,
    (eq_iff r.idempotency_key r.idempotency_key).1 refl,
    (eq_iff r.actor_scope r.actor_scope).1 refl,
  )

  -- A record under the key that does not expire before a time
  abbrev pub IsClaimed : String → String → ℕ → List (KeyRow Body) → Type 0
  IsClaimed key scope until rows =
      (r : KeyRow Body) × (find (same_key key scope) rows ≡ some r) × (until ≤ r.expires_at)

  claim_claimed :
      (now until : ℕ) (new r : KeyRow Body) (rows : List (KeyRow Body))
      → now ≤ until
      → find (same_key new.idempotency_key new.actor_scope) rows ≡ some r
      → until ≤ r.expires_at
      → claim now new rows ≡ (none, rows)
  unfolding claim
  claim_claimed now until new r rows early found late =
      let live : ltb r.expires_at now ≡ false = ground arith in rw (claim, found, live) refl

  claim_free :
      (now : ℕ) (new : KeyRow Body) (rows : List (KeyRow Body))
      → find (same_key new.idempotency_key new.actor_scope) rows ≡ none
      → claim now new rows ≡ (some new, new ∷ rows)
  unfolding claim
  claim_free now new rows missing = rw (claim, missing) refl

  claim_expired :
      (now : ℕ) (new r : KeyRow Body) (rows : List (KeyRow Body))
      → find (same_key new.idempotency_key new.actor_scope) rows ≡ some r
      → ltb r.expires_at now ≡ true
      → claim now new rows ≡ (
        some (take_over new r),
        update (same_key new.idempotency_key new.actor_scope) (take_over new) rows,
      )
  unfolding claim
  claim_expired now new r rows found late = rw (claim, found, late) refl

  -- A request that comes while its key is claimed changes nothing, and is answered from the record.
  pub resolve_claimed :
      (now until : ℕ) (new r : KeyRow Body) (rows : List (KeyRow Body))
      → now ≤ until
      → find (same_key new.idempotency_key new.actor_scope) rows ≡ some r
      → until ≤ r.expires_at
      → resolve now new rows ≡ (answer new.request_fingerprint r, rows)
  unfolding resolve resolved
  resolve_claimed now until new r rows early found late =
      ap (resolved new) (claim_claimed now until new r rows early found late)
      ∙ rw (resolved, found) refl

  found_own :
      (new : KeyRow Body) (rows : List (KeyRow Body))
      → find (same_key new.idempotency_key new.actor_scope) (new ∷ rows) ≡ some new
  unfolding find
  found_own new rows = rw (same_key_own new) refl

  -- Either the insert returns nothing and nothing has changed, or the key is claimed by the new row's
  -- time, under the identifier that is returned.
  claim-IsClaimed :
      (now : ℕ) (new : KeyRow Body) (rows : List (KeyRow Body))
      → IsClaimed new.idempotency_key new.actor_scope new.expires_at (claim now new rows).1
        ⊎ (claim now new rows ≡ (none, rows))
  claim-IsClaimed now new rows =
      elim (Option-cases (find (same_key new.idempotency_key new.actor_scope) rows)) [
        | inl missing ↦
            inl (rw (claim_free now new rows missing) (new, found_own new rows, omega arith))
        | inr (r, found) ↦ elim (Bool-cases (ltb r.expires_at now)) [
          | inl late ↦ inl (
              rw (claim_expired now new r rows found late) (
                take_over new r,
                find-update _ (take_over new) rows (λ x. refl) found,
                omega arith,
              ))
          | inr live ↦ inr (claim_claimed now now new r rows (omega arith) found (ground arith))
        ]
      ]

  -- The claim of one key does not touch the claim of another.
  claim_other :
      (now until : ℕ) (key scope : String) (new : KeyRow Body) (rows : List (KeyRow Body))
      → same_key key scope new ≡ false
      → IsClaimed key scope until rows
      → IsClaimed key scope until (claim now new rows).1
  unfolding find
  claim_other now until key scope new rows other (r, found, late) =
      elim (Option-cases (find (same_key new.idempotency_key new.actor_scope) rows)) [
        | inl missing ↦ rw (claim_free now new rows missing) (r, rw other found, late)
        | inr (x, hit) ↦ elim (Bool-cases (ltb x.expires_at now)) [
          | inl stale ↦ rw (claim_expired now new x rows hit stale) (
            _,
            find-update_where _ (same_key key scope) (take_over new) rows (λ y. refl) found,
            rw apart late,
          )
          | inr live ↦
              rw (claim_claimed now now new x rows (omega arith) hit (ground arith))
                (r, found, late)
        ]
      ]
    where
      apart : same_key new.idempotency_key new.actor_scope r ≡ false
      apart = elim (Bool-cases (same_key new.idempotency_key new.actor_scope r)) [
        | inr e ↦ e
        | inl e ↦
            let (k, a) = same_key-eq new.idempotency_key new.actor_scope r e in
            let (k', a') =
              same_key-eq key scope r (find-All _ (λ x. Unit {0}) rows found (All-unit rows)).0 in
            absurd (
              false≢true (
                sym other
                ∙ ap₂ (λ u v. same_key u v new) (sym k' ∙ k) (sym a' ∙ a)
                ∙ same_key_own new))
      ]

  finish-IsClaimed :
      (stored : Option Body → Option (Option Body)) (key scope : String) (until id status : ℕ)
      (payload : Option Body) (content_type : Option String) (rows : List (KeyRow Body))
      → IsClaimed key scope until rows
      → IsClaimed key scope until (finish stored id status payload content_type rows)
  unfolding finish
  finish-IsClaimed stored key scope until id status payload content_type rows (r, found, late) =
      elim (Option-cases (stored payload)) [
        | inl lost ↦ rw (lost, finish) (r, found, late)
        | inr (body, kept) ↦
            let written = record_response status body content_type in
            rw (kept, finish)
              (
                (if r.id == id then written r else r),
                find-update_where (λ x. x.id == id) (same_key key scope) written rows (λ x. refl)
                    found,
                elim (Bool-cases (r.id == id)) [ inl e ↦ rw e late | inr e ↦ rw e late ],
              )
      ]

  abbrev pub happen : Event Body → List (KeyRow Body) → List (KeyRow Body)
  happen (Event.arrive now new) rows = (resolve now new rows).1
  happen (Event.respond stored id status payload content_type) rows =
      finish stored id status payload content_type rows

  abbrev goes_on : Reply Body → ℕ
  goes_on (proceed _) = 1
  goes_on _ = 0

  -- 1 for a request under the key whose handler runs
  abbrev pub runs_handler : String → String → Event Body → List (KeyRow Body) → ℕ
  runs_handler key scope (Event.arrive now new) rows =
      if same_key key scope new then goes_on (resolve now new rows).0 else 0
  runs_handler key scope (Event.respond _ _ _ _ _) rows = 0

  -- How often a handler runs for the key over a sequence of events.
  unfoldable pub handler_runs : String → String → List (Event Body) → List (KeyRow Body) → ℕ
  handler_runs key scope [] rows = 0
  handler_runs key scope (e ∷ events) rows =
      runs_handler key scope e rows + handler_runs key scope events (happen e rows)

  -- The requests come no later than a time, and ask for records that last until it.
  abbrev pub IsBefore : ℕ → Event Body → Type 0
  IsBefore until (Event.arrive now new) = (now ≤ until) × (until ≤ new.expires_at)
  IsBefore until (Event.respond _ _ _ _ _) = Unit

  answer_quiet : (fingerprint : String) (r : KeyRow Body) → goes_on (answer fingerprint r) ≡ 0
  unfolding answer
  answer_quiet fingerprint r = elim (Bool-cases (str_eq r.request_fingerprint fingerprint)) [
    | inr e ↦ rw (answer, e) refl
    | inl e ↦ rw (answer, e) (quiet r.status)
  ]
    where
      quiet :
          (st : KeyStatus)
          → goes_on (elim st [
            | KeyStatus.processing ↦
                refuse (api_error 409 (text "A matching request is already being processed"))
            | _ ↦
                replay
                  (elim r.response_status [ none ↦ 200 | some status ↦ status ])
                  r.response_body
                  r.response_content_type
          ])
            ≡ 0
      quiet KeyStatus.processing = refl
      quiet KeyStatus.completed = refl
      quiet KeyStatus.failed = refl

  resolved_rows :
      (new : KeyRow Body) (p : Option (KeyRow Body) × List (KeyRow Body)) → (resolved new p).1 ≡ p.1
  unfolding resolved
  resolved_rows new (some a, rows) = refl
  resolved_rows new (none, rows) =
      elim (Option-cases (find (same_key new.idempotency_key new.actor_scope) rows)) [
        | inl e ↦ rw (resolved, e) refl
        | inr (r, e) ↦ rw (resolved, e) refl
      ]

  resolved_quiet :
      (new : KeyRow Body) (rows : List (KeyRow Body)) → goes_on (resolved new (none, rows)).0 ≡ 0
  unfolding resolved
  resolved_quiet new rows =
      elim (Option-cases (find (same_key new.idempotency_key new.actor_scope) rows)) [
        | inl e ↦ rw (resolved, e) refl
        | inr (r, e) ↦ rw (resolved, e) (answer_quiet new.request_fingerprint r)
      ]

  goes_on_once : (reply : Reply Body) → goes_on reply ≤ 1
  goes_on_once skip = omega arith
  goes_on_once (proceed id) = omega arith
  goes_on_once (replay status body content_type) = omega arith
  goes_on_once (refuse e) = omega arith

  -- While a key is claimed no handler runs for it.
  claimed_runs :
      (key scope : String) (until : ℕ) (events : List (Event Body)) (rows : List (KeyRow Body))
      → IsClaimed key scope until rows
      → All (IsBefore until) events
      → handler_runs key scope events rows ≡ 0
  unfolding handler_runs resolve
  claimed_runs key scope until [] rows c b = refl
  claimed_runs key scope until (Event.respond stored id status payload content_type ∷ events) rows c
        (b, bs) =
      omega (
        arith,
        claimed_runs key scope until events (finish stored id status payload content_type rows)
            (finish-IsClaimed stored key scope until id status payload content_type rows c) bs,
      )
  claimed_runs key scope until (Event.arrive now new ∷ events) rows c (b, bs) =
      elim (Bool-cases (same_key key scope new)) [
        | inl same ↦
            let (k, a) = same_key-eq key scope new same in
            let found : find (same_key new.idempotency_key new.actor_scope) rows ≡ some c.0 =
              rw (k, a) c.1 in
            let stays = resolve_claimed now until new c.0 rows b.0 found c.2 in
            let still : happen (Event.arrive now new) rows ≡ rows = ap (λ p. p.1) stays in
            rw (same, still, stays, answer_quiet new.request_fingerprint c.0)
              (omega (arith, claimed_runs key scope until events rows c bs))
        | inr other ↦
            rw (other, resolved_rows new (claim now new rows))
              (omega (
                arith,
                claimed_runs key scope until events (claim now new rows).1
                    (claim_other now until key scope new rows other c) bs,
              ))
      ]

  -- Over any sequence of requests and responses up to a time that their records outlast, the
  -- handler runs at most once for a key of an actor.
  pub runs_once :
      (key scope : String) (until : ℕ) (events : List (Event Body)) (rows : List (KeyRow Body))
      → All (IsBefore until) events
      → handler_runs key scope events rows ≤ 1
  unfolding handler_runs resolve
  runs_once key scope until [] rows b = omega arith
  runs_once key scope until (Event.respond stored id status payload content_type ∷ events) rows
        (b, bs) =
      omega (
        arith,
        runs_once key scope until events (finish stored id status payload content_type rows) bs,
      )
  runs_once key scope until (Event.arrive now new ∷ events) rows (b, bs) =
      elim (Bool-cases (same_key key scope new)) [
        | inr other ↦ rw other (
            omega (arith, runs_once key scope until events (happen (Event.arrive now new) rows) bs))
        | inl same ↦
            let (k, a) = same_key-eq key scope new same in
            elim (claim-IsClaimed now new rows) [
              | inl (r, found, late) ↦
                  let rest =
                    claimed_runs key scope until events (claim now new rows).1
                      (r, rw (← k, ← a) found, omega arith) bs in
                  rw (same, resolved_rows new (claim now new rows), rest)
                    (omega (arith, goes_on_once (resolved new (claim now new rows)).0))
              | inr blocked ↦
                  let still : happen (Event.arrive now new) rows ≡ rows =
                    resolved_rows new (claim now new rows) ∙ ap (λ p. p.1) blocked in
                  rw (same, still, blocked, resolved_quiet new rows)
                    (omega (arith, runs_once key scope until events rows bs))
            ]
      ]
