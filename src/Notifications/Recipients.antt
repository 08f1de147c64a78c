-- ===== src/Notifications/Recipients.antt =====
-- To whom `notifyByRoles` writes (src/modules/notifications/notifications.service.ts).
use ceoma_api.Prelude.{
  ◌≡◌, refl, ap, ◌∙◌, ℕ, Bool, true, false, not, ◌&&◌, ◌||◌, Option, none, some, List, [], ◌∷◌,
  ◌++◌, map, String, ◌==◌, str_eq, arith, any, distinct, distinct_from, Bool-cases, inl, inr,
  eq_iff, or_default,
}
use ceoma_api.Errors.{ok}
use ceoma_api.Sql.{select}
use ceoma_api.Sessions.{UserRow}
use ceoma_api.Store.{UserRole}
use ceoma_api.Notifications.{
  Mail, Mailer, Notice, is_email_configured, send_email, has_role, normalized, normalize,
  find_users_by_roles, joined, unique_recipients, recipients_of, notify_by_roles,
}

abbrev pub contains : String → List String → Bool
contains e xs = any (str_eq e) xs

abbrev pub IsDistinct : List String → Type 0
IsDistinct [] = Unit {0}
IsDistinct (x ∷ xs) = (contains x xs ≡ false) × IsDistinct xs

contains-distinct_from :
    (e : String) (seen xs : List String)
    → contains e (distinct_from str_eq seen xs) ≡ (contains e xs && not (contains e seen))
unfolding distinct_from
contains-distinct_from e seen [] = refl
contains-distinct_from e seen (x ∷ xs) = elim (Bool-cases (contains x seen)) [
  | inl old ↦
      rw (old, distinct_from)
        (contains-distinct_from e seen xs ∙ elim (Bool-cases (str_eq e x)) [
          | inl same ↦ let p : e ≡ x = (eq_iff e x).0 same in rw p (ground arith)
          | inr other ↦ rw other
        ])
  | inr new ↦
      rw (new, distinct_from, contains-distinct_from e (x ∷ seen) xs)
        (elim (Bool-cases (str_eq e x)) [
          | inl same ↦ let p : e ≡ x = (eq_iff e x).0 same in rw (same, p, new)
          | inr other ↦ rw other
        ])
]

distinct_from-IsDistinct : (seen xs : List String) → IsDistinct (distinct_from str_eq seen xs)
unfolding distinct_from
distinct_from-IsDistinct seen [] = tt
distinct_from-IsDistinct seen (x ∷ xs) = elim (Bool-cases (contains x seen)) [
  | inl old ↦ rw (old, distinct_from) (distinct_from-IsDistinct seen xs)
  | inr new ↦
      rw (new, distinct_from)
        (
          rw (contains-distinct_from x (x ∷ seen) xs, (eq_iff x x).1 refl) (ground arith),
          distinct_from-IsDistinct (x ∷ seen) xs,
        )
]

module _ {A : Type 0} (p : A → Bool) where
  any-append : (xs ys : List A) → any p (xs ++ ys) ≡ (any p xs || any p ys)
  any-append [] ys = refl
  any-append (x ∷ xs) ys = rw (any-append xs ys) (ground arith)

any-select :
    (p : UserRow → Bool) (q : String → Bool) (rows : List UserRow)
    → any q (map (λ u. u.email) (select p rows)) ≡ any (λ u. p u && q u.email) rows
unfolding select
any-select p q [] = refl
any-select p q (r ∷ rows) = elim (Bool-cases (p r)) [
  | inl e ↦ rw e (rw (any-select p q rows))
  | inr e ↦ rw e (any-select p q rows)
]

any-none :
    (q : UserRow → Bool)
    → ((u : UserRow) → q u ≡ false)
    → (rows : List UserRow) → any q rows ≡ false
any-none q h [] = refl
any-none q h (u ∷ rows) = rw (h u, any-none q h rows)

abbrev pub addresses : List Mail → List String
addresses mails = map (λ m. m.to_email) mails

send_email-addresses :
    (mailer : Mailer) (recipients : List String) (subject html : String)
    → is_email_configured mailer ≡ true
    → addresses (send_email mailer (record { to = recipients; subject = subject; html = html })).1
      ≡ recipients
unfolding send_email
send_email-addresses mailer [] subject html h = rw h
send_email-addresses mailer (e ∷ es) subject html h = rw h (ap (λ l. e ∷ l) (all_addresses es))
  where
    all_addresses :
        (xs : List String)
        → addresses (map (λ x. record { to_email = x; subject = subject; html_content = html }) xs)
          ≡ xs
    all_addresses [] = refl
    all_addresses (x ∷ xs) = ap (λ l. x ∷ l) (all_addresses xs)

module _ (lower : String → String) where
  -- The text is this address, once it is normalized.
  abbrev pub is_address : String → String → Bool
  is_address e t = str_eq e (normalized lower t)

  contains-normalize :
      (e : String) (xs : List String)
      → contains e (normalize lower xs) ≡ (not (str_eq e "") && any (is_address e) xs)
  unfolding normalize
  contains-normalize e [] = ground arith
  contains-normalize e (x ∷ xs) = elim (Bool-cases (str_eq (normalized lower x) "")) [
    | inl empty ↦
        let p : normalized lower x ≡ "" = (eq_iff (normalized lower x) "").0 empty in
        rw empty (contains-normalize e xs ∙ rw p (ground arith))
    | inr filled ↦
        rw (filled, contains-normalize e xs)
          (elim (Bool-cases (is_address e x)) [
            | inl same ↦
                let p : e ≡ normalized lower x = (eq_iff e (normalized lower x)).0 same in
                rw (same, p, filled)
            | inr other ↦ rw other
          ])
  ]

  any-joined :
      (e : String) (extra : Option (List String))
      → any (is_address e) (joined lower (extra ∷ [])) ≡ any (is_address e) (or_default extra [])
  any-joined e none = refl
  any-joined e (some group) = any-append (is_address e) group [] ∙ ground arith

  module _ (mailer : Mailer) (notice : Notice) where
    -- A user whom the notice is for
    abbrev pub is_told : UserRow → Bool
    is_told u =
        u.is_active && has_role notice.roles u && u.organization_id == notice.organization_id

    abbrev role_addresses : (rows : List UserRow) → String → Bool
    role_addresses rows e = any (λ u. is_told u && is_address e u.email) rows

    -- Whether the address is one of those that a notice goes to.
    abbrev pub is_recipient : (rows : List UserRow) → String → Bool
    is_recipient rows e =
        not (str_eq e "")
        && (any (is_address e) mailer.system_admin_emails
            || role_addresses rows e
            || any (is_address e) (or_default notice.extra_recipients []))

  module _ (twice : (t : String) → normalized lower (normalized lower t) ≡ normalized lower t) where
    any-normalize :
        (e : String) (xs : List String)
        → any (is_address e) (normalize lower xs) ≡ (not (str_eq e "") && any (is_address e) xs)
    unfolding normalize
    any-normalize e [] = ground arith
    any-normalize e (x ∷ xs) = elim (Bool-cases (str_eq (normalized lower x) "")) [
      | inl empty ↦
          let p : normalized lower x ≡ "" = (eq_iff (normalized lower x) "").0 empty in
          rw empty (any-normalize e xs ∙ rw p (ground arith))
      | inr filled ↦
          rw (filled, twice x, any-normalize e xs)
            (elim (Bool-cases (is_address e x)) [
              | inl same ↦
                  let p : e ≡ normalized lower x = (eq_iff e (normalized lower x)).0 same in
                  rw (same, p, filled)
              | inr other ↦ rw other
            ])
    ]

    found :
        (roles : List UserRole) (org : ℕ) (rows : List UserRow)
        → (emails : List String) × (find_users_by_roles lower roles org (ok rows) ≡ ok emails)
          × ((e : String)
              → any (is_address e) emails ≡ (
                  not (str_eq e "")
                  && any
                      (λ u.
                        (u.is_active && has_role roles u && u.organization_id == org)
                        && is_address e u.email)
                      rows))
    unfolding find_users_by_roles
    found [] org rows = (
      [],
      refl,
      λ e.
          rw
            (any-none
              (λ u.
                (u.is_active && has_role [] u && u.organization_id == org) && is_address e u.email)
              (λ u. ground arith) rows)
            (ground arith),
    )
    found (r ∷ roles) org rows =
        let told : UserRow → Bool =
          λ u. u.is_active && has_role (r ∷ roles) u && u.organization_id == org in
        let emails : List String = map (λ u. u.email) (select told rows) in
        (
          normalize lower emails,
          refl,
          λ e.
              any-normalize e emails
              ∙ ap (λ b. not (str_eq e "") && b) (any-select told (is_address e) rows),
        )

    module _ (mailer : Mailer) (notice : Notice) where
      contains-recipients_of :
          (emails : List String) (e : String)
          → contains e (recipients_of lower mailer notice emails) ≡ (
              not (str_eq e "")
              && (any (is_address e) mailer.system_admin_emails
                  || any (is_address e) emails
                  || any (is_address e) (or_default notice.extra_recipients [])))
      unfolding unique_recipients distinct
      contains-recipients_of emails e =
          let extra = joined lower (notice.extra_recipients ∷ []) in
          let all = mailer.system_admin_emails ++ (emails ++ extra) in
          contains-distinct_from e [] (normalize lower all)
          ∙ rw
              (
                contains-normalize e all,
                any-append (is_address e) mailer.system_admin_emails (emails ++ extra),
                any-append (is_address e) emails extra,
                any-joined e notice.extra_recipients,
              )
              (ground arith)

      -- Where mail is configured and the users can be read, for a normalization of
      -- addresses that is the identity on its results, a notice goes to each address once,
      -- and exactly to the addresses, normalized and not empty, of the administrators of
      -- the system, of the active users of the notice's organization with one of its
      -- roles, and of the extra recipients.
      pub notify_by_roles_lem :
          is_email_configured mailer ≡ true
          → (rows : List UserRow)
          → let to = addresses (notify_by_roles lower mailer (ok rows) notice).1 in
            IsDistinct to × ((e : String) → contains e to ≡ is_recipient mailer notice rows e)
      unfolding notify_by_roles
      notify_by_roles_lem h rows =
          let (emails, read, known) = found notice.roles notice.organization_id rows in
          let to = recipients_of lower mailer notice emails in
          rw (read, notify_by_roles, send_email-addresses mailer to notice.subject notice.html h)
            (
              unfold unique_recipients distinct in distinct_from-IsDistinct [] _,
              λ e. contains-recipients_of emails e ∙ rw (known e) (ground arith),
            )
