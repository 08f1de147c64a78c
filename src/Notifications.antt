-- ===== src/Notifications.antt =====
-- src/modules/notifications: who is told of an event by mail, and what the mail says. `lower` is
-- `toLowerCase`; a mail is handed to the provider, which accepts it or not.
pub mod Html
pub mod Escape
pub mod Templates
pub mod Events
pub mod Cron
pub mod Recipients
pub mod Alerts
use ceoma_api.Prelude.{
  ℕ, Bool, true, false, not, ◌&&◌, Option, none, some, List, [], ◌∷◌, ◌++◌, map, String, ◌==◌,
  str_eq, if◌then◌else◌, any, distinct, is_some,
}
use ceoma_api.Errors.{Failure, Result, ok, err, ◌>>=◌}
use ceoma_api.Sql.{select}
use ceoma_api.Texts.{trim}
use ceoma_api.Store.{UserRole}
use ceoma_api.Access.{same_role}
use ceoma_api.Sessions.{UserRow}

-- A call of `emailjs.send`
pub record Mail : Type 0 where
  pub to_email : String
  pub subject : String
  pub html_content : String

-- The configuration, `systemAdminEmails`, and which mails the provider accepts
pub record Mailer : Type 0 where
  pub service_id : Option String
  pub template_id : Option String
  pub public_key : Option String
  pub system_admin_emails : List String
  pub accepts : Mail → Bool

-- `NotificationEmailMessage`
pub record EmailMessage : Type 0 where
  pub to : List String
  pub subject : String
  pub html : String

-- The argument of `notifyByRoles`, but for the name of the event, which is only logged
pub record Notice : Type 0 where
  pub roles : List UserRole
  pub subject : String
  pub html : String
  pub organization_id : ℕ
  pub extra_recipients : Option (List String)

pub data SendResult : Type 0 where
  sent skipped_config skipped_no_recipients failed : SendResult

abbrev pub is_set : Option String → Bool
is_set none = false
is_set (some t) = not (str_eq t "")

abbrev pub is_email_configured : Mailer → Bool
is_email_configured m = is_set m.service_id && is_set m.template_id && is_set m.public_key

abbrev pub all_of : {A : Type 0} → (A → Bool) → List A → Bool
all_of p [] = true
all_of p (x ∷ xs) = p x && all_of p xs

-- Every mail is handed over, whether the others are accepted or not.
unfoldable pub send_email : Mailer → EmailMessage → SendResult × List Mail
send_email mailer message =
    let mails =
      map (λ e. record { to_email = e; subject = message.subject; html_content = message.html })
        message.to in
    if not (is_email_configured mailer) then (skipped_config, []) else elim message.to [
      | [] ↦ (skipped_no_recipients, [])
      | _ ∷ _ ↦ (if all_of mailer.accepts mails then sent else failed, mails)
    ]

abbrev pub has_role : List UserRole → UserRow → Bool
has_role roles u = any (same_role u.role) roles

module _ (lower : String → String) where
  abbrev pub normalized : String → String
  normalized email = lower (trim email)

  -- The texts that are not empty, normalized
  unfoldable pub normalize : List String → List String
  normalize [] = []
  normalize (e ∷ es) =
      let rest = normalize es in if str_eq (normalized e) "" then rest else normalized e ∷ rest

  -- `users` is what the statement reads, or its failure.
  unfoldable pub find_users_by_roles :
      List UserRole → ℕ → Result (List UserRow) → Result (List String)
  unfolding normalize
  find_users_by_roles [] organization_id users = ok []
  find_users_by_roles (r ∷ roles) organization_id users = do
    rows ← users
    ok (
        normalize (
          map (λ u. u.email)
            (select
              (λ u. u.is_active && has_role (r ∷ roles) u && u.organization_id == organization_id)
              rows)))

  -- The groups one after the other
  abbrev pub joined : List (Option (List String)) → List String
  joined [] = []
  joined (none ∷ groups) = joined groups
  joined (some group ∷ groups) = group ++ joined groups

  unfoldable pub unique_recipients : List (Option (List String)) → List String
  unfolding normalize
  unique_recipients groups = distinct str_eq (normalize (joined groups))

  abbrev pub recipients_of : Mailer → Notice → List String → List String
  recipients_of mailer notice role_recipients =
      unique_recipients
        (some mailer.system_admin_emails ∷ some role_recipients ∷ notice.extra_recipients ∷ [])

  -- What became of it, or `none` where the users could not be read, and the mails handed over. It
  -- throws nothing.
  unfoldable pub notify_by_roles :
      Mailer → Result (List UserRow) → Notice → Option SendResult × List Mail
  notify_by_roles mailer users notice =
      elim (find_users_by_roles notice.roles notice.organization_id users) [
        | err e ↦ (none, [])
        | ok role_recipients ↦
            let (result, mails) = send_email mailer (record {
              to = recipients_of mailer notice role_recipients;
              subject = notice.subject;
              html = notice.html;
            }) in
            (some result, mails)
      ]
