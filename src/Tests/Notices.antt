-- ===== src/Tests/Notices.antt =====
-- Mails to the people of one organization.
use ceoma_api.Prelude.{
  ◌≡◌, refl, ℕ, ◌-◌, ◌*◌, pos, true, ◌&&◌, none, some, List, [], ◌∷◌, map, String, any,
}
use ceoma_api.Errors.{ok}
use ceoma_api.Store.{UserRole, Contract}
use ceoma_api.Sessions.{UserRow}
use ceoma_api.Sessions.Keys.{ApiKeyRow}
use ceoma_api.Sanitize.Texts.{trim-trim}
use ceoma_api.Notifications.{Mailer, Notice, notify_by_roles}
use ceoma_api.Notifications.Html.{escape_html, render_template}
use ceoma_api.Notifications.Escape.{
  read_html, read_html-escape_html, markup, markup-render_template, blank,
}
use ceoma_api.Notifications.Templates.{Format}
use ceoma_api.Notifications.Recipients.{
  contains, addresses, IsDistinct, is_recipient, notify_by_roles_lem,
}
use ceoma_api.Notifications.Cron.{ExpiringKey, send_contract_risk_alerts}
use ceoma_api.Notifications.Alerts.{is_due, is_warned, send_contract_risk_alerts_lem}
use ceoma_api.Tests.Data.{contract_a}

read_html-escape_html_example : read_html (escape_html "R&D <b>") ≡ "R&D <b>"
read_html-escape_html_example = read_html-escape_html "R&D <b>"

escaped : escape_html "R&D <b>" ≡ "R&amp;D &lt;b&gt;"
unfolding escape_html
escaped = refl

markup-render_template_example :
    markup (render_template "Stock" "A lot." (("Reason", "<script>") ∷ []))
    ≡ markup (render_template "" "" (map blank (("Reason", "<script>") ∷ [])))
markup-render_template_example =
    markup-render_template "Stock" "A lot." (("Reason", "<script>") ∷ [])

abbrev mailer : Mailer
mailer = record {
  service_id = some "s";
  template_id = some "t";
  public_key = some "p";
  system_admin_emails = "root@example.org" ∷ [];
  accepts = λ _. true;
}

abbrev trader_row : UserRow
trader_row = record {
  id = 7;
  email = " t@example.org";
  password_hash = "h";
  full_name = "T";
  role = UserRole.trader;
  is_active = true;
  organization_id = 1;
  last_login_at = none;
}

abbrev notice : Notice
notice = record {
  roles = UserRole.admin ∷ UserRole.trader ∷ [];
  subject = "New contract C-1 created";
  html = "";
  organization_id = 1;
  extra_recipients = none;
}

abbrev as_it_is : String → String
as_it_is t = t

notify_by_roles_lem_example :
    IsDistinct (addresses (notify_by_roles as_it_is mailer (ok (trader_row ∷ [])) notice).1)
    × ((e : String)
        → contains e (addresses (notify_by_roles as_it_is mailer (ok (trader_row ∷ [])) notice).1)
          ≡ is_recipient as_it_is mailer notice (trader_row ∷ []) e)
notify_by_roles_lem_example =
    notify_by_roles_lem as_it_is trim-trim mailer notice refl (trader_row ∷ [])

abbrev format : Format
format = record { number_text = λ _. "300"; iso_text = λ _. none; iso_time = λ _. none }

-- Day 128 of a window that closes on day 130
abbrev morning : Contract → ℕ
morning _ = 11059200000

abbrev staff : Contract → List UserRow
staff _ = trader_row ∷ []

-- Where the process runs in Nairobi, three hours ahead of UTC
abbrev midnight : ℕ → ℕ
midnight date = date * 86400000 - 10800000

send_contract_risk_alerts_lem_example :
    any
      (λ r. contains "t@example.org" (addresses r.1))
      (send_contract_risk_alerts format as_it_is mailer midnight
        (pos 7)
        morning
        (λ c. ok (staff c))
        (contract_a ∷ []))
    ≡ any
        (λ c.
          is_due midnight 7 (morning c) c
          && is_warned as_it_is mailer c.organization_id (staff c) "t@example.org")
        (contract_a ∷ [])
send_contract_risk_alerts_lem_example =
    send_contract_risk_alerts_lem as_it_is trim-trim format mailer refl midnight 7 morning staff
      (contract_a ∷ []) "t@example.org"

abbrev key : ApiKeyRow
key = record {
  id = 1;
  user_id = 7;
  name = "erp";
  key_hash = "h";
  key_prefix = "kt";
  is_active = true;
  expires_at = some 100000000;
  revoked_at = none;
}

abbrev soon : ExpiringKey → ℕ
soon _ = 1000
