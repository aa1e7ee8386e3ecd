-- ===== src/Mailing/Senders.antt =====
-- The licenses that each of the two commands is about, and sending the message to one batch of them.
use license_manager.Base.{
  ℕ, ◌+◌, ◌-◌, ◌*◌, ◌/◌, Bool, true, false, not, ◌&&◌, Option, none, some, List, [], map, is_some,
  ltb, leb, ◌==◌,
}
use license_manager.Base.Table.{find}
use license_manager.Models.{License, plan_keyed, license_keyed, agreement_keyed, is_activated, day}
use license_manager.Store.{
  Action, Error, ok, err, pure, raise, raise_if, delay, expiration_reminder_message,
  plan_expiration_message, value_error, braze_error, ◌>>◌,
}
use license_manager.Retirement.{plan_of, Query}

-- `replace(hour=0, minute=0, second=0, microsecond=0)`, in UTC
abbrev pub midnight : ℕ → ℕ
midnight t = (t / day) * day

-- `subscription_plan__customer_agreement__enterprise_customer_uuid=...` and the window of the plan's
-- expiration date, from its start until before its end
abbrev pub in_window : (enterprise start end : ℕ) → Query
in_window enterprise start end t l = elim (plan_of t l) [
  | none ↦ false
  | some p ↦ elim (find p.customer_agreement t.agreements) [
    | none ↦ false
    | some a ↦
        a.enterprise_customer_uuid == enterprise
        && leb start p.expiration_date
        && ltb p.expiration_date end
  ]
]

unfoldable pub expiring_licenses : (enterprise days_before_expiration : ℕ) → Query
expiring_licenses enterprise days t l =
    let start = midnight (t.now + days * day) in
    is_activated l.status
    && in_window enterprise start (start + day) t l
    && not (is_some l.expiration_reminder_sent_date)

unfoldable pub recently_expired_plan_licenses : (enterprise days_since_expiration : ℕ) → Query
recently_expired_plan_licenses enterprise days t l =
    let end = midnight t.now in
    is_activated l.status
    && in_window enterprise (end - days * day) end t l
    && not (is_some l.subscription_plan_expiration_email_sent_date)

-- The Braze service, the API of enterprise customers and the settings: `none` where a call returns, and
-- otherwise what it raises.
pub record Services : Type 0 where
  pub create_braze_alias_for_emails : List (Option ℕ) → Option Error
  pub send_campaign_message : List (Option ℕ) → Option Error
  pub get_enterprise_customer_data : ℕ → Option Error
  pub is_campaign_configured : Bool

abbrev pub call : Option Error → Action Unit
call none = pure tt
call (some e) = raise e

abbrev pub is_braze_error : Error → Bool
is_braze_error braze_error = true
is_braze_error _ = false

abbrev pub is_value_error : Error → Bool
is_value_error value_error = true
is_value_error _ = false

-- `try: ... except BrazeClientError: return ...`
abbrev pub except_braze_error : {A : Type 0} → Action A → A → Action A
except_braze_error m a w =
    let (r, w') = m w in
    elim r [
      | ok x ↦ (ok x, w')
      | err e ↦ elim (is_braze_error e) [ true ↦ (ok a, w') | false ↦ (err e, w') ]
    ]

-- `try: ... except ValueError: raise ... except Exception: ...`
abbrev pub except_others : {A : Type 0} → Action A → A → Action A
except_others m a w =
    let (r, w') = m w in
    elim r [
      | ok x ↦ (ok x, w')
      | err e ↦ elim (is_value_error e) [ true ↦ (err e, w') | false ↦ (ok a, w') ]
    ]

abbrev pub user_emails_of : List License → List (Option ℕ)
user_emails_of = map (λ (l : License). l.user_email)

-- The licenses that the message was sent for, and those for which it failed
unfoldable pub send_expiration_reminder_emails_batch :
    Services → List License → Action (List License × List License)
send_expiration_reminder_emails_batch services licenses = do
  raise_if (not services.is_campaign_configured) value_error
  except_braze_error
      (do
        call (services.create_braze_alias_for_emails (user_emails_of licenses))
        call (services.send_campaign_message (user_emails_of licenses))
        delay (expiration_reminder_message (user_emails_of licenses))
        pure (licenses, []))
      ([], licenses)

unfoldable pub send_subscription_expiration_emails_batch :
    Services → List License → Action (List License × List License)
send_subscription_expiration_emails_batch services licenses = do
  raise_if (not services.is_campaign_configured) value_error
  call (services.create_braze_alias_for_emails (user_emails_of licenses))
  except_braze_error
      (do
        call (services.send_campaign_message (user_emails_of licenses))
        delay (plan_expiration_message (user_emails_of licenses))
        pure (licenses, []))
      ([], licenses)
