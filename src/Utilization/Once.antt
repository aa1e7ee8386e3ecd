-- ===== src/Utilization/Once.antt =====
-- An email on a threshold is sent once.
use license_manager.Base.{
  ℕ, ◌≡◌, sym, ap, ◌∙◌, Bool, true, false, Option, none, some, List, ◌∷◌, inl, inr, arith, exists,
  map, ==_refl, Option-cases, Bool-cases, exists-append, exists_more, if◌then◌else◌,
}
use license_manager.Base.Table.{find, key-find}
use license_manager.Models.{
  Plan, Agreement, plan_keyed, agreement_keyed, Notification, NotificationType,
}
use license_manager.Store.{World, ok, get_plan, get_agreement}
use license_manager.Utilization.{
  Threshold, all_licenses, three_quarters, notification_type_of,
  highest_utilization_threshold_reached, AdminUser, AdminServices, notification_to,
  send_license_utilization_email, notify, is_about, send_utilization_threshold_reached_email_task,
}

-- Where the transaction goes through, there is a notification for each admin.
notify-exists :
    (services : AdminServices) (type : NotificationType) (p : Plan) (a : Agreement) (u : AdminUser)
    (us : List AdminUser) (test : Notification → Bool) (w : World)
    → services.get_enterprise_admin_users a.enterprise_customer_uuid ≡ ok (u ∷ us)
    → test (notification_to a.enterprise_customer_uuid p.uuid type w.now u) ≡ true
    → (notify services type p a w).0 ≡ ok tt
    → exists test (notify services type p a w).1.notifications ≡ true
unfolding notify send_license_utilization_email
notify-exists services type p a u us test w e passes done = ground (
  arith,
  exists-append test w.notifications
      (map (notification_to a.enterprise_customer_uuid p.uuid type w.now) (u ∷ us)),
)

-- What the task comes to where a threshold is reached
task_reached :
    (services : AdminServices) (plan : ℕ) (p : Plan) (a : Agreement) (t : Threshold) (w : World)
    → find plan w.plans ≡ some p
    → find p.customer_agreement w.agreements ≡ some a
    → highest_utilization_threshold_reached p.uuid w.licenses ≡ some t
    → send_utilization_threshold_reached_email_task services plan w ≡ (
        if exists (is_about a.enterprise_customer_uuid p.uuid t) w.notifications
        then (ok tt, w)
        else notify services (notification_type_of t) p a w)
unfolding send_utilization_threshold_reached_email_task get_plan get_agreement
task_reached services plan p a t w e f g = ground (arith, e, f, g)

task_not_reached :
    (services : AdminServices) (plan : ℕ) (p : Plan) (w : World)
    → find plan w.plans ≡ some p
    → highest_utilization_threshold_reached p.uuid w.licenses ≡ none
    → send_utilization_threshold_reached_email_task services plan w ≡ (ok tt, w)
unfolding send_utilization_threshold_reached_email_task get_plan
task_not_reached services plan p w e g = ground (arith, e, g)

task_marks :
    (services : AdminServices) (plan : ℕ) (p : Plan) (a : Agreement) (t : Threshold) (u : AdminUser)
    (us : List AdminUser) (w : World)
    → find plan w.plans ≡ some p
    → find p.customer_agreement w.agreements ≡ some a
    → highest_utilization_threshold_reached p.uuid w.licenses ≡ some t
    → services.get_enterprise_admin_users a.enterprise_customer_uuid ≡ ok (u ∷ us)
    → (send_utilization_threshold_reached_email_task services plan w).0 ≡ ok tt
    → exists
        (is_about a.enterprise_customer_uuid p.uuid t)
        (send_utilization_threshold_reached_email_task services plan w).1.notifications
      ≡ true
task_marks services plan p a t u us w e f g admins done =
    let about = is_about a.enterprise_customer_uuid p.uuid t in
    let runs = task_reached services plan p a t w e f g in
    let type = notification_type_of t in
    elim (Bool-cases (exists about w.notifications)) [
      | inl sent ↦ ground (arith, runs, sent)
      | inr not_sent ↦
          let same_run : send_utilization_threshold_reached_email_task services plan w
              ≡ notify services type p a w =
            ground (arith, runs, not_sent) in
          rw same_run (
            notify-exists services type p a u us about w admins
              (ground (arith, ==_refl a.enterprise_customer_uuid, ==_refl p.uuid))
              (sym (ap (λ r. r.0) same_run) ∙ done))
    ]

abbrev pub at_most : Threshold → Option Threshold → Bool
at_most all_licenses reached = true
at_most three_quarters none = true
at_most three_quarters (some three_quarters) = true
at_most three_quarters (some all_licenses) = false

lower_about :
    (enterprise plan : ℕ) (t s : Threshold) (n : Notification)
    → at_most t (some s) ≡ true
    → is_about enterprise plan t n ≡ true
    → is_about enterprise plan s n ≡ true
lower_about enterprise plan t s n h e = ground arith

-- Let a run of the task for a plan go through where a threshold is reached and the customer has
-- admins. Later, where the plan's customer is the same, what could be found among the notifications
-- after that run can still be found, and the highest threshold reached is not above the one of that
-- run, another run sends nothing and changes nothing, whatever the services do then.
pub send_utilization_threshold_once :
    (services later : AdminServices) (plan : ℕ) (p q : Plan) (a b : Agreement) (t : Threshold)
    (u : AdminUser) (us : List AdminUser) (w v : World)
    → find plan w.plans ≡ some p
    → find p.customer_agreement w.agreements ≡ some a
    → highest_utilization_threshold_reached plan w.licenses ≡ some t
    → services.get_enterprise_admin_users a.enterprise_customer_uuid ≡ ok (u ∷ us)
    → (send_utilization_threshold_reached_email_task services plan w).0 ≡ ok tt
    → find plan v.plans ≡ some q
    → find q.customer_agreement v.agreements ≡ some b
    → b.enterprise_customer_uuid ≡ a.enterprise_customer_uuid
    → ((test : Notification → Bool)
        → exists test
            (send_utilization_threshold_reached_email_task services plan w).1.notifications
          ≡ true
        → exists test v.notifications ≡ true)
    → at_most t (highest_utilization_threshold_reached plan v.licenses) ≡ true
    → send_utilization_threshold_reached_email_task later plan v ≡ (ok tt, v)
send_utilization_threshold_once services later plan p q a b t u us w v e f g admins done e2 f2 same
      kept le =
    let pk : p.uuid ≡ plan = key-find plan w.plans e in
    let qk : q.uuid ≡ plan = key-find plan v.plans e2 in
    let customer = a.enterprise_customer_uuid in
    let marks =
      kept (is_about customer p.uuid t)
        (task_marks services plan p a t u us w e f (rw pk g) admins done) in
    elim (Option-cases (highest_utilization_threshold_reached plan v.licenses)) [
      | inl none_reached ↦ task_not_reached later plan q v e2 (rw qk none_reached)
      | inr (s, reached) ↦
          let lower : at_most t (some s) ≡ true = sym (ap (at_most t) reached) ∙ le in
          let found =
            exists_more (is_about customer plan t) (is_about customer plan s) v.notifications
              (λ n h. lower_about customer plan t s n lower h)
              (sym (ap (λ k. exists (is_about customer k t) v.notifications) pk) ∙ marks) in
          let sent : exists (is_about b.enterprise_customer_uuid q.uuid s) v.notifications ≡ true =
            rw (same, qk) found in
          ground (arith, task_reached later plan q b s v e2 f2 (rw qk reached), sent)
    ]
