-- ===== src/Mailing/Rounds.antt =====
-- One round of a command: a batch is sent, fails, or stops the command.
use license_manager.Base.{
  ℕ, ◌≡◌, refl, ap, true, false, not, none, some, Option, List, [], ◌∷◌, ◌++◌, inl, inr, arith, map,
  Option-cases, Bool-cases, if◌then◌else◌,
}
use license_manager.Models.{License, license_keyed}
use license_manager.Store.{
  World, Action, Error, Result, Task, ok, err, expiration_reminder_message, plan_expiration_message,
  value_error, bulk_update,
}
use license_manager.Renewal.Copies.{saved, with_rows, bulk_update_lem}
use license_manager.Mailing.{
  Campaign, expiration_reminder, plan_expiration, Services, Counts, counted, user_emails_of,
  sent_at, is_value_error, is_braze_error, except_others, process_batch,
}

-- What keeps a batch from being sent
abbrev pub failure_of : Services → List License → Option Error
failure_of services licenses =
    if not services.is_campaign_configured
    then some value_error
    else elim (services.create_braze_alias_for_emails (user_emails_of licenses)) [
      | some e ↦ some e
      | none ↦ services.send_campaign_message (user_emails_of licenses)
    ]

abbrev pub message_of : Campaign → List License → Task
message_of expiration_reminder licenses = expiration_reminder_message (user_emails_of licenses)
message_of plan_expiration licenses = plan_expiration_message (user_emails_of licenses)

-- The world after the message of a batch was sent
abbrev pub with_sent : Campaign → List License → World → World
with_sent c licenses w = record (with_rows (saved (map (sent_at c w.now) licenses) w.licenses) w) {
  tasks = w.tasks ++ message_of c licenses ∷ [];
}

-- What a round of the loop comes to
abbrev pub round_of : Campaign → Services → List License → Counts → Action Counts
round_of c services licenses counts w = elim (failure_of services licenses) [
  | none ↦ (ok (counted counts licenses []), with_sent c licenses w)
  | some e ↦ elim (is_value_error e) [
    | true ↦ (err e, w)
    | false ↦ (ok (counted counts [] licenses), w)
  ]
]

braze_apart : (e : Error) → is_braze_error e ≡ true → is_value_error e ≡ false
braze_apart e h = ground arith

module _ (services : Services) (licenses : List License) (counts : Counts) (w : World) where
  round_not_configured :
      (c : Campaign)
      → services.is_campaign_configured ≡ false
      → process_batch c services licenses counts w ≡ round_of c services licenses counts w
  unfolding process_batch
  round_not_configured expiration_reminder e = rw e refl
  round_not_configured plan_expiration e = rw e refl

  round_no_alias :
      (c : Campaign) {x : Error}
      → services.is_campaign_configured ≡ true
      → services.create_braze_alias_for_emails (user_emails_of licenses) ≡ some x
      → process_batch c services licenses counts w ≡ round_of c services licenses counts w
  unfolding process_batch bulk_update
  round_no_alias expiration_reminder {x} e f = rw (e, f) (ground (arith, braze_apart x))
  round_no_alias plan_expiration {x} e f = rw (e, f) refl

  round_not_sent :
      (c : Campaign) {x : Error}
      → services.is_campaign_configured ≡ true
      → services.create_braze_alias_for_emails (user_emails_of licenses) ≡ none
      → services.send_campaign_message (user_emails_of licenses) ≡ some x
      → process_batch c services licenses counts w ≡ round_of c services licenses counts w
  unfolding process_batch bulk_update
  round_not_sent expiration_reminder {x} e f g = rw (e, f, g) (ground (arith, braze_apart x))
  round_not_sent plan_expiration {x} e f g = rw (e, f, g) (ground (arith, braze_apart x))

  abbrev finished : Result Unit × World → Result Counts × World
  finished r =
      except_others
        (λ v. elim r.0 [ ok x ↦ (ok (counted counts licenses []), r.1) | err e ↦ (err e, r.1) ])
        (counted counts [] licenses) w

  marked :
      (c : Campaign)
      → bulk_update
          (map (sent_at c w.now) licenses)
          (record w { tasks = w.tasks ++ message_of c licenses ∷ [] })
        ≡ (ok tt, with_sent c licenses w)
  marked c =
      bulk_update_lem (map (sent_at c w.now) licenses)
        (record w { tasks = w.tasks ++ message_of c licenses ∷ [] })

  round_sent :
      (c : Campaign)
      → services.is_campaign_configured ≡ true
      → services.create_braze_alias_for_emails (user_emails_of licenses) ≡ none
      → services.send_campaign_message (user_emails_of licenses) ≡ none
      → process_batch c services licenses counts w ≡ round_of c services licenses counts w
  unfolding process_batch
  round_sent expiration_reminder e f g = rw (e, f, g) (ap finished (marked expiration_reminder))
  round_sent plan_expiration e f g = rw (e, f, g) (ap finished (marked plan_expiration))

  pub process_batch_lem :
      (c : Campaign)
      → process_batch c services licenses counts w ≡ round_of c services licenses counts w
  process_batch_lem c = elim (Bool-cases services.is_campaign_configured) [
    | inr e ↦ round_not_configured c e
    | inl e ↦
        elim (Option-cases (services.create_braze_alias_for_emails (user_emails_of licenses))) [
          | inr (x, f) ↦ round_no_alias c e f
          | inl f ↦ elim (Option-cases (services.send_campaign_message (user_emails_of licenses))) [
            | inl g ↦ round_sent c e f g
            | inr (x, g) ↦ round_not_sent c e f g
          ]
        ]
  ]

pub sent_at_key : (c : Campaign) (now : ℕ) (l : License) → (sent_at c now l).uuid ≡ l.uuid
sent_at_key expiration_reminder now l = refl
sent_at_key plan_expiration now l = refl
