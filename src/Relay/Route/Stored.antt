-- ===== src/Relay/Route/Stored.antt =====
-- relay/src/lib.rs: a message for a user whom nobody listens for.
use invisible_backend.Relay.Route.{
  Plan, planned, plan, Client, receive, act, deliver, after_publish, log_event, save_for_later,
  db_event, bind_opt,
}
use invisible_backend.Prelude.{
  [], ◌∷◌, inl, inr, some, true, false, refl, ◌≡◌, ◌++◌, String, Bool, Option-cases, ℕ, arith, ◌∙◌,
  sym, ap, ==_refl, string_eq,
}
use invisible_backend.Relay.{Codec, Services, Laws, user_channel}
use invisible_backend.Models.{IncomingMessage}

module _ (codec : Codec) (svc : Services) (laws : Laws svc) where
  -- XADD shows in the stream alone, whether it succeeds or not.
  log_event-quiet :
      {A : Type 0} (look : svc.State → A)
      → ((e : String) (s : svc.State) → look (svc.xadd e s).1 ≡ look s)
      → (connected : Bool) (me : String) (p : Plan) (s : svc.State)
      → look (log_event codec svc connected me p s) ≡ look s
  unfolding log_event
  log_event-quiet look same false me p s = refl
  log_event-quiet look same true me p s =
      elim (Option-cases (bind_opt (db_event me p.to p.outgoing) codec.event_string)) [
        | inl e ↦ ground arith
        | inr (json, e) ↦ ground (arith, same json s)
      ]

  saved :
      (p : Plan) (json payload you : String) (t : svc.State) (n : ℕ)
      → codec.outgoing_string p.outgoing ≡ some json
      → codec.outgoing_value p.outgoing ≡ some payload
      → p.store_offline ≡ true
      → svc.subscribers t (user_channel p.to) ≡ 0
      → (svc.publish_message (user_channel p.to) json t).0 ≡ some n
      → deliver codec svc you p t
        ≡ (svc.save_offline_message p.to payload
            (svc.publish_message (user_channel p.to) json t).1).1
  unfolding deliver after_publish save_for_later
  saved p json payload you t n spelled valued keeps nobody answered =
      ground (arith, laws.count-publish (user_channel p.to) json t n answered)

  -- A message for a user without a subscriber, kept and inserted: the channel gets nothing.
  pub receive-saved :
      (connected : Bool) (you text json payload : String) (c : Client codec svc)
      (m : IncomingMessage) (p : Plan) (n : ℕ)
      → svc.subscribers c.services (user_channel p.to) ≡ 0
      → codec.parse_incoming text ≡ some m
      → plan you m ≡ planned p
      → p.store_offline ≡ true
      → codec.outgoing_string p.outgoing ≡ some json
      → codec.outgoing_value p.outgoing ≡ some payload
      → let t₁ = log_event codec svc connected you p c.services in
        let t₂ = (svc.publish_message (user_channel p.to) json t₁).1 in
        let t = (receive codec svc connected you text c).services in
        (svc.publish_message (user_channel p.to) json t₁).0 ≡ some n
        → (svc.save_offline_message p.to payload t₂).0 ≡ some tt
        → (svc.sent t (user_channel p.to) ≡ svc.sent c.services (user_channel p.to))
          × (svc.stored t p.to ≡ svc.stored c.services p.to ++ payload ∷ [])
  unfolding receive act
  receive-saved connected you text json payload c m p n nobody parsed planned_as keeps spelled
        valued answered inserted =
      let a = user_channel p.to in
      let t₁ = log_event codec svc connected you p c.services in
      let t₂ = (svc.publish_message a json t₁).1 in
      let t = (receive codec svc connected you text c).services in
      let quiet_subscribers =
        log_event-quiet (λ x. svc.subscribers x a) (λ e x. laws.subscribers-xadd e a x) connected
          you p c.services in
      let nobody_yet : svc.subscribers t₁ a ≡ 0 = quiet_subscribers ∙ nobody in
      let end : t ≡ (svc.save_offline_message p.to payload t₂).1 =
        sym (ground arith)
        ∙ saved p json payload you t₁ n spelled valued keeps nobody_yet answered in
      (
        ground (
          arith,
          ap (λ x. svc.sent x a) end,
          laws.sent-save p.to payload a t₂,
          laws.sent-publish a json a t₁ n answered,
          laws.count-publish a json t₁ n answered,
          nobody_yet,
          log_event-quiet (λ x. svc.sent x a) (λ e x. laws.sent-xadd e a x) connected you p
              c.services,
        ),
        ground (
          arith,
          ap (λ x. svc.stored x p.to) end,
          laws.stored-save p.to payload p.to t₂ inserted,
          laws.stored-publish a json p.to t₁,
          log_event-quiet (λ x. svc.stored x p.to) (λ e x. laws.stored-xadd e p.to x) connected you
              p c.services,
          ==_refl p.to,
        ),
      )
