-- ===== src/Relay/Route/Kept.antt =====
-- relay/src/lib.rs: what becomes of a client's message where calls may fail.
use invisible_backend.Relay.Route.{
  Plan, planned, plan, Client, receive, act, deliver, after_publish, log_event, save_for_later,
  count_of,
}
use invisible_backend.Prelude.{
  [], inl, inr, none, some, true, ◌≡◌, String, Bool, arith, Option-cases, In, subst, sym, ==_refl,
  In-middle, string_eq, suc, zero, ℕ, Option, ap,
}
use invisible_backend.Relay.{Codec, Services, Laws, user_channel}
use invisible_backend.Relay.Later.{Growth, IsSent}
use invisible_backend.Models.{IncomingMessage}
use invisible_backend.Relay.Tasks.Standing.{log_event-Stands, Stands, after_publish-Stands}
use invisible_backend.Relay.Tasks.Arrived.{published-IsSent}

module _ (codec : Codec) (svc : Services) (growth : Growth svc) (laws : Laws svc) where
  -- PUBLISH, and the state after it
  abbrev pub told : String → Plan → svc.State → Option ℕ × svc.State
  told json p t = svc.publish_message (user_channel p.to) json t

  -- From `t` on: a message is sent to the subscribers of its recipient; or PUBLISH fails or finds nobody,
  -- and then the message is stored, or the INSERT fails.
  pub data Fate (json payload : String) (p : Plan) (t before after : svc.State) : Type 0 where
    delivered :
        IsSent svc json (user_channel p.to) before after → Fate json payload p t before after
    stored_for_later :
        count_of (told json p t).0 ≡ 0
        → In payload (svc.stored after p.to)
        → Fate json payload p t before after
    lost :
        count_of (told json p t).0 ≡ 0
        → (svc.save_offline_message p.to payload (told json p t).1).0 ≡ none
        → Fate json payload p t before after

  saved-Fate :
      (json payload you : String) (p : Plan) (t before : svc.State)
      → p.store_offline ≡ true
      → codec.outgoing_value p.outgoing ≡ some payload
      → count_of (told json p t).0 ≡ 0
      → Fate json payload p t before (after_publish codec svc you p 0 (told json p t).1)
  unfolding after_publish save_for_later
  saved-Fate json payload you p t before keeps valued nobody =
      let s = (told json p t).1 in
      let u = (svc.save_offline_message p.to payload s).1 in
      let end : u ≡ after_publish codec svc you p 0 s = ground arith in
      elim (Option-cases (svc.save_offline_message p.to payload s).0) [
        | inl failed ↦ lost nobody failed
        | inr (done, answered) ↦ stored_for_later nobody (
            subst (λ x. In payload (svc.stored x p.to)) end
              (subst (In payload)
                (sym (ground (arith, laws.stored-save p.to payload p.to s answered, ==_refl p.to)))
                (In-middle payload (svc.stored s p.to) [])))
      ]

  counted-Fate :
      (json payload you : String) (p : Plan) (t before : svc.State) (n : ℕ)
      → p.store_offline ≡ true
      → codec.outgoing_value p.outgoing ≡ some payload
      → Stands svc before t
      → (told json p t).0 ≡ some n
      → Fate json payload p t before (after_publish codec svc you p n (told json p t).1)
  counted-Fate json payload you p t before zero keeps valued stands answered =
      saved-Fate json payload you p t before keeps valued (ap count_of answered)
  counted-Fate json payload you p t before (suc n) keeps valued stands answered = delivered (
      published-IsSent codec svc growth laws (user_channel p.to) json before t _ (suc n) stands
        answered (after_publish-Stands svc growth codec you p (suc n) _) (omega arith))

  -- Whichever of the calls about it fail, a message of a kind that is kept is sent to the subscribers of
  -- its recipient, or else, PUBLISH having failed or found nobody, stored for it, unless the INSERT
  -- fails too.
  pub receive-Fate :
      (connected : Bool) (you text json payload : String) (c : Client codec svc)
      (m : IncomingMessage) (p : Plan)
      → codec.parse_incoming text ≡ some m
      → plan you m ≡ planned p
      → p.store_offline ≡ true
      → codec.outgoing_string p.outgoing ≡ some json
      → codec.outgoing_value p.outgoing ≡ some payload
      → Fate json payload p
          (log_event codec svc connected you p c.services)
          c.services
          (receive codec svc connected you text c).services
  unfolding receive act deliver
  receive-Fate connected you text json payload c m p parsed planned_as keeps spelled valued =
      let t = log_event codec svc connected you p c.services in
      let u = (told json p t).1 in
      let ends : ℕ → Type 0 =
        λ k. Fate json payload p t c.services (after_publish codec svc you p k u) in
      let whole : after_publish codec svc you p (count_of (told json p t).0) u
          ≡ (receive codec svc connected you text c).services =
        ground arith in
      subst (Fate json payload p t c.services) whole (elim (Option-cases (told json p t).0) [
        | inl failed ↦
            subst ends (sym (ap count_of failed))
              (saved-Fate json payload you p t c.services keeps valued (ap count_of failed))
        | inr (n, answered) ↦ subst ends (sym (ap count_of answered)) (
            counted-Fate json payload you p t c.services n keeps valued
              (log_event-Stands svc growth codec connected you p c.services) answered)
      ])
