-- ===== src/Relay/Route/Delivery.antt =====
-- relay/src/lib.rs: where a client's message ends up while no call fails.
use invisible_backend.Prelude.{
  String, Bool, ◌<◌, ◌≡◌, ◌&&◌, ◌==◌, string_eq, List, [], ◌∷◌, ◌++◌, ltb, arith, if◌then◌else◌,
  append-nil,
}
use invisible_backend.Models.{OutgoingMessage}
use invisible_backend.Relay.{Codec, IsTotal, Services, Laws, IsUp, user_channel}
use invisible_backend.Relay.Route.{Plan, deliver, after_publish}

abbrev pub when {ℓ} : {A : Type ℓ} → Bool → A → List A
when b a = if b then a ∷ [] else []

module _ (codec : Codec) (svc : Services) (total : IsTotal codec) (laws : Laws svc)
    (up : IsUp svc) where
  abbrev pub spelling : OutgoingMessage → String
  spelling m = (total.string_total m).0

  abbrev pub payload : OutgoingMessage → String
  payload m = (total.value_total m).0

  abbrev pub receipt : Plan → String
  receipt p = spelling (OutgoingMessage.delivery_receipt p.to p.id)

  -- A message to a user with a connection is sent to that user's channel, then, for the kinds that ask
  -- for one, a delivery receipt to the sender's; nothing is stored.
  pub record IsDelivered (me : String) (p : Plan) (s s' : svc.State) : Type 0 where
    pub sent :
        (j : String)
        → svc.sent s' j
          ≡ (svc.sent s j ++ when (user_channel p.to == j) (spelling p.outgoing))
            ++ when
                (p.requires_receipt
                  && user_channel me == j
                  && ltb 0 (svc.subscribers s (user_channel me)))
                (receipt p)
    pub stored : (u : String) → svc.stored s' u ≡ svc.stored s u

  -- A message to a user with none is stored for that user if its kind is kept, and sent to nobody.
  pub record IsStored (p : Plan) (s s' : svc.State) : Type 0 where
    pub sent : (j : String) → svc.sent s' j ≡ svc.sent s j
    pub stored :
        (u : String)
        → svc.stored s' u
          ≡ svc.stored s u ++ when (p.store_offline && p.to == u) (payload p.outgoing)

  abbrev pub published : String → OutgoingMessage → svc.State → svc.State
  published c m s = (svc.publish_message c (spelling m) s).1

  pub sent-published :
      (c : String) (m : OutgoingMessage) (s : svc.State) (j : String)
      → svc.sent (published c m s) j
        ≡ svc.sent s j ++ when (c == j && ltb 0 (svc.subscribers s c)) (spelling m)
  sent-published c m s j =
      let (n, answered) = up.publish_up c (spelling m) s in
      ground (
        arith,
        laws.sent-publish c (spelling m) j s n answered,
        laws.count-publish c (spelling m) s n answered,
        append-nil (svc.sent s j),
      )

  pub deliver-published :
      (me : String) (p : Plan) (s : svc.State)
      → 0 < svc.subscribers s (user_channel p.to)
      → deliver codec svc me p s ≡ (
          let t = published (user_channel p.to) p.outgoing s in
          if p.requires_receipt
          then published (user_channel me) (OutgoingMessage.delivery_receipt p.to p.id) t
          else t)
  unfolding deliver after_publish
  deliver-published me p s here =
      let (json, e) = total.string_total p.outgoing in
      let (r, e') = total.string_total (OutgoingMessage.delivery_receipt p.to p.id) in
      let (n, answered) = up.publish_up (user_channel p.to) (spelling p.outgoing) s in
      ground (arith, laws.count-publish (user_channel p.to) (spelling p.outgoing) s n answered)

  pub deliver-saved :
      (me : String) (p : Plan) (s : svc.State)
      → svc.subscribers s (user_channel p.to) ≡ 0
      → deliver codec svc me p s ≡ (
          let t = published (user_channel p.to) p.outgoing s in
          if p.store_offline then (svc.save_offline_message p.to (payload p.outgoing) t).1 else t)
  unfolding deliver after_publish
  deliver-saved me p s nobody =
      let (json, e) = total.string_total p.outgoing in
      let (v, e') = total.value_total p.outgoing in
      let (n, answered) = up.publish_up (user_channel p.to) (spelling p.outgoing) s in
      ground (arith, laws.count-publish (user_channel p.to) (spelling p.outgoing) s n answered)

  -- With a subscriber on the recipient's channel, the message is delivered.
  pub deliver-IsDelivered :
      (me : String) (p : Plan) (s : svc.State)
      → 0 < svc.subscribers s (user_channel p.to)
      → IsDelivered me p s (deliver codec svc me p s)
  deliver-IsDelivered me p s here =
      let t = published (user_channel p.to) p.outgoing s in
      let note = OutgoingMessage.delivery_receipt p.to p.id in
      record {
        sent = λ j. rw (deliver-published me p s here) (
            ground (
              arith,
              sent-published (user_channel p.to) p.outgoing s j,
              sent-published (user_channel me) note t j,
              laws.subscribers-publish (user_channel p.to) (spelling p.outgoing) (user_channel me)
                  s,
              append-nil (svc.sent t j),
            ));
        stored = λ u. rw (deliver-published me p s here) (
            ground (
              arith,
              laws.stored-publish (user_channel p.to) (spelling p.outgoing) u s,
              laws.stored-publish (user_channel me) (receipt p) u t,
            ));
      }

  pub deliver-IsStored :
      (me : String) (p : Plan) (s : svc.State)
      → svc.subscribers s (user_channel p.to) ≡ 0
      → IsStored p s (deliver codec svc me p s)
  deliver-IsStored me p s nobody =
      let t = published (user_channel p.to) p.outgoing s in
      record {
        sent = λ j. rw (deliver-saved me p s nobody) (
            ground (
              arith,
              sent-published (user_channel p.to) p.outgoing s j,
              laws.sent-save p.to (payload p.outgoing) j t,
              append-nil (svc.sent s j),
            ));
        stored = λ u. rw (deliver-saved me p s nobody) (
            ground (
              arith,
              laws.stored-publish (user_channel p.to) (spelling p.outgoing) u s,
              laws.stored-save p.to (payload p.outgoing) u t
                  (up.save_up p.to (payload p.outgoing) t),
              append-nil (svc.stored s u),
            ));
      }
