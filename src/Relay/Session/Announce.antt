-- ===== src/Relay/Session/Announce.antt =====
-- relay/src/lib.rs: what a client is sent when it connects, and what others learn of it.
use invisible_backend.Prelude.{
  [], ◌∷◌, some, true, false, refl, ◌==◌, map, ◌≡◌, ◌&&◌, ◌++◌, String, List, sym, append-nil, none,
  arith, subst, Option, Bool, ◌∙◌, ap, append_assoc, ltb, string_eq,
}
use invisible_backend.Relay.{Codec, IsTotal, Services, Laws, IsUp, user_channel, presence_channel}
use invisible_backend.Models.{OutgoingMessage}
use invisible_backend.Relay.Session.{
  receipt_task, flush, open_session, close_session, receipt_info, announce, Opening, one_if_some,
  or_none,
}
use invisible_backend.Relay.Route.Delivery.{when, sent-published}

module _ (codec : Codec) (svc : Services) (total : IsTotal codec) where
  abbrev pub spell : OutgoingMessage → String
  spell m = (total.string_total m).0

  -- the receipts that waiting messages ask for, with the channel of each message's sender
  abbrev pub receipts : String → List OutgoingMessage → List (String × String)
  receipts me [] = []
  receipts me (OutgoingMessage.text from id c ∷ ms) =
      (user_channel from, spell (OutgoingMessage.delivery_receipt me id)) ∷ receipts me ms
  receipts me (OutgoingMessage.encrypted from id cs ∷ ms) =
      (user_channel from, spell (OutgoingMessage.delivery_receipt me id)) ∷ receipts me ms
  receipts me (OutgoingMessage.file from id name mime url ∷ ms) =
      (user_channel from, spell (OutgoingMessage.delivery_receipt me id)) ∷ receipts me ms
  receipts me (_ ∷ ms) = receipts me ms

  receipt_task-receipts :
      (me : String) (m : OutgoingMessage)
      → receipt_task codec svc me (receipt_info m) ≡ receipts me (m ∷ [])
  unfolding receipt_task
  receipt_task-receipts me (OutgoingMessage.text from id c) =
      let (json, e) = total.string_total (OutgoingMessage.delivery_receipt me id) in ground arith
  receipt_task-receipts me (OutgoingMessage.encrypted from id c) =
      let (json, e) = total.string_total (OutgoingMessage.delivery_receipt me id) in ground arith
  receipt_task-receipts me (OutgoingMessage.file from id c d e) =
      let (json, e) = total.string_total (OutgoingMessage.delivery_receipt me id) in ground arith
  receipt_task-receipts me (OutgoingMessage.typing from) = refl
  receipt_task-receipts me (OutgoingMessage.delivery_receipt to id) = refl
  receipt_task-receipts me (OutgoingMessage.read_receipt from id) = refl
  receipt_task-receipts me (OutgoingMessage.presence_update user online) = refl

  receipts-append :
      (me : String) (m : OutgoingMessage) (ms : List OutgoingMessage)
      → receipts me (m ∷ []) ++ receipts me ms ≡ receipts me (m ∷ ms)
  receipts-append me (OutgoingMessage.text from id c) ms = refl
  receipts-append me (OutgoingMessage.encrypted from id c) ms = refl
  receipts-append me (OutgoingMessage.file from id c d e) ms = refl
  receipts-append me (OutgoingMessage.typing from) ms = refl
  receipts-append me (OutgoingMessage.delivery_receipt to id) ms = refl
  receipts-append me (OutgoingMessage.read_receipt from id) ms = refl
  receipts-append me (OutgoingMessage.presence_update user online) ms = refl

  abbrev Flushed : String → List OutgoingMessage → Opening codec svc → Opening codec svc → Type 0
  Flushed me ms o o' =
      (o'.outbox ≡ o.outbox ++ map spell ms) × (o'.spawned ≡ o.spawned ++ receipts me ms)

  flush-Flushed :
      (me : String) (ms : List OutgoingMessage) (o : Opening codec svc)
      → Flushed me ms o (flush codec svc me ms o)
  unfolding flush
  flush-Flushed me [] o = (sym (append-nil o.outbox), sym (append-nil o.spawned))
  flush-Flushed me (m ∷ ms) o =
      let next : Opening codec svc = record {
        services = o.services;
        outbox = o.outbox ++ one_if_some (codec.outgoing_string m);
        spawned = o.spawned ++ receipt_task codec svc me (receipt_info m);
      } in
      let (queued, tasks) = flush-Flushed me ms next in
      let (json, e) = total.string_total m in
      (
        queued
            ∙ ap (λ x. (o.outbox ++ one_if_some x) ++ map spell ms) e
            ∙ append_assoc o.outbox (json ∷ []) (map spell ms),
        tasks
            ∙ ap (λ x. (o.spawned ++ x) ++ receipts me ms) (receipt_task-receipts me m)
            ∙ append_assoc o.spawned (receipts me (m ∷ [])) (receipts me ms)
            ∙ ap (λ x. o.spawned ++ x) (receipts-append me m ms),
      )

  -- A client that connects is sent its waiting messages, each once and in their order, and each text,
  -- file or encrypted message among them makes one receipt for its sender; nothing else does.
  pub open_session-Flushed :
      (me conn : String) (s : svc.State) (ms : List OutgoingMessage)
      → (svc.fetch_and_delete_offline_messages me
          (announce codec svc me true (svc.add_connection me conn s))).0
        ≡ some ms
      → let o = open_session codec svc me conn s in
        (o.outbox ≡ map spell ms) × (o.spawned ≡ receipts me ms)
  unfolding open_session
  open_session-Flushed me conn s ms h =
      let t = announce codec svc me true (svc.add_connection me conn s) in
      let fresh : Opening codec svc = record {
        services = (svc.fetch_and_delete_offline_messages me t).1;
        outbox = [];
        spawned = [];
      } in
      subst (λ a. Flushed me ms fresh (flush codec svc me (or_none a) fresh)) (sym h)
        (flush-Flushed me ms fresh)

  module _ (laws : Laws svc) (up : IsUp svc) where
    -- the repository says that it was the last connection
    abbrev pub is_true : Option Bool → Bool
    is_true none = false
    is_true (some b) = b

    -- the text that a channel gets where the repository has answered so
    abbrev pub heard : Option Bool → String → Bool → String → svc.State → List String
    heard answer me online j s =
        when
          (is_true answer
            && presence_channel me == j
            && ltb 0 (svc.subscribers s (presence_channel me)))
          (spell (OutgoingMessage.presence_update me online))

    sent-announce :
        (me j : String) (online : Bool) (answer : Option Bool) (s : svc.State)
        → svc.sent (announce codec svc me online (answer, s)) j
          ≡ svc.sent s j ++ heard answer me online j s
    unfolding announce
    sent-announce me j online none s = sym (append-nil _)
    sent-announce me j online (some false) s = sym (append-nil _)
    sent-announce me j online (some true) s =
        let note = OutgoingMessage.presence_update me online in
        let (json, e) = total.string_total note in
        let told = sent-published codec svc total laws up (presence_channel me) note s j in
        ground (arith, told)

    -- Those who watch a user are told that the user is gone exactly when the last connection ends, and
    -- no other channel gets anything.
    pub sent-close_session :
        (me conn j : String) (s : svc.State)
        → svc.sent (close_session codec svc me conn s) j
          ≡ svc.sent s j ++ heard (svc.remove_connection me conn s).0 me false j s
    unfolding close_session
    sent-close_session me conn j s =
        let (answer, s') = svc.remove_connection me conn s in
        sent-announce me j false answer s'
        ∙ rw (laws.sent-remove me conn j s, laws.subscribers-remove me conn (presence_channel me) s)
            refl
