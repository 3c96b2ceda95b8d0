-- ===== src/Relay/Tasks/Order.antt =====
-- relay/src/lib.rs, handle_socket: what the socket of a client gets, and in which order.
pub mod Forwarded
pub mod Reached
pub mod Moves
pub mod Since
use invisible_backend.Relay.Feed.{starting, listening, Feed, Stage, ended}
use invisible_backend.Relay.Tasks.{Forward}
use invisible_backend.Prelude.{
  [], ◌∷◌, inl, inr, some, ◌≡◌, ◌++◌, List, String, Bool, ◌⊎◌, In, All, ap, subst, sym, ◌∙◌,
  In-left, append_assoc, All-append, All-map,
}
use invisible_backend.Relay.{Codec, Services, presence_channel, user_channel}
use invisible_backend.Relay.Tasks.{Connection}
use invisible_backend.Relay.Later.{IsGrown}
use invisible_backend.Models.{OutgoingMessage}

-- The third list holds the texts of the first two, each in its order.
pub data Merge : List String → List String → List String → Type 0 where
  nothing : Merge [] [] []
  left :
      (x : String) {xs ys zs : List String}
      → Merge xs ys zs
      → Merge (xs ++ x ∷ []) ys (zs ++ x ∷ [])
  right :
      (y : String) {xs ys zs : List String}
      → Merge xs ys zs
      → Merge xs (ys ++ y ∷ []) (zs ++ y ∷ [])

module _ (codec : Codec) (svc : Services) where
  abbrev pub IsPresenceChannel : Feed → Type 0
  IsPresenceChannel w = (uid : String) × (w.channel ≡ presence_channel uid)

  -- an answer to a question for someone's presence
  abbrev pub IsAnswer : String → Type 0
  IsAnswer y =
      (uid : String) × (online : Bool) × (codec.outgoing_string
          (OutgoingMessage.presence_update uid online)
        ≡ some y)

  -- such an answer, or a text that was sent on a presence channel
  abbrev pub IsAside : svc.State → String → Type 0
  IsAside s y = IsAnswer y ⊎ ((uid : String) × In y (svc.sent s (presence_channel uid)))

  -- What was forwarded is what the channel was sent from the subscription on, up to some text.
  abbrev pub Follows : Stage → List String → List String → Type 0
  Follows starting sent forwarded = forwarded ≡ []
  Follows (listening before) sent forwarded =
      (unread : List String) × (sent ≡ (before ++ forwarded) ++ unread)
  Follows ended sent forwarded =
      (before : List String) × (unread : List String) × (sent ≡ (before ++ forwarded) ++ unread)

  -- Of what was queued: first these texts, then, merged, what was forwarded of the user's channel, in
  -- its order and without a gap, and asides.
  pub record IsOrdered (me : String) (first : List String) (s : svc.State) (queued : List String)
      (feed : Feed) (watches : List Feed) : Type 0 where
    pub asides : List String
    pub rest : List String
    pub whole : queued ≡ first ++ rest
    pub merged : Merge feed.forwarded asides rest
    pub aside : All (IsAside s) asides
    pub channel : feed.channel ≡ user_channel me
    pub follows : Follows feed.stage (svc.sent s feed.channel) feed.forwarded
    pub watched : All IsPresenceChannel watches

  abbrev pub InOrder : String → List String → Connection codec svc → Type 0
  InOrder me first s = IsOrdered me first s.services (s.wire ++ s.outbox) s.feed s.watches

  -- The services go on.
  IsAside-later : (s t : svc.State) → IsGrown svc s t → (y : String) → IsAside s y → IsAside t y
  IsAside-later s t later y (inl a) = inl a
  IsAside-later s t later y (inr (uid, there)) =
      let (more, e) = later (presence_channel uid) in
      inr (uid, subst (In y) (sym e) (In-left y _ more there))

  Follows-more :
      (stage : Stage) (sent more forwarded : List String)
      → Follows stage sent forwarded
      → Follows stage (sent ++ more) forwarded
  Follows-more starting sent more forwarded h = h
  Follows-more (listening before) sent more forwarded (unread, e) =
      (unread ++ more, ap (λ l. l ++ more) e ∙ append_assoc (before ++ forwarded) unread more)
  Follows-more ended sent more forwarded (before, unread, e) = (
    before,
    unread ++ more,
    ap (λ l. l ++ more) e ∙ append_assoc (before ++ forwarded) unread more,
  )

  Follows-ended :
      (stage : Stage) (sent forwarded : List String)
      → Follows stage sent forwarded
      → Follows ended sent forwarded
  Follows-ended starting sent forwarded h = ([], sent, ap (λ l. l ++ sent) (sym h))
  Follows-ended (listening before) sent forwarded (unread, e) = (before, unread, e)
  Follows-ended ended sent forwarded h = h

  module _ {me : String} {first : List String} {feed : Feed} {watches : List Feed} where
    pub IsOrdered-later :
        {s t : svc.State} {queued : List String}
        → IsGrown svc s t
        → IsOrdered me first s queued feed watches
        → IsOrdered me first t queued feed watches
    IsOrdered-later {s} {t} later o =
        let (more, e) = later feed.channel in
        record {
          asides = o.asides;
          rest = o.rest;
          whole = o.whole;
          merged = o.merged;
          aside = All-map (IsAside s) (IsAside t) o.asides (IsAside-later s t later) o.aside;
          channel = o.channel;
          follows =
              subst (λ l. Follows feed.stage l feed.forwarded) (sym e)
                (Follows-more feed.stage (svc.sent s feed.channel) more feed.forwarded o.follows);
          watched = o.watched;
        }

    pub IsOrdered-aside :
        {s : svc.State} {queued : List String} (y : String)
        → IsAside s y
        → IsOrdered me first s queued feed watches
        → IsOrdered me first s (queued ++ y ∷ []) feed watches
    IsOrdered-aside y a o = record {
      asides = o.asides ++ y ∷ [];
      rest = o.rest ++ y ∷ [];
      whole = ap (λ l. l ++ y ∷ []) o.whole ∙ append_assoc first o.rest (y ∷ []);
      merged = right y o.merged;
      aside = All-append _ o.asides (y ∷ []) o.aside (a, tt);
      channel = o.channel;
      follows = o.follows;
      watched = o.watched;
    }

    pub IsOrdered-forwarded :
        {s : svc.State} {queued : List String} (before : List String) (y : String)
        (unread : List String)
        → feed.stage ≡ listening before
        → svc.sent s feed.channel ≡ (before ++ feed.forwarded) ++ y ∷ unread
        → IsOrdered me first s queued feed watches
        → IsOrdered me first s
            (queued ++ y ∷ [])
            (record feed { forwarded = feed.forwarded ++ y ∷ [] })
            watches
    IsOrdered-forwarded {s} before y unread here sent o = record {
      asides = o.asides;
      rest = o.rest ++ y ∷ [];
      whole = ap (λ l. l ++ y ∷ []) o.whole ∙ append_assoc first o.rest (y ∷ []);
      merged = left y o.merged;
      aside = o.aside;
      channel = o.channel;
      follows =
          subst (λ g. Follows g (svc.sent s feed.channel) (feed.forwarded ++ y ∷ [])) (sym here)
            (
              unread,
              sent
                  ∙ sym (append_assoc (before ++ feed.forwarded) (y ∷ []) unread)
                  ∙ ap (λ l. l ++ unread) (append_assoc before feed.forwarded (y ∷ [])),
            );
      watched = o.watched;
    }

    -- The subscription goes to another stage.
    pub IsOrdered-stage :
        {s : svc.State} {queued : List String} (stage : Stage)
        → Follows stage (svc.sent s feed.channel) feed.forwarded
        → IsOrdered me first s queued feed watches
        → IsOrdered me first s queued (record feed { stage = stage }) watches
    IsOrdered-stage stage follows o = record {
      asides = o.asides;
      rest = o.rest;
      whole = o.whole;
      merged = o.merged;
      aside = o.aside;
      channel = o.channel;
      follows = follows;
      watched = o.watched;
    }

    pub IsOrdered-ended :
        {s : svc.State} {queued : List String}
        → IsOrdered me first s queued feed watches
        → IsOrdered me first s queued (record feed { stage = ended }) watches
    IsOrdered-ended o = IsOrdered-stage ended (Follows-ended feed.stage _ _ o.follows) o

    -- Other presence subscriptions
    pub IsOrdered-watches :
        {s : svc.State} {queued : List String} (watches' : List Feed)
        → All IsPresenceChannel watches'
        → IsOrdered me first s queued feed watches
        → IsOrdered me first s queued feed watches'
    IsOrdered-watches watches' watched o = record {
      asides = o.asides;
      rest = o.rest;
      whole = o.whole;
      merged = o.merged;
      aside = o.aside;
      channel = o.channel;
      follows = o.follows;
      watched = watched;
    }
