-- ===== src/Relay/Tasks/Order/Since.antt =====
-- relay/src/lib.rs, handle_socket: from where on the socket gets what the user's channel is sent.
use invisible_backend.Relay.Feed.{starting, listening}
use invisible_backend.Relay.Tasks.{Step, Reach, here, next, Connection, opened, spawn_tasks}
use invisible_backend.Prelude.{
  [], ◌∷◌, inl, inr, refl, ◌≡◌, ◌++◌, ◌⊎◌, List, String, sym, ◌∙◌, ap, ap₂, append_assoc,
  append-nil, arith, subst,
}
use invisible_backend.Relay.{Codec, Services, user_channel}
use invisible_backend.Relay.Later.{Growth, IsGrown}
use invisible_backend.Relay.Tasks.Order.{InOrder}
use invisible_backend.Relay.Tasks.Order.Reached.{Reach-keeps, opened-InOrder}
use invisible_backend.Relay.Session.{open_session}
use invisible_backend.Relay.Tasks.Order.Moves.{Moves, Step-Moves, stays, opens, takes, ends}

module _ (codec : Codec) (svc : Services) (Others : svc.State → svc.State → Type 0)
    (me conn : String) where
  -- Between these two states, a step of the run makes the subscription. What `pubsub_task` has
  -- forwarded is what the channel had not been sent then, up to some text.
  pub record IsSince (start end : Connection codec svc) : Type 0 where
    pub before : Connection codec svc
    pub after : Connection codec svc
    pub way : Reach codec svc Others me conn start before
    pub step : Step codec svc Others me conn before after
    pub onward : Reach codec svc Others me conn after end
    pub yet : before.feed.stage ≡ starting
    pub old : List String
    pub made : after.feed.stage ≡ listening old
    pub unread : List String
    pub follows :
        svc.sent end.services (user_channel me)
        ≡ (svc.sent before.services (user_channel me) ++ end.feed.forwarded) ++ unread

  abbrev pub IsListening : Connection codec svc → Type 0
  IsListening t = (b : List String) × (t.feed.stage ≡ listening b)

  -- Nothing was forwarded and the task does not listen, or the subscription was made, and a task
  -- that listens has what the channel had been sent when it was.
  abbrev Opened : Connection codec svc → Connection codec svc → Type 0
  Opened start t =
      ((t.feed.forwarded ≡ []) × ¬ IsListening t)
      ⊎ ((since : IsSince start t) × ((b : List String)
            → t.feed.stage ≡ listening b
            → b ≡ svc.sent since.before.services (user_channel me))
          × ¬ (t.feed.stage ≡ starting))

  extend :
      {start s t : Connection codec svc} (since : IsSince start s) (unread : List String)
      → Step codec svc Others me conn s t
      → svc.sent t.services (user_channel me)
        ≡ (svc.sent since.before.services (user_channel me) ++ t.feed.forwarded) ++ unread
      → IsSince start t
  extend since unread step e = record {
    before = since.before;
    after = since.after;
    way = since.way;
    step = since.step;
    onward = next since.onward step;
    yet = since.yet;
    old = since.old;
    made = since.made;
    unread = unread;
    follows = e;
  }

  grows :
      {start s t : Connection codec svc} (since : IsSince start s)
      → Step codec svc Others me conn s t
      → IsGrown svc s.services t.services
      → t.feed.forwarded ≡ s.feed.forwarded
      → IsSince start t
  grows since step grown e =
      let (more, added) = grown (user_channel me) in
      let base = svc.sent since.before.services (user_channel me) in
      extend since (since.unread ++ more) step (
        added
        ∙ ap (λ l. l ++ more) since.follows
        ∙ append_assoc (base ++ _) since.unread more
        ∙ ap (λ l. (base ++ l) ++ (since.unread ++ more)) (sym e))

  subscribed :
      {start s t : Connection codec svc}
      → Reach codec svc Others me conn start s
      → Step codec svc Others me conn s t
      → s.feed.channel ≡ user_channel me
      → s.feed.stage ≡ starting
      → s.feed.forwarded ≡ []
      → svc.sent t.services s.feed.channel ≡ svc.sent s.services s.feed.channel
      → t.feed ≡ record s.feed { stage = listening (svc.sent s.services s.feed.channel) }
      → Opened start t
  subscribed {start} {s} {t} r step named starts silent same e =
      let base = svc.sent s.services (user_channel me) in
      inr (
        record {
          before = s;
          after = t;
          way = r;
          step = step;
          onward = here;
          yet = starts;
          old = svc.sent s.services s.feed.channel;
          made = ap (λ f. f.stage) e;
          unread = [];
          follows =
              subst (λ c. svc.sent t.services c ≡ svc.sent s.services c) named same
              ∙ sym (append-nil base)
              ∙ sym (append-nil (base ++ []))
              ∙ ap (λ l. (base ++ l) ++ []) (sym (ap (λ f. f.forwarded) e ∙ silent));
        },
        λ b at. ground (arith, ap (λ f. f.stage) e, at, ap (svc.sent s.services) named),
        λ at. ground (arith, ap (λ f. f.stage) e, at),
      )

  took :
      {start s t : Connection codec svc} (since : IsSince start s) (y : String)
      (before unread : List String)
      → Step codec svc Others me conn s t
      → s.feed.channel ≡ user_channel me
      → before ≡ svc.sent since.before.services (user_channel me)
      → svc.sent s.services s.feed.channel ≡ (before ++ s.feed.forwarded) ++ y ∷ unread
      → svc.sent t.services s.feed.channel ≡ svc.sent s.services s.feed.channel
      → t.feed.forwarded ≡ s.feed.forwarded ++ y ∷ []
      → IsSince start t
  took {s} {t} since y before unread step named base sent same e = extend since unread step (
      subst (λ c. svc.sent t.services c ≡ (before ++ s.feed.forwarded) ++ y ∷ unread) named
        (same ∙ sent)
      ∙ sym (append_assoc (before ++ s.feed.forwarded) (y ∷ []) unread)
      ∙ ap (λ l. l ++ unread) (append_assoc before s.feed.forwarded (y ∷ []))
      ∙ ap₂ (λ b l. (b ++ l) ++ unread) base (sym e))

  Moves-Opened :
      {start s t : Connection codec svc}
      → Reach codec svc Others me conn start s
      → Step codec svc Others me conn s t
      → s.feed.channel ≡ user_channel me
      → Moves codec svc s.services t.services s.feed t.feed
      → Opened start s
      → Opened start t
  unfolding grows extend took
  Moves-Opened r step named (stays grown e) (inl (silent, deaf)) =
      inl (ap (λ f. f.forwarded) e ∙ silent, λ (b, at). deaf (b, sym (ap (λ f. f.stage) e) ∙ at))
  Moves-Opened r step named (stays grown e) (inr (since, same, begun)) = inr (
    grows since step grown (ap (λ f. f.forwarded) e),
    λ b at. same b (sym (ap (λ f. f.stage) e) ∙ at),
    λ at. begun (sym (ap (λ f. f.stage) e) ∙ at),
  )
  Moves-Opened r step named (opens starts same e) (inl (silent, deaf)) =
      subscribed r step named starts silent same e
  Moves-Opened r step named (opens starts same e) (inr (since, known, begun)) =
      absurd (begun starts)
  Moves-Opened r step named (takes before y unread at sent same e) (inl (silent, deaf)) =
      absurd (deaf (before, at))
  Moves-Opened r step named (takes before y unread at sent same e) (inr (since, known, begun)) =
      inr (
        took since y before unread step named (known before at) sent same (ap (λ f. f.forwarded) e),
        λ b there. known b (sym (ap (λ f. f.stage) e) ∙ there),
        λ there. begun (sym (ap (λ f. f.stage) e) ∙ there),
      )
  Moves-Opened r step named (ends grown e) (inl (silent, deaf)) =
      inl (ap (λ f. f.forwarded) e ∙ silent, λ (b, at). ground (arith, ap (λ f. f.stage) e, at))
  Moves-Opened r step named (ends grown e) (inr (since, same, begun)) = inr (
    grows since step grown (ap (λ f. f.forwarded) e),
    λ b at. absurd (ground (arith, ap (λ f. f.stage) e, at)),
    λ at. ground (arith, ap (λ f. f.stage) e, at),
  )

module _ (codec : Codec) (svc : Services) (growth : Growth svc)
    (Others : svc.State → svc.State → Type 0)
    (later : (s t : svc.State) → Others s t → IsGrown svc s t) (me conn : String) where
  abbrev Ordered : svc.State → Connection codec svc → Type 0
  Ordered s = InOrder codec svc me (open_session codec svc me conn s).outbox

  Reach-Ordered :
      (s : svc.State) {t : Connection codec svc}
      → Reach codec svc Others me conn (opened codec svc me conn s) t
      → Ordered s t
  Reach-Ordered s r =
      Reach-keeps codec svc growth Others later me conn (open_session codec svc me conn s).outbox r
        (opened-InOrder codec svc me conn s)

  Reach-Opened :
      (s : svc.State) {t : Connection codec svc}
      → Reach codec svc Others me conn (opened codec svc me conn s) t
      → Opened codec svc Others me conn (opened codec svc me conn s) t
  unfolding spawn_tasks
  Reach-Opened s here = inl (refl, λ (b, at). ground arith)
  Reach-Opened s (next r step) =
      Moves-Opened codec svc Others me conn r step (Reach-Ordered s r).channel
        (Step-Moves codec svc growth Others later me conn step) (Reach-Opened s r)

  -- In whatever order the tasks of a connection take their steps, and wherever they end or are stopped,
  -- with other users that only ever add to what the channels were sent, and subscribe and leave as they
  -- like: the texts that the socket took, followed by those still queued, are first the waiting
  -- messages, then a merge of two lists. One is what `pubsub_task` has forwarded, the other holds only
  -- answers to questions for presence and texts of presence channels. Either nothing was forwarded
  -- and the task does not listen, or a step of this very run has made the subscription, and what was
  -- forwarded is what the user's channel was sent from that step on, up to some text, in its order and
  -- without a gap.
  pub Reach-InOrder :
      (s : svc.State) {t : Connection codec svc}
      → Reach codec svc Others me conn (opened codec svc me conn s) t
      → InOrder codec svc me (open_session codec svc me conn s).outbox t
        × (((t.feed.forwarded ≡ []) × ¬ IsListening codec svc Others me conn t)
            ⊎ IsSince codec svc Others me conn (opened codec svc me conn s) t)
  Reach-InOrder s r = (
    Reach-Ordered s r,
    elim (Reach-Opened s r) [ inl quiet ↦ inl quiet | inr (since, known, begun) ↦ inr since ],
  )
