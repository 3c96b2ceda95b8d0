-- ===== src/Relay/Memory.antt =====
-- The services of the relay in memory: each user's store, each channel's texts and subscribers, and the
-- stream, none of which ever fails. A text is spelled as its fields with colons between them.
use Prim.Native.String.{◌++◌ as append}
use invisible_backend.Prelude.{
  ℕ, String, Bool, true, List, [], ◌∷◌, ◌++◌, none, some, ◌&&◌, ◌==◌, string_eq, ltb, if◌then◌else◌,
  refl, arith, suc, false, ◌≡◌, sym, ◌∙◌, append-nil, ==_refl, ◌-◌,
}
use invisible_backend.Models.{IncomingMessage, OutgoingMessage, DatabaseEvent}
use invisible_backend.Relay.{Codec, IsTotal, Services, Laws, IsUp}
use invisible_backend.Relay.Later.{IsLater, IsKept, Growth, IsLater-refl, IsKept-refl}

pub record Memory : Type 0 where
  pub channels : String → List String
  pub listeners : String → ℕ
  pub queues : String → List String
  pub stream : List String

abbrev pub post : Bool → String → (String → List String) → String → List String
post b m f j = if b then f j ++ m ∷ [] else f j

abbrev pub memory : Services
memory = record {
  State = Memory;
  publish_message = λ c m s. (
    some (s.listeners c),
    record s { channels = λ j. post (c == j && ltb 0 (s.listeners c)) m s.channels j },
  );
  save_offline_message =
      λ to p s. (some tt, record s { queues = λ u. post (to == u) p s.queues u });
  fetch_and_delete_offline_messages =
      λ u s. (some (OutgoingMessage.text "bob" "m0" "hi" ∷ OutgoingMessage.typing "bob" ∷ []), s);
  is_online = λ u s. (some (ltb 0 (s.listeners u)), s);
  add_connection = λ u c s. (some true, s);
  remove_connection = λ u c s. (some true, s);
  xadd = λ e s. (some tt, record s { stream = s.stream ++ e ∷ [] });
  subscribe = λ c s. (
    some tt,
    record s { listeners = λ j. if c == j then suc (s.listeners j) else s.listeners j },
  );
  unsubscribe =
      λ c s. record s { listeners = λ j. if c == j then s.listeners j - 1 else s.listeners j };
  subscribers = λ s c. s.listeners c;
  sent = λ s c. s.channels c;
  stored = λ s u. s.queues u;
  events = λ s. s.stream;
}

pub memory-Laws : Laws memory
memory-Laws = record {
  sent-publish = λ c m j s n h. ground arith;
  count-publish = λ c m s n h. ground arith;
  subscribers-publish = λ c m j s. refl;
  stored-publish = λ c m u s. refl;
  events-publish = λ c m s. refl;
  stored-save = λ to p u s h. refl;
  sent-save = λ to p j s. refl;
  events-save = λ to p s. refl;
  events-xadd = λ e s h. refl;
  sent-xadd = λ e j s. refl;
  stored-xadd = λ e u s. refl;
  subscribers-xadd = λ e j s. refl;
  sent-add = λ u c j s. refl;
  subscribers-add = λ u c j s. refl;
  sent-remove = λ u c j s. refl;
  subscribers-remove = λ u c j s. refl;
}

pub memory-IsUp : IsUp memory
memory-IsUp = record {
  publish_up = λ c m s. (s.listeners c, refl);
  save_up = λ to p s. refl;
  xadd_up = λ e s. refl;
}

abbrev pub fields : String → String → String
fields a b = append a (append ":" b)

abbrev pub spell_outgoing : OutgoingMessage → String
spell_outgoing (OutgoingMessage.encrypted from id cs) = fields "encrypted" (fields from id)
spell_outgoing (OutgoingMessage.text from id content) =
    fields "text" (fields from (fields id content))
spell_outgoing (OutgoingMessage.file from id name mime url) =
    fields "file" (fields from (fields id url))
spell_outgoing (OutgoingMessage.typing from) = fields "typing" from
spell_outgoing (OutgoingMessage.delivery_receipt to id) = fields "delivered" (fields to id)
spell_outgoing (OutgoingMessage.read_receipt from id) = fields "read" (fields from id)
spell_outgoing (OutgoingMessage.presence_update user online) =
    fields "presence" (fields user (if online then "on" else "off"))

abbrev pub spell_event : DatabaseEvent → String
spell_event (DatabaseEvent.new_encrypted_message id sender recipient cs) =
    fields sender (fields recipient id)
spell_event (DatabaseEvent.new_message id sender recipient kind _ _ _ _) =
    fields kind (fields sender (fields recipient id))
spell_event (DatabaseEvent.read_receipt id reader) = fields reader id

-- The parser knows two texts, a greeting and the wish to watch Alice.
abbrev pub plain_codec : Codec
plain_codec = record {
  outgoing_string = λ m. some (spell_outgoing m);
  outgoing_value = λ m. some (spell_outgoing m);
  event_string = λ e. some (spell_event e);
  parse_incoming = λ t.
      if t == "greeting"
      then some (IncomingMessage.text "bob" "m1" "hello")
      else if t == "watch"
      then some (IncomingMessage.watch_presence ("alice" ∷ []))
      else none;
}

pub plain_codec-IsTotal : IsTotal plain_codec
plain_codec-IsTotal = record {
  string_total = λ m. (spell_outgoing m, refl);
  value_total = λ m. (spell_outgoing m, refl);
  event_total = λ e. (spell_event e, refl);
}

memory-IsLater :
    (s s' : Memory)
    → ((j : String) → s'.channels j ≡ s.channels j)
    → ((j : String) → s'.listeners j ≡ s.listeners j)
    → IsLater memory s s'
memory-IsLater s s' sent here = record {
  sent = λ j. ([], sent j ∙ sym (append-nil _));
  subscribers = λ j. ground (arith, here j);
}

post-grows :
    (b : Bool) (m : String) (f : String → List String) (j : String)
    → (more : List String) × (post b m f j ≡ f j ++ more)
post-grows true m f j = (m ∷ [], refl)
post-grows false m f j = ([], sym (append-nil _))

memory-IsKept : (s s' : Memory) → ((u : String) → s'.queues u ≡ s.queues u) → IsKept memory s s'
memory-IsKept s s' e = record { stored = λ u. ([], e u ∙ sym (append-nil _)) }

pub memory-Growth : Growth memory
memory-Growth = record {
  later_publish = λ c m s. record {
    sent = λ j. post-grows (c == j && ltb 0 (s.listeners c)) m s.channels j;
    subscribers = λ j. omega arith;
  };
  later_save = λ to p s. memory-IsLater s _ (λ j. refl) (λ j. refl);
  later_fetch = λ u s. IsLater-refl memory s;
  later_online = λ u s. IsLater-refl memory s;
  later_add = λ u c s. IsLater-refl memory s;
  later_remove = λ u c s. IsLater-refl memory s;
  later_xadd = λ e s. memory-IsLater s _ (λ j. refl) (λ j. refl);
  later_subscribe =
      λ c s. record { sent = λ j. ([], sym (append-nil _)); subscribers = λ j. ground arith };
  sent_subscribe = λ c j s. refl;
  sent_unsubscribe = λ c j s. refl;
  counted_unsubscribe = λ c s. ground (arith, ==_refl c);
  uncounted_unsubscribe = λ c j s h. ground arith;
  counted_subscribe = λ c s h. ground (arith, ==_refl c);
  kept_publish = λ c m s. memory-IsKept s _ (λ u. refl);
  kept_save = λ to p s. record { stored = λ u. post-grows (to == u) p s.queues u };
  kept_online = λ u s. IsKept-refl memory s;
  kept_add = λ u c s. IsKept-refl memory s;
  kept_remove = λ u c s. IsKept-refl memory s;
  kept_xadd = λ e s. memory-IsKept s _ (λ u. refl);
  kept_subscribe = λ c s. memory-IsKept s _ (λ u. refl);
  kept_unsubscribe = λ c s. memory-IsKept s _ (λ u. refl);
}
