-- ===== src/Relay.antt =====
-- The WebSocket service of the crate relay. What it calls stands here as interfaces: the store of
-- offline messages, Redis Pub/Sub, the presence sets and the stream of history events
-- (shared/src/repository.rs declares the traits), and the spelling of messages as JSON.
pub mod Memory
pub mod Backend
pub mod Route
pub mod Session
pub mod Upgrade
pub mod Later
pub mod Receiving
pub mod Feed
pub mod Tasks
use Prim.Native.String.{◌++◌ as append}
use invisible_backend.Prelude.{
  ℕ, String, Bool, List, [], ◌∷◌, ◌++◌, Option, some, ◌≡◌, ◌&&◌, ◌==◌, string_eq, ltb,
  if◌then◌else◌,
}
use invisible_backend.Models.{IncomingMessage, OutgoingMessage, DatabaseEvent}

-- serde_json: to_string, to_value and from_str; a JSON value is kept as a text
pub record Codec : Type 0 where
  pub outgoing_string : OutgoingMessage → Option String
  pub outgoing_value : OutgoingMessage → Option String
  pub event_string : DatabaseEvent → Option String
  pub parse_incoming : String → Option IncomingMessage

-- A message of these types has a spelling.
pub record IsTotal (c : Codec) : Type 0 where
  pub string_total : (m : OutgoingMessage) → (j : String) × (c.outgoing_string m ≡ some j)
  pub value_total : (m : OutgoingMessage) → (j : String) × (c.outgoing_value m ≡ some j)
  pub event_total : (e : DatabaseEvent) → (j : String) × (c.event_string e ≡ some j)

-- What the relay calls, `xadd` and `subscribe` being calls of redis, and what becomes of a subscription
-- whose connection is dropped; `none` is the error of a Result. The observations below the operations
-- are what the laws speak of: the texts that subscribers of a channel were sent, how many subscribers
-- it has, the payloads stored for a user, and the events in the stream.
pub record Services : Type 1 where
  pub State : Type 0
  pub publish_message : String → String → State → Option ℕ × State
  pub save_offline_message : String → String → State → Option (Unit {0}) × State
  pub fetch_and_delete_offline_messages : String → State → Option (List OutgoingMessage) × State
  pub is_online : String → State → Option Bool × State
  pub add_connection : String → String → State → Option Bool × State
  pub remove_connection : String → String → State → Option Bool × State
  pub xadd : String → State → Option (Unit {0}) × State
  pub subscribe : String → State → Option (Unit {0}) × State
  pub unsubscribe : String → State → State
  pub subscribers : State → String → ℕ
  pub sent : State → String → List String
  pub stored : State → String → List String
  pub events : State → List String

-- PUBLISH returns the number of subscribers and sends the text to each; an INSERT stores one payload;
-- XADD appends one entry; SADD and SREM change who has a connection. None of them shows in the
-- observations of the others.
pub record Laws (svc : Services) : Type 0 where
  pub sent-publish :
      (c m j : String) (s : svc.State) (n : ℕ)
      → (svc.publish_message c m s).0 ≡ some n
      → svc.sent (svc.publish_message c m s).1 j
        ≡ (if c == j && ltb 0 n then svc.sent s j ++ m ∷ [] else svc.sent s j)
  pub count-publish :
      (c m : String) (s : svc.State) (n : ℕ)
      → (svc.publish_message c m s).0 ≡ some n
      → n ≡ svc.subscribers s c
  pub subscribers-publish :
      (c m j : String) (s : svc.State)
      → svc.subscribers (svc.publish_message c m s).1 j ≡ svc.subscribers s j
  pub stored-publish :
      (c m u : String) (s : svc.State) → svc.stored (svc.publish_message c m s).1 u ≡ svc.stored s u
  pub events-publish :
      (c m : String) (s : svc.State) → svc.events (svc.publish_message c m s).1 ≡ svc.events s
  pub stored-save :
      (to p u : String) (s : svc.State)
      → (svc.save_offline_message to p s).0 ≡ some tt
      → svc.stored (svc.save_offline_message to p s).1 u
        ≡ (if to == u then svc.stored s u ++ p ∷ [] else svc.stored s u)
  pub sent-save :
      (to p j : String) (s : svc.State)
      → svc.sent (svc.save_offline_message to p s).1 j ≡ svc.sent s j
  pub events-save :
      (to p : String) (s : svc.State)
      → svc.events (svc.save_offline_message to p s).1 ≡ svc.events s
  pub events-xadd :
      (e : String) (s : svc.State)
      → (svc.xadd e s).0 ≡ some tt
      → svc.events (svc.xadd e s).1 ≡ svc.events s ++ e ∷ []
  pub sent-xadd : (e j : String) (s : svc.State) → svc.sent (svc.xadd e s).1 j ≡ svc.sent s j
  pub stored-xadd : (e u : String) (s : svc.State) → svc.stored (svc.xadd e s).1 u ≡ svc.stored s u
  pub subscribers-xadd :
      (e j : String) (s : svc.State) → svc.subscribers (svc.xadd e s).1 j ≡ svc.subscribers s j
  pub sent-add :
      (u c j : String) (s : svc.State) → svc.sent (svc.add_connection u c s).1 j ≡ svc.sent s j
  pub subscribers-add :
      (u c j : String) (s : svc.State)
      → svc.subscribers (svc.add_connection u c s).1 j ≡ svc.subscribers s j
  pub sent-remove :
      (u c j : String) (s : svc.State) → svc.sent (svc.remove_connection u c s).1 j ≡ svc.sent s j
  pub subscribers-remove :
      (u c j : String) (s : svc.State)
      → svc.subscribers (svc.remove_connection u c s).1 j ≡ svc.subscribers s j

-- No call fails.
pub record IsUp (svc : Services) : Type 0 where
  pub publish_up :
      (c m : String) (s : svc.State) → (n : ℕ) × ((svc.publish_message c m s).0 ≡ some n)
  pub save_up : (to p : String) (s : svc.State) → (svc.save_offline_message to p s).0 ≡ some tt
  pub xadd_up : (e : String) (s : svc.State) → (svc.xadd e s).0 ≡ some tt

-- format!("user:{}", …) and format!("presence:{}", …)
unfoldable pub user_channel : String → String
user_channel id = append "user:" id

unfoldable pub presence_channel : String → String
presence_channel id = append "presence:" id
