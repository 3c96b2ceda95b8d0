-- ===== src/Repository/PubSub.antt =====
-- shared/src/repository.rs, RedisPubSubRepository: PUBLISH, which sends a text to each subscriber of a
-- channel and answers how many there are. The command fails where the next entry of `outages` is true.
use invisible_backend.Prelude.{
  ℕ, String, Bool, true, false, ◌&&◌, List, [], ◌∷◌, ◌++◌, Option, none, some, ◌==◌, string_eq, ltb,
  if◌then◌else◌,
}

-- what the subscribers of a channel were sent, and how many they are
pub record PubSub : Type 0 where
  pub sent : String → List String
  pub subscribers : String → ℕ
  pub outages : List Bool

abbrev pub delivered : String → String → PubSub → String → List String
delivered channel message p c =
    if channel == c && ltb 0 (p.subscribers channel) then p.sent c ++ message ∷ [] else p.sent c

abbrev pub publish_now : String → String → PubSub → List Bool → Option ℕ × PubSub
publish_now channel message p [] =
    (some (p.subscribers channel), record p { sent = delivered channel message p })
publish_now channel message p (true ∷ rest) = (none, record p { outages = rest })
publish_now channel message p (false ∷ rest) =
    (some (p.subscribers channel), record p { sent = delivered channel message p; outages = rest })

unfoldable pub publish_message : String → String → PubSub → Option ℕ × PubSub
publish_message channel message p = publish_now channel message p p.outages
