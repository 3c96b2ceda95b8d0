-- ===== src/Repository/Presence/First.antt =====
-- shared/src/repository.rs: what the replies about a user's connections say.
use invisible_backend.Repository.Presence.{
  add_connection, remove_connection, is_online, sadd, srem, scard, has,
}
use invisible_backend.Prelude.{
  not, string_eq, [], ◌∷◌, some, true, false, ◌==◌, ◌≡◌, String, List, Bool, ◌↔◌, arith, all, ◌≢◌,
  ==_refl, retain, not, string_eq, inl, inr, refl, ◌⊎◌, length,
}
use invisible_backend.Repository.Presence.{Redis, presence_key}

-- the connections of a user
abbrev pub connections : Redis → String → List String
connections r user = r.sets (presence_key user)

List-cases : (l : List String) → (l ≡ []) ⊎ ((x : String) × (xs : List String) × (l ≡ x ∷ xs))
List-cases [] = inl refl
List-cases (x ∷ xs) = inr (x, xs, refl)

none_left :
    (conn : String) (l : List String)
    → (all (λ c. c == conn) l ≡ true) ↔ (length (retain (λ c. not (c == conn)) l) ≡ 0)
none_left conn [] = (λ h. refl, λ h. refl)
none_left conn (c ∷ l) = ground (arith, none_left conn l)

-- An added connection that is new is the first exactly when there was none before, it is a connection
-- from then on, and the connections of users with another key stay.
pub add_connection-connections :
    (user conn : String) (r : Redis) (first : Bool)
    → has conn (connections r user) ≡ false
    → (add_connection user conn r).0 ≡ some first
    → ((first ≡ true) ↔ (connections r user ≡ []))
      × (connections (add_connection user conn r).1 user ≡ conn ∷ connections r user)
      × ((other : String)
          → (presence_key user == presence_key other) ≡ false
          → connections (add_connection user conn r).1 other ≡ connections r other)
unfolding add_connection sadd scard
add_connection-connections user conn r first new h = elim (List-cases (connections r user)) [
  | inl empty ↦ ground (arith, ==_refl (presence_key user))
  | inr (x, xs, some_there) ↦ ground (arith, ==_refl (presence_key user))
]

-- A removed connection that was there is the last exactly when no other is left, it is no connection
-- from then on, and the connections of users with another key stay.
pub remove_connection-connections :
    (user conn : String) (r : Redis) (last : Bool)
    → has conn (connections r user) ≡ true
    → (remove_connection user conn r).0 ≡ some last
    → ((last ≡ true) ↔ (all (λ c. c == conn) (connections r user) ≡ true))
      × (connections (remove_connection user conn r).1 user
          ≡ retain (λ c. not (c == conn)) (connections r user))
      × ((other : String)
          → (presence_key user == presence_key other) ≡ false
          → connections (remove_connection user conn r).1 other ≡ connections r other)
unfolding remove_connection srem scard
remove_connection-connections user conn r last there h =
    ground (arith, ==_refl (presence_key user), none_left conn (connections r user))

-- A user is online exactly while there is a connection, and asking changes nothing.
pub is_online-connections :
    (user : String) (r : Redis) (online : Bool)
    → (is_online user r).0 ≡ some online
    → ((online ≡ true) ↔ (connections r user ≢ [])) × ((is_online user r).1.sets ≡ r.sets)
unfolding is_online scard
is_online-connections user r online h = elim (List-cases (connections r user)) [
  | inl empty ↦ ground arith
  | inr (x, xs, some_there) ↦ ground arith
]
