-- ===== src/Tests/Presence.antt =====
-- shared/src/repository.rs: connections that come and go.
use invisible_backend.Repository.Presence.Interleaved.{
  Race, Reach, adds, counts, next, here, add_connection-first,
}
use invisible_backend.Prelude.{
  String, true, false, List, [], ◌∷◌, ◌≡◌, some, ◌↔◌, ◌==◌, refl, string_eq, inl, inr, Bool,
}
use invisible_backend.Repository.Presence.First.{add_connection-connections, connections}
use invisible_backend.Repository.Presence.{Redis, sadd, scard, presence_key, add_connection}

abbrev nobody : Redis
nobody = record { sets = λ key. []; outages = [] }

-- Two first connections whose commands interleave, both SADD before both SCARD: each adds one member
-- and counts two, so that neither is told that it is the first.
abbrev both_added : String → List String
both_added = (sadd "presence:alice" "c2" (sadd "presence:alice" "c1" nobody.sets).1).1

simultaneous_first :
    ((sadd "presence:alice" "c2" (sadd "presence:alice" "c1" nobody.sets).1).0 ≡ 1)
    × ((scard "presence:alice" both_added).0 ≡ 2)
unfolding sadd scard
simultaneous_first = (refl, refl)

-- Two connections of Alice, one after the other.
abbrev empty : Race
empty = record { sets = nobody.sets; waiting = []; told = [] }

abbrev added : Race → String → Race
added r conn = record r {
  sets = (sadd "presence:alice" conn r.sets).1;
  waiting = (conn, (sadd "presence:alice" conn r.sets).0) ∷ r.waiting;
}

abbrev answered : Race → String → Bool → Race
answered r conn answer = record r { waiting = []; told = (conn, answer) ∷ r.told }

abbrev one : Race
one = answered (added empty "c1") "c1" true

abbrev two : Race
two = answered (added one "c2") "c2" false

Reach-two : Reach "presence:alice" empty two
unfolding sadd scard
Reach-two =
    next
      (next (next (next here (adds empty "c1")) (counts (added empty "c1") "c1" 1 (inl refl)))
        (adds one "c2"))
      (counts (added one "c2") "c2" 1 (inl refl))

add_connection-first_example :
    (add_connection "alice" "c3" (record { sets = two.sets; outages = [] })).0 ≡ some false
unfolding presence_key
add_connection-first_example =
    add_connection-first "alice" "c3" "c1" nobody.sets two
      (record { sets = two.sets; outages = [] }) Reach-two (inr (inl refl)) refl refl

add_connection-connections_example :
    ((true ≡ true) ↔ (connections nobody "alice" ≡ []))
    × (connections (add_connection "alice" "c1" nobody).1 "alice"
        ≡ "c1" ∷ connections nobody "alice")
    × ((other : String)
        → (presence_key "alice" == presence_key other) ≡ false
        → connections (add_connection "alice" "c1" nobody).1 other ≡ connections nobody other)
unfolding add_connection sadd scard presence_key
add_connection-connections_example = add_connection-connections "alice" "c1" nobody true refl refl
