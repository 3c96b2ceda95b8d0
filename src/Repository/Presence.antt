-- ===== src/Repository/Presence.antt =====
-- shared/src/repository.rs, RedisPresenceRepository: the connections of each user, as a Redis set under
-- the key of the user. A command fails, and does nothing, where the next entry of `outages` is true.
pub mod First
pub mod Interleaved
use Prim.Native.String.{◌++◌ as append}
use invisible_backend.Prelude.{
  ℕ, String, Bool, true, false, ◌&&◌, List, [], ◌∷◌, Option, none, some, ◌==◌, nat_eq, string_eq,
  any, not, retain, length, ltb, if◌then◌else◌,
}

pub record Redis : Type 0 where
  pub sets : String → List String
  pub outages : List Bool

-- A command: its reply and the sets after it.
abbrev pub Command : Type 0 → Type 0
Command A = (String → List String) → A × (String → List String)

abbrev pub reply {ℓ} : {A : Type ℓ} → List Bool → A × (String → List String) → Option A × Redis
reply rest (a, sets) = (some a, record { sets = sets; outages = rest })

-- `.query_async(&mut conn).await`
abbrev pub send : {A : Type 0} → Command A → (String → List String) → List Bool → Option A × Redis
send c sets [] = reply [] (c sets)
send c sets (true ∷ rest) = (none, record { sets = sets; outages = rest })
send c sets (false ∷ rest) = reply rest (c sets)

abbrev pub with_set : String → List String → (String → List String) → String → List String
with_set key members sets k = if key == k then members else sets k

abbrev pub has : String → List String → Bool
has member = any (λ m. m == member)

unfoldable pub sadd : String → String → Command ℕ
sadd key member sets =
    if has member (sets key) then (0, sets) else (1, with_set key (member ∷ sets key) sets)

unfoldable pub srem : String → String → Command ℕ
srem key member sets =
    if has member (sets key)
    then (1, with_set key (retain (λ m. not (m == member)) (sets key)) sets)
    else (0, sets)

unfoldable pub scard : String → Command ℕ
scard key sets = (length (sets key), sets)

-- format!("presence:{}", user_id)
unfoldable pub presence_key : String → String
presence_key user_id = append "presence:" user_id

abbrev pub counted : (ℕ → Bool) → Option ℕ × Redis → Option Bool × Redis
counted test (none, r) = (none, r)
counted test (some card, r) = (some (test card), r)

-- the second command of a pair, and the test on both counts
abbrev pub and_count : (ℕ → ℕ → Bool) → String → Option ℕ × Redis → Option Bool × Redis
and_count test key (none, r) = (none, r)
and_count test key (some n, r) = counted (test n) (send (scard key) r.sets r.outages)

unfoldable pub add_connection : String → String → Redis → Option Bool × Redis
add_connection user_id conn_id r =
    let key = presence_key user_id in
    and_count (λ added card. ltb 0 added && card == 1) key
      (send (sadd key conn_id) r.sets r.outages)

unfoldable pub remove_connection : String → String → Redis → Option Bool × Redis
remove_connection user_id conn_id r =
    let key = presence_key user_id in
    and_count (λ removed card. ltb 0 removed && card == 0) key
      (send (srem key conn_id) r.sets r.outages)

unfoldable pub is_online : String → Redis → Option Bool × Redis
is_online user_id r = counted (ltb 0) (send (scard (presence_key user_id)) r.sets r.outages)
