-- ===== src/Api/Worker/Loop/Reached.antt =====
-- api/src/worker.rs: the loop among the others that share its stream and its tables.
use invisible_backend.Prelude.{
  [], ◌∷◌, inl, none, some, refl, ◌≡◌, ◌++◌, String, Option, ℕ, ◌≤◌, arith, ◌⊎◌, List, Bool, inr,
  Bool-cases, subst, sym,
}
use invisible_backend.Models.{DatabaseEvent}
use invisible_backend.Postgres.Schema.{Uuid}
use invisible_backend.Api.Worker.Loop.{
  Loop, round, step, StreamId, connect, StreamKey, Stream, fails, with_reply, step_at,
}
use invisible_backend.Postgres.{World}

module _ (from_str : String → Option DatabaseEvent) (parse_uuid : String → Option Uuid)
    (new_v4 : ℕ → Uuid) where
  -- The worker goes on, a relay adds an entry, another service changes the tables, a server fails or
  -- recovers, or the process starts again.
  pub data Turn : Loop → Loop → Type 0 where
    goes_on : (m : Loop) → Turn m (step from_str parse_uuid new_v4 m)
    adds :
        (m : Loop) (e : StreamId)
        → Turn m (record m { stream = record m.stream { fresh = m.stream.fresh ++ e ∷ [] } })
    changes : (m : Loop) (w : World) → Turn m (record m { world = w })
    redis :
        (m : Loop) (outages : List Bool)
        → Turn m (record m { stream = record m.stream { outages = outages } })
    starts : (m : Loop) → Turn m (record m { backoff = 1; read_id = none })

  pub data Reach (m : Loop) : Loop → Type 0 where
    here : Reach m m
    next : {k l : Loop} → Reach m k → Turn k l → Reach m l

  -- The pause before the next attempt is one to sixty seconds, and a reply is asked for from the start
  -- of the pending entries or for new ones, once the group is there.
  pub record IsSound (m : Loop) : Type 0 where
    pub at_least : 1 ≤ m.backoff
    pub at_most : m.backoff ≤ 60
    pub reads : (m.read_id ≡ none) ⊎ ((m.read_id ≡ some "0") ⊎ (m.read_id ≡ some ">"))

  with_reply-IsSound :
      (read_id : String) (reply : Option (List StreamKey)) (s : Stream) (m : Loop)
      → (read_id ≡ "0") ⊎ (read_id ≡ ">")
      → IsSound m
      → IsSound (with_reply from_str parse_uuid new_v4 read_id reply s m)
  with_reply-IsSound read_id none s m known sound = record {
    at_least = sound.at_least;
    at_most = sound.at_most;
    reads = inl refl;
  }
  with_reply-IsSound read_id (some []) s m known sound = record {
    at_least = sound.at_least;
    at_most = sound.at_most;
    reads = inr (ground arith);
  }
  with_reply-IsSound read_id (some (k ∷ ks)) s m known sound = record {
    at_least = sound.at_least;
    at_most = sound.at_most;
    reads = inr (ground arith);
  }

  connect-IsSound : (m : Loop) → IsSound m → IsSound (connect m)
  unfolding connect
  connect-IsSound m s = elim (Bool-cases (fails m.stream.outages)) [
    | inl down ↦ record {
      at_least = ground (arith, s.at_least);
      at_most = ground arith;
      reads = ground (arith, s.reads);
    }
    | inr up ↦ record {
      at_least = ground arith;
      at_most = ground arith;
      reads = inr (inl (ground arith));
    }
  ]

  step-IsSound : (m : Loop) → IsSound m → IsSound (step from_str parse_uuid new_v4 m)
  unfolding step round
  step-IsSound m s = elim s.reads [
    | inl lost ↦ at (sym lost) (connect-IsSound m s)
    | inr (inl replays) ↦ at (sym replays) (with_reply-IsSound "0" _ _ m (inl refl) s)
    | inr (inr waits) ↦ at (sym waits) (with_reply-IsSound ">" _ _ m (inr refl) s)
  ]
    where
      at :
          {r : Option String}
          → r ≡ m.read_id
          → IsSound (step_at from_str parse_uuid new_v4 r m)
          → IsSound (step_at from_str parse_uuid new_v4 m.read_id m)
      at e = subst (λ r. IsSound (step_at from_str parse_uuid new_v4 r m)) e

  Turn-IsSound : {m l : Loop} → Turn m l → IsSound m → IsSound l
  Turn-IsSound (goes_on m) s = step-IsSound m s
  Turn-IsSound (adds m e) s = record { at_least = s.at_least; at_most = s.at_most; reads = s.reads }
  Turn-IsSound (changes m w) s = record {
    at_least = s.at_least;
    at_most = s.at_most;
    reads = s.reads;
  }
  Turn-IsSound (redis m outages) s = record {
    at_least = s.at_least;
    at_most = s.at_most;
    reads = s.reads;
  }
  Turn-IsSound (starts m) s = record {
    at_least = omega arith;
    at_most = omega arith;
    reads = inl refl;
  }

  -- However the loop, the relays, the other services, the servers and restarts take turns, the pause
  -- before the next attempt stays between one second and sixty, and the loop reads only from the start
  -- of its pending entries or for new ones.
  pub Reach-IsSound : {m l : Loop} → IsSound m → Reach m l → IsSound l
  Reach-IsSound s here = s
  Reach-IsSound s (next r t) = Turn-IsSound t (Reach-IsSound s r)
