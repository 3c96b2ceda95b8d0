-- ===== src/Relay/Receiving/Whole.antt =====
-- relay/src/lib.rs: the receiving task call by call, and the body of its loop in one piece.
use invisible_backend.Prelude.{
  [], ◌∷◌, suc, zero, none, some, refl, ◌≡◌, String, ℕ, Option, Bool, arith, inl, inr, List, length,
  Option-cases,
}
use invisible_backend.Relay.{Codec, Services}
use invisible_backend.Relay.Receiving.{advances, advance, reading, begin, logging}
use invisible_backend.Relay.Route.{
  Parsed, act, receive, Client, deliver, plan, after_publish, Plan, planned,
}
use invisible_backend.Models.{IncomingMessage}
use invisible_backend.Relay.Route.{
  watch_presence, after_publish, deliver, watch, planned, plan, Parsed, act, receive, Client, Plan,
}
use invisible_backend.Relay.Receiving.{
  reading, begin, asking, logging, first_call, advance, advances,
}

module _ (codec : Codec) (svc : Services) where
  advances-reading :
      (n : ℕ) (connected : Bool) (me : String) (c : Client codec svc)
      → advances codec svc n connected me (reading, c) ≡ (reading, c)
  unfolding advances advance
  advances-reading zero connected me c = refl
  advances-reading (suc n) connected me c = advances-reading n connected me c

  advances-asking :
      (uids : List String) (connected : Bool) (me : String) (c : Client codec svc)
      → advances codec svc (suc (length uids)) connected me (asking uids, c)
        ≡ (reading, watch_presence codec svc uids c)
  unfolding advances advance watch_presence
  advances-asking [] connected me c = refl
  advances-asking (uid ∷ uids) connected me c =
      advances-asking uids connected me (watch_presence codec svc (uid ∷ []) c)

  advances-logging :
      (p : Plan) (connected : Bool) (me : String) (c : Client codec svc)
      → advances codec svc 3 connected me (logging p, c)
        ≡ (reading, act codec svc connected me (planned p) c)
  unfolding advances advance act deliver after_publish
  advances-logging p connected me c = ground arith

  -- how many calls a text takes at most
  abbrev pub calls : Parsed → ℕ
  calls (planned p) = 3
  calls (watch uids) = suc (length uids)

  abbrev pub calls_of : String → Option IncomingMessage → ℕ
  calls_of me none = 0
  calls_of me (some m) = calls (plan me m)

  advances-first_call :
      (x : Parsed) (connected : Bool) (me : String) (c : Client codec svc)
      → advances codec svc (calls x) connected me (first_call x, c)
        ≡ (reading, act codec svc connected me x c)
  unfolding act
  advances-first_call (planned p) connected me c = advances-logging p connected me c
  advances-first_call (watch uids) connected me c = advances-asking uids connected me c

  -- Undisturbed, the calls that the task makes one by one about a text come to what the body of the
  -- loop does about it, and the task then waits for the next text: after three calls, or one for each
  -- user whose presence is asked for.
  pub advances-receive :
      (connected : Bool) (me text : String) (c : Client codec svc)
      → advances codec svc
          (calls_of me (codec.parse_incoming text))
          connected
          me
          (begin me (codec.parse_incoming text), c)
        ≡ (reading, receive codec svc connected me text c)
  unfolding receive advances
  advances-receive connected me text c = elim (Option-cases (codec.parse_incoming text)) [
    | inl e ↦ ground arith
    | inr (m, e) ↦ ground (arith, advances-first_call (plan me m) connected me c)
  ]
