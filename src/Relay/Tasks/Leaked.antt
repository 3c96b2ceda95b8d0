-- ===== src/Relay/Tasks/Leaked.antt =====
-- relay/src/lib.rs, handle_socket: the tasks that WatchPresence makes, and the end of the connection.
use invisible_backend.Relay.Feed.{listening, ended, new_feed, own}
use invisible_backend.Relay.Route.{watch_presence, plan}
use invisible_backend.Relay.Tasks.{
  waiting, closed, subscribes, Step, connects, hears, hangs_up, works, watches_presence, selects,
  aborts_sending, aborts_listening, closes, Reach, here, next, Connection, opened, work,
  spawn_tasks, some_ended,
}
use invisible_backend.Relay.Tasks.Counted.{own-middle, Reach-Counted}
use invisible_backend.Relay.Receiving.{advance, asking, reading, stopped, begin}
use invisible_backend.Prelude.{
  [], ◌∷◌, suc, zero, some, true, false, refl, ◌≡◌, ◌++◌, String, ℕ, ◌≤◌, arith, subst, append-nil,
  ==_refl, string_eq,
}
use invisible_backend.Relay.{Codec, Services, presence_channel}
use invisible_backend.Models.{IncomingMessage}
use invisible_backend.Relay.Later.{Growth}

module _ (codec : Codec) (svc : Services) (Others : svc.State → svc.State → Type 0)
    (me conn uid text : String)
    (parsed : codec.parse_incoming text ≡ some (IncomingMessage.watch_presence (uid ∷ [])))
    (answers : (c : String) (s : svc.State) → (svc.subscribe c s).0 ≡ some tt) where
  -- A connection that reads, with as many subscriptions to the presence of `uid`.
  record Watches (s₀ : Connection codec svc) (k : ℕ) : Type 1 where
    state : Connection codec svc
    reached : Reach codec svc Others me conn s₀ state
    pc : state.pc ≡ reading
    main : state.main ≡ waiting
    subscriptions : own state.watches (presence_channel uid) ≡ k

  -- One WatchPresence more
  watch_again : {s₀ : Connection codec svc} {k : ℕ} → Watches s₀ k → Watches s₀ (suc k)
  unfolding work advance watch_presence plan
  watch_again {s₀} {k} w =
      let s = w.state in
      let c = presence_channel uid in
      let asked : Connection codec svc = record s { pc = asking (uid ∷ []) } in
      let heard : Step codec svc Others me conn s asked =
        subst (λ m. Step codec svc Others me conn s (record s { pc = begin me m })) parsed
          (hears text w.pc) in
      let answered = work codec svc me asked in
      let reads = work codec svc me answered in
      let made : reads.watches ≡ s.watches ++ new_feed c ∷ [] = append-nil _ in
      record {
        state = _;
        reached = next (next (next (next w.reached heard) works) works) (
            watches_presence s.watches (new_feed c) [] made
              (subscribes refl (answers c reads.services)));
        pc = refl;
        main = w.main;
        subscriptions = ground (
          arith,
          own-middle s.watches
              (record (new_feed c) { stage = listening (svc.sent reads.services c) }) [] c,
          append-nil s.watches,
          w.subscriptions,
          ==_refl c,
        );
      }

  watch_times : {s₀ : Connection codec svc} (n : ℕ) → Watches s₀ 0 → Watches s₀ n
  watch_times zero w = w
  watch_times (suc n) w = watch_again (watch_times n w)

  begins : (s : svc.State) → Watches (opened codec svc me conn s) 0
  unfolding spawn_tasks
  begins s = record {
    state = _;
    reached = next here (connects true refl);
    pc = refl;
    main = refl;
    subscriptions = refl;
  }

  -- For every n there is a run, where SUBSCRIBE answers, in which a client asks n times to watch one user
  -- and hangs up, after which the connection is removed and its three tasks have ended, and yet n
  -- subscriptions that it made to the presence channel of that user last, and Redis counts them.
  pub presence-leaks :
      (growth : Growth svc) (n : ℕ) (s : svc.State)
      → (t : Connection codec svc) × Reach codec svc Others me conn (opened codec svc me conn s) t
        × (t.main ≡ closed)
        × (t.sending ≡ false)
        × (t.pc ≡ stopped)
        × (t.feed.stage ≡ ended)
        × (own t.watches (presence_channel uid) ≡ n)
        × (n ≤ svc.subscribers t.services (presence_channel uid))
  unfolding spawn_tasks some_ended
  presence-leaks growth n s =
      let w = watch_times n (begins s) in
      let r =
        next
          (next
            (next (next (next w.reached (hangs_up w.pc)) (selects w.main refl (ground arith)))
              (aborts_sending refl))
            (aborts_listening refl))
          (closes refl) in
      (
        _,
        r,
        refl,
        refl,
        refl,
        refl,
        w.subscriptions,
        omega (
          arith,
          Reach-Counted codec svc growth Others me conn r (λ c. ground arith)
              (presence_channel uid),
          w.subscriptions,
        ),
      )
