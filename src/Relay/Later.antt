-- ===== src/Relay/Later.antt =====
-- What the calls of relay/src/lib.rs leave standing, whether they succeed or fail.
use invisible_backend.Relay.{Services}
use invisible_backend.Prelude.{
  [], suc, some, ◌≡◌, ◌++◌, String, sym, ◌∙◌, List, ◌≤◌, append-nil, ap, arith, append_assoc, ◌∷◌,
  false, ◌==◌, string_eq,
}

module _ (svc : Services) where
  -- Texts that were sent stay sent, in their order; subscribers come and go.
  abbrev pub IsGrown : svc.State → svc.State → Type 0
  IsGrown s s' = (j : String) → (more : List String) × (svc.sent s' j ≡ svc.sent s j ++ more)

  -- Texts that were sent stay sent, in their order, and no subscriber has gone.
  pub record IsLater (s s' : svc.State) : Type 0 where
    pub sent : (j : String) → (more : List String) × (svc.sent s' j ≡ svc.sent s j ++ more)
    pub subscribers : (j : String) → svc.subscribers s j ≤ svc.subscribers s' j

  -- The store has lost nothing.
  pub record IsKept (s s' : svc.State) : Type 0 where
    pub stored : (u : String) → (more : List String) × (svc.stored s' u ≡ svc.stored s u ++ more)

  -- PUBLISH sends a text or none, SUBSCRIBE adds a subscriber, the end of a
  -- subscription takes away one at most, and an INSERT adds a row or none; no other
  -- call shows in the channels, and only the fetch takes messages out of the store.
  pub record Growth : Type 0 where
    pub later_publish : (c m : String) (s : svc.State) → IsLater s (svc.publish_message c m s).1
    pub later_save : (to p : String) (s : svc.State) → IsLater s (svc.save_offline_message to p s).1
    pub later_fetch :
        (u : String) (s : svc.State) → IsLater s (svc.fetch_and_delete_offline_messages u s).1
    pub later_online : (u : String) (s : svc.State) → IsLater s (svc.is_online u s).1
    pub later_add : (u c : String) (s : svc.State) → IsLater s (svc.add_connection u c s).1
    pub later_remove : (u c : String) (s : svc.State) → IsLater s (svc.remove_connection u c s).1
    pub later_xadd : (e : String) (s : svc.State) → IsLater s (svc.xadd e s).1
    pub later_subscribe : (c : String) (s : svc.State) → IsLater s (svc.subscribe c s).1
    pub sent_subscribe :
        (c j : String) (s : svc.State) → svc.sent (svc.subscribe c s).1 j ≡ svc.sent s j
    pub counted_subscribe :
        (c : String) (s : svc.State)
        → (svc.subscribe c s).0 ≡ some tt
        → suc (svc.subscribers s c) ≤ svc.subscribers (svc.subscribe c s).1 c
    pub sent_unsubscribe :
        (c j : String) (s : svc.State) → svc.sent (svc.unsubscribe c s) j ≡ svc.sent s j
    pub counted_unsubscribe :
        (c : String) (s : svc.State)
        → svc.subscribers s c ≤ suc (svc.subscribers (svc.unsubscribe c s) c)
    pub uncounted_unsubscribe :
        (c j : String) (s : svc.State)
        → (c == j) ≡ false
        → svc.subscribers (svc.unsubscribe c s) j ≡ svc.subscribers s j
    pub kept_publish : (c m : String) (s : svc.State) → IsKept s (svc.publish_message c m s).1
    pub kept_save : (to p : String) (s : svc.State) → IsKept s (svc.save_offline_message to p s).1
    pub kept_online : (u : String) (s : svc.State) → IsKept s (svc.is_online u s).1
    pub kept_add : (u c : String) (s : svc.State) → IsKept s (svc.add_connection u c s).1
    pub kept_remove : (u c : String) (s : svc.State) → IsKept s (svc.remove_connection u c s).1
    pub kept_xadd : (e : String) (s : svc.State) → IsKept s (svc.xadd e s).1
    pub kept_subscribe : (c : String) (s : svc.State) → IsKept s (svc.subscribe c s).1
    pub kept_unsubscribe : (c : String) (s : svc.State) → IsKept s (svc.unsubscribe c s)

  -- a text among the others of a channel
  abbrev pub IsSent : String → String → svc.State → svc.State → Type 0
  IsSent json j s t =
      (more : List String) × (rest : List String) × (svc.sent t j
        ≡ svc.sent s j ++ (more ++ json ∷ rest))

  pub IsLater-refl : (s : svc.State) → IsLater s s
  IsLater-refl s = record { sent = λ j. ([], sym (append-nil _)); subscribers = λ j. omega arith }

  pub IsLater-trans : {a b c : svc.State} → IsLater a b → IsLater b c → IsLater a c
  IsLater-trans {a} f g = record {
    sent = λ j.
        let (xs, e) = f.sent j in
        let (ys, e') = g.sent j in
        (xs ++ ys, e' ∙ ap (λ l. l ++ ys) e ∙ append_assoc (svc.sent a j) xs ys);
    subscribers = λ j. omega (arith, f.subscribers j, g.subscribers j);
  }

  pub IsKept-refl : (s : svc.State) → IsKept s s
  IsKept-refl s = record { stored = λ u. ([], sym (append-nil _)) }

  pub IsKept-trans : {a b c : svc.State} → IsKept a b → IsKept b c → IsKept a c
  IsKept-trans {a} f g = record {
    stored = λ u.
        let (xs, e) = f.stored u in
        let (ys, e') = g.stored u in
        (xs ++ ys, e' ∙ ap (λ l. l ++ ys) e ∙ append_assoc (svc.stored a u) xs ys);
  }

  pub unsubscribe-IsGrown :
      (growth : Growth) (c : String) (s : svc.State) → IsGrown s (svc.unsubscribe c s)
  unsubscribe-IsGrown growth c s j = ([], growth.sent_unsubscribe c j s ∙ sym (append-nil _))
