-- ===== src/Api/Dialogs/Pairs.antt =====
-- api/src/lib.rs, dialogs_handler: the last messages, one for each peer.
use invisible_backend.Prelude.{
  true, ◌≡◌, String, arith, string_eq, [], ◌∷◌, inl, inr, refl, ◌==◌, List, In, In-retain, count,
  not, ◌≤◌, ap, sym, Bool-cases, ◌∙◌, ℕ, All-In, retain, eq_of_==, leb, retain-In, ==_false,
  count-retain-le,
}
use invisible_backend.Postgres.Schema.{Message}
use invisible_backend.Api.Dialogs.{involves, same_pair, peer_of, distinct_on}
use invisible_backend.Postgres.Ordered.{IsOrdered}
use invisible_backend.Api.Messages.{is_later}

leb_le : (a b : ℕ) → leb a b ≡ true → a ≤ b
leb_le a b h = ground arith

module _ (user : String) where
  same_pair-peer_of :
      (m n : Message)
      → involves user m ≡ true
      → involves user n ≡ true
      → same_pair m n ≡ true
      → peer_of user m ≡ peer_of user n
  same_pair-peer_of m n hm hn same = ground (
    arith,
    string_eq.beq_iff m.sender_username user,
    string_eq.beq_iff m.recipient_username user,
    string_eq.beq_iff n.sender_username user,
    string_eq.beq_iff n.recipient_username user,
    string_eq.beq_iff n.sender_username m.sender_username,
    string_eq.beq_iff n.recipient_username m.recipient_username,
    string_eq.beq_iff n.sender_username m.recipient_username,
    string_eq.beq_iff n.recipient_username m.sender_username,
  )

  peer_of-same_pair :
      (m n : Message)
      → involves user m ≡ true
      → involves user n ≡ true
      → peer_of user m ≡ peer_of user n
      → same_pair m n ≡ true
  peer_of-same_pair m n hm hn same = ground (
    arith,
    string_eq.beq_iff m.sender_username user,
    string_eq.beq_iff m.recipient_username user,
    string_eq.beq_iff n.sender_username user,
    string_eq.beq_iff n.recipient_username user,
    string_eq.beq_iff n.sender_username m.sender_username,
    string_eq.beq_iff n.recipient_username m.recipient_username,
    string_eq.beq_iff n.sender_username m.recipient_username,
    string_eq.beq_iff n.recipient_username m.sender_username,
  )

  pub In-distinct_on : (m : Message) (ms : List Message) → In m (distinct_on ms) → In m ms
  unfolding distinct_on
  In-distinct_on m [] h = h
  In-distinct_on m (n ∷ ns) (inl here) = inl here
  In-distinct_on m (n ∷ ns) (inr there) =
      inr (In-distinct_on m ns (In-retain m (λ k. not (same_pair n k)) (distinct_on ns) there).0)

  -- Each row of an ordered list has a row of its pair in front of it or is one itself.
  pub distinct_on-first :
      (m : Message) (ms : List Message)
      → ((k : Message) → In k ms → involves user k ≡ true)
      → IsOrdered is_later ms
      → In m ms
      → (l : Message) × In l (distinct_on ms)
        × (peer_of user l ≡ peer_of user m)
        × (m.created_at ≤ l.created_at)
  unfolding distinct_on
  distinct_on-first m [] inv o h = elim h [ ]
  distinct_on-first m (n ∷ ns) inv o (inl here) =
      (n, inl refl, ap (peer_of user) (sym here), ground (arith, ap (λ k. k.created_at) here))
  distinct_on-first m (n ∷ ns) inv o (inr there) =
      let (l, kept, peer, later) = distinct_on-first m ns (λ k i. inv k (inr i)) o.1 there in
      elim (Bool-cases (same_pair n l)) [
        | inl same ↦ (
          n,
          inl refl,
          same_pair-peer_of n l (inv n (inl refl)) (inv l (inr (In-distinct_on l ns kept))) same
              ∙ peer,
          leb_le m.created_at n.created_at (All-In (λ k. is_later n k ≡ true) m ns o.0 there),
        )
        | inr other ↦ (
          l,
          inr (retain-In l (λ k. not (same_pair n k)) (distinct_on ns) kept (ground arith)),
          peer,
          later,
        )
      ]

  -- Without the pair of a message its peer is gone.
  count-others :
      (n : Message) (p : String) (ms : List Message)
      → peer_of user n ≡ p
      → involves user n ≡ true
      → ((k : Message) → In k ms → involves user k ≡ true)
      → count (λ m. peer_of user m == p) (retain (λ k. not (same_pair n k)) ms) ≡ 0
  count-others n p [] e hn inv = refl
  count-others n p (m ∷ ms) e hn inv =
      let rest = count-others n p ms e hn (λ k i. inv k (inr i)) in
      elim (Bool-cases (same_pair n m)) [
        | inl same ↦ ground arith
        | inr other ↦
            let differs = ==_false (peer_of user m) p (λ f.
              absurd (ground (arith, peer_of-same_pair n m hn (inv m (inl refl)) (e ∙ sym f)))) in
            rw (other, differs) (omega (arith, rest))
      ]

  pub count-distinct_on :
      (p : String) (ms : List Message)
      → ((k : Message) → In k ms → involves user k ≡ true)
      → count (λ m. peer_of user m == p) (distinct_on ms) ≤ 1
  unfolding distinct_on
  count-distinct_on p [] inv = omega arith
  count-distinct_on p (n ∷ ns) inv = elim (Bool-cases (peer_of user n == p)) [
    | inl same ↦
        let others =
          count-others n p (distinct_on ns) (eq_of_== (peer_of user n) p same) (inv n (inl refl))
            (λ k i. inv k (inr (In-distinct_on k ns i))) in
        ground arith
    | inr other ↦
        let fewer =
          count-retain-le (λ m. peer_of user m == p) (λ k. not (same_pair n k)) (distinct_on ns) in
        let most = count-distinct_on p ns (λ k i. inv k (inr i)) in ground arith
  ]
