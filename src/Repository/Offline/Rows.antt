-- ===== src/Repository/Offline/Rows.antt =====
-- shared/src/repository.rs: lists of waiting messages, in the order of a fetch and by their ids.
use invisible_backend.Prelude.{
  ℕ, [], ◌∷◌, inl, inr, true, false, refl, ◌==◌, ◌≡◌, ◌&&◌, List, leb, any, All, ◌≤◌, Bool, retain,
  In, Bool-cases, arith, count, ap, ==_refl, subst, nat_eq, sym, eq_of_==,
}
use invisible_backend.Repository.Offline.{oldest_first, insert_oldest}
use invisible_backend.Postgres.Schema.{OfflineMessage}

-- the primary key of offline_messages
abbrev pub UniqueIds : List OfflineMessage → Type 0
UniqueIds [] = Unit
UniqueIds (m ∷ ms) = (any (λ n. n.id == m.id) ms ≡ false) × UniqueIds ms

-- each row no later than all that follow
abbrev pub IsOldestFirst : List OfflineMessage → Type 0
IsOldestFirst [] = Unit
IsOldestFirst (m ∷ ms) = All (λ n. m.created_at ≤ n.created_at) ms × IsOldestFirst ms

insert_oldest-All :
    (k : ℕ) (m : OfflineMessage) (ms : List OfflineMessage)
    → k ≤ m.created_at
    → All (λ n. k ≤ n.created_at) ms
    → All (λ n. k ≤ n.created_at) (insert_oldest m ms)
insert_oldest-All k m [] h a = (h, tt)
insert_oldest-All k m (n ∷ ns) h a = elim (Bool-cases (leb m.created_at n.created_at)) [
  | inl before ↦ rw before (h, a)
  | inr after ↦ rw after (a.0, insert_oldest-All k m ns h a.1)
]

All-later :
    (j k : ℕ) (ms : List OfflineMessage)
    → j ≤ k
    → All (λ n. k ≤ n.created_at) ms
    → All (λ n. j ≤ n.created_at) ms
All-later j k [] h a = tt
All-later j k (m ∷ ms) h a = (omega arith, All-later j k ms h a.1)

leb_le : (a b : ℕ) → leb a b ≡ true → a ≤ b
leb_le a b h = ground arith

leb_lt : (a b : ℕ) → leb a b ≡ false → b ≤ a
leb_lt a b h = ground arith

insert_oldest-IsOldestFirst :
    (m : OfflineMessage) (ms : List OfflineMessage)
    → IsOldestFirst ms
    → IsOldestFirst (insert_oldest m ms)
insert_oldest-IsOldestFirst m [] h = (tt, tt)
insert_oldest-IsOldestFirst m (n ∷ ns) h = elim (Bool-cases (leb m.created_at n.created_at)) [
  | inl before ↦
      let le = leb_le m.created_at n.created_at before in
      rw before ((le, All-later m.created_at n.created_at ns le h.0), h)
  | inr after ↦ rw after (
    insert_oldest-All n.created_at m ns (leb_lt m.created_at n.created_at after) h.0,
    insert_oldest-IsOldestFirst m ns h.1,
  )
]

pub oldest_first-IsOldestFirst : (ms : List OfflineMessage) → IsOldestFirst (oldest_first ms)
unfolding oldest_first
oldest_first-IsOldestFirst [] = tt
oldest_first-IsOldestFirst (m ∷ ms) =
    insert_oldest-IsOldestFirst m _ (oldest_first-IsOldestFirst ms)

count-insert_oldest :
    (p : OfflineMessage → Bool) (m : OfflineMessage) (ms : List OfflineMessage)
    → count p (insert_oldest m ms) ≡ count p (m ∷ ms)
count-insert_oldest p m [] = refl
count-insert_oldest p m (n ∷ ns) = ground (arith, count-insert_oldest p m ns)

pub count-oldest_first :
    (p : OfflineMessage → Bool) (ms : List OfflineMessage) → count p (oldest_first ms) ≡ count p ms
unfolding oldest_first
count-oldest_first p [] = refl
count-oldest_first p (m ∷ ms) =
    ground (arith, count-insert_oldest p m (oldest_first ms), count-oldest_first p ms)

any-insert_oldest :
    (p : OfflineMessage → Bool) (m : OfflineMessage) (ms : List OfflineMessage)
    → any p (insert_oldest m ms) ≡ any p (m ∷ ms)
any-insert_oldest p m [] = refl
any-insert_oldest p m (n ∷ ns) = ground (arith, any-insert_oldest p m ns)

pub any-oldest_first :
    (p : OfflineMessage → Bool) (ms : List OfflineMessage) → any p (oldest_first ms) ≡ any p ms
unfolding oldest_first
any-oldest_first p [] = refl
any-oldest_first p (m ∷ ms) =
    ground (arith, any-insert_oldest p m (oldest_first ms), any-oldest_first p ms)

pub any-retain_and :
    (p q : OfflineMessage → Bool) (ms : List OfflineMessage)
    → any p (retain q ms) ≡ any (λ m. q m && p m) ms
any-retain_and p q [] = refl
any-retain_and p q (m ∷ ms) = ground (arith, any-retain_and p q ms)

pub any_assoc :
    (p q r : OfflineMessage → Bool) (ms : List OfflineMessage)
    → any (λ m. p m && (q m && r m)) ms ≡ any (λ m. (p m && q m) && r m) ms
any_assoc p q r [] = refl
any_assoc p q r (m ∷ ms) = ground (arith, any_assoc p q r ms)

pub retain_all : (ms : List OfflineMessage) → retain (λ m. true) ms ≡ ms
retain_all [] = refl
retain_all (m ∷ ms) = ap (◌∷◌ m) (retain_all ms)

-- Of rows with an id, `m` is the only one.
any-none :
    (p : OfflineMessage → Bool) (k : ℕ) (ms : List OfflineMessage)
    → any (λ n. n.id == k) ms ≡ false
    → any (λ n. p n && n.id == k) ms ≡ false
any-none p k [] h = refl
any-none p k (m ∷ ms) h = ground (arith, any-none p k ms)

any-In :
    (m : OfflineMessage) (ms : List OfflineMessage) → In m ms → any (λ n. n.id == m.id) ms ≡ true
any-In m [] h = elim h [ ]
any-In m (n ∷ ms) (inl e) = rw (e, ==_refl n.id)
any-In m (n ∷ ms) (inr h) = ground (arith, any-In m ms h)

pub any-UniqueIds :
    (p : OfflineMessage → Bool) (m : OfflineMessage) (ms : List OfflineMessage)
    → UniqueIds ms
    → In m ms
    → any (λ n. p n && n.id == m.id) ms ≡ p m
any-UniqueIds p m [] u h = elim h [ ]
any-UniqueIds p m (n ∷ ms) u (inl e) =
    subst (λ x. any (λ k. p k && k.id == x.id) (n ∷ ms) ≡ p x) (sym e)
      (ground (arith, any-none p n.id ms u.0, ==_refl n.id))
any-UniqueIds p m (n ∷ ms) u (inr h) = elim (Bool-cases (n.id == m.id)) [
  | inl same ↦
      let none_later =
        subst (λ k. any (λ (x : OfflineMessage). x.id == k) ms ≡ false) (eq_of_== n.id m.id same)
          u.0 in
      absurd (ground (arith, any-In m ms h, none_later))
  | inr other ↦ ground (arith, any-UniqueIds p m ms u.1 h)
]

pub retain_ext :
    (p q : OfflineMessage → Bool) (ms : List OfflineMessage)
    → ((m : OfflineMessage) → In m ms → p m ≡ q m)
    → retain p ms ≡ retain q ms
retain_ext p q [] h = refl
retain_ext p q (m ∷ ms) h = ground (arith, h m (inl refl), retain_ext p q ms (λ n i. h n (inr i)))
