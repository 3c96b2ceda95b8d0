-- ===== src/Api/Worker/Loop/Drained.antt =====
-- api/src/worker.rs: what the loop leaves in the stream, where Redis answers.
use invisible_backend.Prelude.{
  [], ◌∷◌, suc, zero, inl, inr, some, true, refl, ◌==◌, ◌≡◌, List, String, ℕ, Bool, length, In,
  Option, retain, any, drop, ◌≤◌, arith, ==_refl, not, ap, string_eq, take, ◌∙◌, none, ◌+◌, subst,
  sym,
}
use invisible_backend.Api.Worker.Loop.{
  StreamId, Stream, Loop, step, round, xread_options, process_keys, steps, connect, create_group,
  step_at,
}
use invisible_backend.Api.Worker.Loop.Acked.{unread, process_key-pending}
use invisible_backend.Models.{DatabaseEvent}
use invisible_backend.Postgres.Schema.{Uuid}

abbrev pub all_answer : List StreamId → List StreamId → Stream
all_answer pending fresh = record { pending = pending; fresh = fresh; group = true; outages = [] }

-- The inner loop runs with this read_id, and Redis answers.
abbrev pub IsReading : String → List StreamId → List StreamId → Loop → Type 0
IsReading read_id pending fresh m =
    (m.read_id ≡ some read_id) × (m.stream ≡ all_answer pending fresh)

retain_le : (p : StreamId → Bool) (es : List StreamId) → length (retain p es) ≤ length es
retain_le p [] = omega arith
retain_le p (e ∷ es) = ground (arith, retain_le p es)

unread-length :
    (e : StreamId) (es ids : List StreamId)
    → suc (length (unread (e ∷ ids) (e ∷ es))) ≤ length (e ∷ es)
unread-length e es ids =
    ground (arith, ==_refl e.id, retain_le (λ x. not (any (λ r. r.id == x.id) (e ∷ ids))) es)

any-In : (e : StreamId) (ids : List StreamId) → In e ids → any (λ r. r.id == e.id) ids ≡ true
any-In e [] h = elim h [ ]
any-In e (x ∷ xs) (inl here) = ground (arith, ==_refl e.id, ap (λ y. y.id) here)
any-In e (x ∷ xs) (inr there) = ground (arith, any-In e xs there)

unread-none : (ids es : List StreamId) → ((e : StreamId) → In e es → In e ids) → unread ids es ≡ []
unread-none ids [] h = refl
unread-none ids (e ∷ es) h =
    ground (arith, any-In e ids (h e (inl refl)), unread-none ids es (λ x here. h x (inr here)))

drop_le : (n : ℕ) (es : List StreamId) → length (drop n es) ≤ length es
drop_le zero es = omega arith
drop_le (suc n) [] = omega arith
drop_le (suc n) (e ∷ es) = omega (arith, drop_le n es)

module _ (from_str : String → Option DatabaseEvent) (parse_uuid : String → Option Uuid)
    (new_v4 : ℕ → Uuid) where
  pub step-reading :
      (read_id : String) (p f : List StreamId) (m : Loop)
      → IsReading read_id p f m
      → step from_str parse_uuid new_v4 m
        ≡ round from_str parse_uuid new_v4 read_id (record m { stream = all_answer p f })
  unfolding step
  step-reading read_id p f m (reads, answers) = ground arith

  round-replay :
      (e : StreamId) (p f : List StreamId) (m : Loop)
      → IsReading "0"
          (unread (take 100 (e ∷ p)) (e ∷ p))
          f
          (round from_str parse_uuid new_v4 "0" (record m { stream = all_answer (e ∷ p) f }))
  unfolding round xread_options process_keys
  round-replay e p f m = (
    ground arith,
    process_key-pending from_str parse_uuid new_v4 (take 100 (e ∷ p)) (all_answer (e ∷ p) f) m.world
        refl,
  )

  round-replayed :
      (f : List StreamId) (m : Loop)
      → IsReading ">" [] f
          (round from_str parse_uuid new_v4 "0" (record m { stream = all_answer [] f }))
  unfolding round xread_options process_keys
  round-replayed f m = (
    ground arith,
    process_key-pending from_str parse_uuid new_v4 [] (all_answer [] f) m.world refl,
  )

  pub round-new :
      (f : List StreamId) (m : Loop)
      → IsReading ">" []
          (drop 100 f)
          (round from_str parse_uuid new_v4 ">" (record m { stream = all_answer [] f }))
  unfolding round xread_options process_keys
  round-new [] m = (ground arith, refl)
  round-new (e ∷ f) m = (
    ground arith,
    process_key-pending from_str parse_uuid new_v4 (take 100 (e ∷ f))
          (all_answer (take 100 (e ∷ f)) (drop 100 (e ∷ f))) m.world refl
        ∙ ap (λ es. all_answer es (drop 100 (e ∷ f)))
            (unread-none (take 100 (e ∷ f)) (take 100 (e ∷ f)) (λ x here. here)),
  )

  steps-new :
      (n : ℕ) (f : List StreamId) (m : Loop)
      → length f ≤ n
      → IsReading ">" [] f m
      → IsReading ">" [] [] (steps from_str parse_uuid new_v4 n m)
  unfolding steps
  steps-new zero [] m enough reads = reads
  steps-new zero (e ∷ f) m enough reads = absurd (omega arith)
  steps-new (suc n) f m enough reads =
      steps-new n (drop 100 f) (step from_str parse_uuid new_v4 m) (rest f enough)
        (rw (step-reading ">" [] f m reads) (round-new f m))
    where
      rest : (f : List StreamId) → length f ≤ suc n → length (drop 100 f) ≤ n
      rest [] few = omega arith
      rest (e ∷ es) few = omega (arith, drop_le 99 es)

  steps-replay :
      (n : ℕ) (p f : List StreamId) (m : Loop)
      → suc (length p + length f) ≤ n
      → IsReading "0" p f m
      → IsReading ">" [] [] (steps from_str parse_uuid new_v4 n m)
  unfolding steps
  steps-replay zero p f m enough reads = absurd (omega arith)
  steps-replay (suc n) [] f m enough reads =
      steps-new n f (step from_str parse_uuid new_v4 m) (omega arith)
        (rw (step-reading "0" [] f m reads) (round-replayed f m))
  steps-replay (suc n) (e ∷ p) f m enough reads =
      steps-replay n (unread (take 100 (e ∷ p)) (e ∷ p)) f (step from_str parse_uuid new_v4 m)
        (omega (arith, unread-length e p (take 99 p)))
        (rw (step-reading "0" (e ∷ p) f m reads) (round-replay e p f m))

  connect-IsReading :
      (m : Loop) → m.stream.outages ≡ [] → IsReading "0" m.stream.pending m.stream.fresh (connect m)
  unfolding connect create_group
  connect-IsReading m calm = ground arith

  -- From a lost connection, where Redis answers and nobody adds entries, two rounds more than there
  -- are entries are enough: every entry has then been read and acknowledged, also those left pending
  -- by an earlier run, and the loop waits for new ones.
  pub steps_drain :
      (m : Loop) (n : ℕ)
      → m.read_id ≡ none
      → m.stream.outages ≡ []
      → 2 + length m.stream.pending + length m.stream.fresh ≤ n
      → ((steps from_str parse_uuid new_v4 n m).stream.pending ≡ [])
        × ((steps from_str parse_uuid new_v4 n m).stream.fresh ≡ [])
        × ((steps from_str parse_uuid new_v4 n m).read_id ≡ some ">")
  unfolding steps step
  steps_drain m zero lost calm enough = absurd (omega arith)
  steps_drain m (suc n) lost calm enough =
      let (waits, empty) =
        steps-replay n m.stream.pending m.stream.fresh (connect m) (omega arith)
          (connect-IsReading m calm) in
      subst
        (λ r.
          let k = steps from_str parse_uuid new_v4 n (step_at from_str parse_uuid new_v4 r m) in
          (k.stream.pending ≡ []) × (k.stream.fresh ≡ []) × (k.read_id ≡ some ">"))
        (sym lost) (ap (λ s. s.pending) empty, ap (λ s. s.fresh) empty, waits)
