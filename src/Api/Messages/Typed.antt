-- ===== src/Api/Messages/Typed.antt =====
-- api/src/lib.rs, messages_handler over the VARCHAR column messages.id.
use invisible_backend.Prelude.{
  [], ◌∷◌, inl, inr, none, refl, ◌≡◌, String, Option, List, arith, count, Bool, retain, ℕ, ◌⊎◌, sym,
  ◌∙◌, Option-cases, ap, subst,
}
use invisible_backend.Api.Messages.{
  Columns, IsTyped, MessagesQuery, MessageResponse, messages_handler, after_id, is_between,
  is_later, limit_or_default,
}
use invisible_backend.Postgres.Schema.{Uuid, Message}
use invisible_backend.Models.{Claims}
use invisible_backend.Postgres.{World}
use invisible_backend.Api.Messages.Page.{ShowsAll, messages_handler-Asked, Asked}
use invisible_backend.Api.{json}
use invisible_backend.Postgres.Ordered.{IsPage}
use invisible_backend.Prelude.Int.{pos_part}

count-retain : (p : Message → Bool) (ms : List Message) → count p (retain p ms) ≡ count p ms
count-retain p [] = refl
count-retain p (m ∷ ms) = ground (arith, count-retain p ms)

nothing_between :
    (p : Message → Bool) (n : ℕ) (all : List Message)
    → IsPage is_later p n all []
    → (count p all ≡ 0) ⊎ (n ≡ 0)
nothing_between p n all page = elim page.full [
  | inl full ↦ inr (sym full)
  | inr empty ↦ inl (sym (count-retain p all) ∙ sym (page.same p) ∙ ap (count p) empty)
]

module _ (columns : Columns) (typed : IsTyped columns) (format_uuid : Uuid → String)
    (parse_uuid : String → Option Uuid) where
  ShowsAll-nothing :
      (ms : List Message) (rs : List MessageResponse)
      → ShowsAll columns format_uuid ms rs
      → (ms ≡ []) × (rs ≡ [])
  ShowsAll-nothing [] [] s = (refl, refl)
  ShowsAll-nothing [] (r ∷ rs) s = absurd s
  ShowsAll-nothing (m ∷ ms) [] s = absurd s
  ShowsAll-nothing (m ∷ ms) (r ∷ rs) s =
      absurd (ground (arith, s.0.decoded, typed.no_decoding m.id))

  -- Where sqlx and PostgreSQL keep UUID and VARCHAR apart, a 200 answer is empty, was asked for
  -- without a message to start after, and comes only where the two users have no message at all or
  -- none was asked for: the history is never shown.
  pub messages_handler-IsTyped :
      (user : Claims) (peer : String) (params : MessagesQuery) (w : World)
      (rs : List MessageResponse)
      → (messages_handler columns format_uuid parse_uuid user peer params w).0 ≡ json 200 rs
      → (rs ≡ [])
        × (after_id parse_uuid params.after ≡ none)
        × ((count (is_between peer user.sub) w.db.messages ≡ 0)
            ⊎ (pos_part (limit_or_default params.limit) ≡ 0))
  messages_handler-IsTyped user peer params w rs h =
      let limit = pos_part (limit_or_default params.limit) in
      let (page, asked, shown, few) =
        messages_handler-Asked columns format_uuid parse_uuid user peer params w rs h in
      let (no_page, no_rows) = ShowsAll-nothing page rs shown in
      elim (Option-cases (after_id parse_uuid params.after)) [
        | inl newest ↦
            let first =
              subst (λ o. Asked columns format_uuid user.sub peer o limit w.db.messages page) newest
                asked in
            (
              no_rows,
              newest,
              nothing_between (is_between peer user.sub) limit w.db.messages (
                  subst (IsPage is_later (is_between peer user.sub) limit w.db.messages) no_page
                    first),
            )
        | inr (after, e) ↦
            let later =
              subst (λ o. Asked columns format_uuid user.sub peer o limit w.db.messages page) e
                asked in
            absurd (ground (arith, later.1, typed.no_operator after))
      ]
