-- ===== src/Api/Token/Carried.antt =====
-- api/src/lib.rs: which token a request is checked by.
use Prim.Native.Char.{Char, code}
use Prim.Native.String.{◌++◌ as append}
use Prim.Native.String.append.{nil as append_nil, cons as append_cons}
use invisible_backend.Prelude.{
  ℕ, [], ◌∷◌, false, refl, ◌==◌, ◌≡◌, none, some, true, String, Option, nat_eq, arith, ap, ◌∙◌,
}
use invisible_backend.Api.Token.{
  from_request_parts, split, strip_prefix, checked, first_token, or_later, text_or_empty, token_of,
}
use invisible_backend.Models.{Claims}

-- A text without a separator.
abbrev pub Lacks : ℕ → String → Type 0
Lacks separator String.[] = Unit
Lacks separator (String.◌∷◌ c s) = ((code c == separator) ≡ false) × Lacks separator s

split-Lacks : (separator : ℕ) (s : String) → Lacks separator s → split separator s ≡ s ∷ []
unfolding split
split-Lacks separator String.[] h = refl
split-Lacks separator (String.◌∷◌ c s) h = ground (arith, split-Lacks separator s h.1)

-- The text before the first separator is the first piece.
split-append :
    (separator : ℕ) (p : String) (c : Char) (s : String)
    → Lacks separator p
    → (code c == separator) ≡ true
    → split separator (append p (String.◌∷◌ c s)) ≡ p ∷ split separator s
unfolding split
split-append separator String.[] c s h e = rw (append_nil (String.◌∷◌ c s)) (ground arith)
split-append separator (String.◌∷◌ d p) c s h e =
    rw (append_cons d p (String.◌∷◌ c s)) (ground (arith, split-append separator p c s h.1 e))

strip_prefix-append : (p s : String) → strip_prefix p (append p s) ≡ some s
unfolding strip_prefix
strip_prefix-append String.[] s = ap some (append_nil s)
strip_prefix-append (String.◌∷◌ c p) s =
    rw (append_cons c p s) (ground (arith, strip_prefix-append p s))

Lacks-append :
    (separator : ℕ) (p : String) (c : Char) (s : String)
    → Lacks separator p
    → (code c == separator) ≡ false
    → Lacks separator s
    → Lacks separator (append p (String.◌∷◌ c s))
Lacks-append separator String.[] c s h e l = rw (append_nil (String.◌∷◌ c s)) (e, l)
Lacks-append separator (String.◌∷◌ d p) c s h e l =
    rw (append_cons d p (String.◌∷◌ c s)) (h.0, Lacks-append separator p c s h.1 e l)

module _ (decode_token : String → Option Claims) where
  -- A token in the Authorization header, after "Bearer ", is the one that the request is checked by,
  -- whatever the query says; and without the header, so is one after "token=" in a query of that pair,
  -- where the token has neither an ampersand nor an equals sign.
  pub from_request_parts-carried :
      (t : String) (query : Option String)
      → Lacks b'&' t
      → Lacks b'=' t
      → (from_request_parts decode_token (some (append "Bearer " t)) query
          ≡ checked decode_token (some t))
        × (from_request_parts decode_token none (some (append "token" (String.◌∷◌ "=" t)))
            ≡ checked decode_token (some t))
  unfolding from_request_parts first_token
  from_request_parts-carried t query amp eq = (
    ap (λ o. checked decode_token (or_later o (first_token (split b'&' (text_or_empty query)))))
        (strip_prefix-append "Bearer " t),
    ap (λ pairs. checked decode_token (or_later none (first_token pairs)))
          (split-Lacks b'&' (append "token" (String.◌∷◌ "=" t))
            (Lacks-append b'&' "token" "=" t (refl, (refl, (refl, (refl, (refl, tt))))) refl amp))
        ∙ ap (λ parts. checked decode_token (or_later (token_of parts) none))
            (split-append b'=' "token" "=" t (refl, (refl, (refl, (refl, (refl, tt))))) refl
              ∙ ap (λ ps. "token" ∷ ps) (split-Lacks b'=' t eq)),
  )
