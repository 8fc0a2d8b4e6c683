-- ===== src/A2a/Listing/Cursor.antt =====
-- The codec of page tokens.
use agentops_open_course.Prelude.{
  ◌≡◌, ◌≢◌, refl, subst, arith, ◌==◌, Bool-cases, true, inl, inr, [], ◌∷◌, ◌++◌, some, Text, ℤ, all,
  not,
}
use agentops_open_course.A2a.Tasks.{ok}
use agentops_open_course.A2a.Listing.{Tokens, separator, cut, encode_page_token, decode_page_token}

-- What the code relies on of `encoding/base64` and of RFC 3339.
pub record IsTokens (tokens : Tokens) : Type 0 where
  pub base64 : (s : Text) → tokens.decode_base64 (tokens.encode_base64 s) ≡ some s
  pub stamp : (t : ℤ) → tokens.parse (tokens.format t) ≡ some t
  pub no_separator : (t : ℤ) → all (λ c. not (c == separator)) (tokens.format t) ≡ true
  pub decode_empty : tokens.decode_base64 [] ≡ some []

cut-append :
    (s t : Text)
    → all (λ c. not (c == separator)) s ≡ true
    → cut separator (s ++ (separator ∷ t)) ≡ some (s, t)
unfolding cut
cut-append [] t h = refl
cut-append (c ∷ s) t h = elim (Bool-cases (c == separator)) [
  | inl e ↦ absurd (ground (arith, h, e))
  | inr e ↦ rw (cut, e, cut-append s t (ground (arith, h, e))) refl
]

module _ (tokens : Tokens) (law : IsTokens tokens) where
  -- Whatever the id holds, underscores included: the first underscore ends the time stamp.
  pub decode-encode_page_token :
      (t : ℤ) (id : Text) → decode_page_token tokens (encode_page_token tokens t id) ≡ ok (t, id)
  unfolding decode_page_token encode_page_token
  decode-encode_page_token t id =
      rw
        (
          law.base64 (tokens.format t ++ (separator ∷ id)),
          cut-append (tokens.format t) id (law.no_separator t),
          law.stamp t,
        )
        refl

  -- No token is empty.
  pub encode_page_token-more : (t : ℤ) (id : Text) → encode_page_token tokens t id ≢ []
  unfolding decode_page_token cut
  encode_page_token-more t id e =
      let p = decode-encode_page_token t id in
      let q : decode_page_token tokens [] ≡ ok (t, id) =
        subst (λ s. decode_page_token tokens s ≡ ok (t, id)) e p in
      absurd (ground (arith, rw law.decode_empty at q))
