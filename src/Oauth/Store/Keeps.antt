-- ===== src/Oauth/Store/Keeps.antt =====
-- Properties of the server's state that the statements on oauth_refresh_tokens keep.
use fund_dashboard.Prelude.{
  ℕ, ◌-◌, ◌≡◌, Bool, not, List, [], ◌∷◌, ◌++◌, Option, none, some, refl, leb, inl, inr, Bytes, keep,
  Bool-cases,
}
use fund_dashboard.Go.Base64.{url, encode}
use fund_dashboard.Oauth.State.{RefreshToken, Server, Flow, ◌>>◌, pure, query, read_random}
use fund_dashboard.Oauth.State.Ensures.{
  Ensures, IsSteady, Ensures-pure, Ensures-bind, Ensures-query, Ensures-read_random,
}
use fund_dashboard.Oauth.Store.{
  token_id, new_refresh_token, find_token, insert_token_row, nil_unless_zero, insert_refresh_token,
  sweep_after, sweep_expired_refresh_tokens, refresh_token_retention, stale, usable,
  refresh_token_by_id, revoke_where, revoke_refresh_token, revoke_client_tokens,
}

abbrev pub Anything : {A : Type 0} → A → Type 0
Anything a = Unit

-- `P` outlives the changes of the table, where a new row takes its id from random bytes with `Q`.
pub record IsKept (sha256 : Bytes → Bytes) (P : Server → Type 0) (Q : Bytes → Type 0) : Type 0 where
  pub steady : (w : Server) (rest : List Bool) → P w → P (record w { faults = rest })
  pub random :
      (w : Server) (o : Option Bytes) (rest : List (Option Bytes))
      → w.entropy ≡ o ∷ rest
      → P w
      → P (record w { entropy = rest })
  pub fresh :
      (w : Server) (b : Bytes) (rest : List (Option Bytes)) → w.entropy ≡ some b ∷ rest → P w → Q b
  pub revoked :
      (p : RefreshToken → Bool) (t : ℕ) (w : Server)
      → P w
      → P (record w { tokens = revoke_where p t w.tokens })
  pub swept :
      (p : RefreshToken → Bool) (w : Server) → P w → P (record w { tokens = keep p w.tokens })
  pub inserted :
      (b : Bytes) (t : RefreshToken) (w : Server)
      → Q b
      → t.id ≡ token_id sha256 (encode url b)
      → P w
      → P (record w { tokens = w.tokens ++ t ∷ [] })

module _ (sha256 : Bytes → Bytes) (P : Server → Type 0) (Q : Bytes → Type 0)
    (k : IsKept sha256 P Q) where
  steady_lem : IsSteady P
  steady_lem w rest p = k.steady w rest p

  pub random-keeps : Ensures P Q read_random
  random-keeps = Ensures-read_random P Q k.random k.fresh

  pub by_id-keeps : (id : Bytes) (now : ℕ) → Ensures P Anything (refresh_token_by_id id now)
  unfolding refresh_token_by_id
  by_id-keeps id now =
      Ensures-query P Anything (λ w. (usable now (find_token id w.tokens), w)) steady_lem
        (λ v p. (p, tt))

  pub revoke-keeps : (id : Bytes) (now : ℕ) → Ensures P Anything (revoke_refresh_token id now)
  unfolding revoke_refresh_token
  revoke-keeps id now = Ensures-query P Anything _ steady_lem (λ v p. (k.revoked _ now v p, tt))

  pub revoke_client-keeps :
      (id : Bytes) (now : ℕ) → Ensures P Anything (revoke_client_tokens id now)
  unfolding revoke_client_tokens
  revoke_client-keeps id now =
      Ensures-query P Anything _ steady_lem (λ v p. (k.revoked _ now v p, tt))

  sweep-keeps : (now : ℕ) → Ensures P Anything (sweep_after now)
  unfolding sweep_expired_refresh_tokens
  sweep-keeps now w p = elim (Bool-cases (leb now refresh_token_retention)) [
    | inl early ↦ rw early (p, tt)
    | inr late ↦ rw late (
      (Ensures-query P Anything _ steady_lem
          (λ v q. (k.swept (λ t. not (stale (now - refresh_token_retention) t)) v q, tt {0})) w
          p).0,
      tt,
    )
  ]

  row-keeps :
      (b : Bytes) (t : RefreshToken)
      → Q b
      → t.id ≡ token_id sha256 (encode url b)
      → (clash : Option RefreshToken)
      → Ensures P Anything
          (insert_token_row clash (record t { revoked_at = nil_unless_zero t.revoked_at }))
  row-keeps b t q e none w p =
      (k.inserted b (record t { revoked_at = nil_unless_zero t.revoked_at }) w q e p, tt)
  row-keeps b t q e (some old) w p = (p, tt)

  pub insert-keeps :
      (b : Bytes) (t : RefreshToken)
      → Q b
      → t.id ≡ token_id sha256 (encode url b)
      → Ensures P Anything (insert_refresh_token t)
  unfolding insert_refresh_token
  insert-keeps b t q e =
      let row : Option RefreshToken → Flow (Unit {0}) =
        λ clash. insert_token_row clash (record t { revoked_at = nil_unless_zero t.revoked_at }) in
      Ensures-bind P Anything Anything (query (λ w. (find_token t.id w.tokens, w)))
        (λ clash. row clash >> sweep_after t.created_at)
        (Ensures-query P Anything (λ w. (find_token t.id w.tokens, w)) steady_lem (λ v p. (p, tt)))
        (λ clash u.
          Ensures-bind P Anything Anything (row clash) (λ v. sweep_after t.created_at)
            (row-keeps b t q e clash) (λ v u'. sweep-keeps t.created_at))

  -- The pair of a token and its id.
  abbrev pub IsPair : Bytes × Bytes → Type 0
  IsPair m = (b : Bytes) × Q b × (m.1 ≡ token_id sha256 (encode url b))

  pub new_token-keeps : Ensures P IsPair (new_refresh_token sha256)
  unfolding new_refresh_token
  new_token-keeps =
      Ensures-bind P Q IsPair read_random
        (λ buf. pure (encode url buf, token_id sha256 (encode url buf))) random-keeps
        (λ b q. Ensures-pure P IsPair (encode url b, token_id sha256 (encode url b)) (b, q, refl))
