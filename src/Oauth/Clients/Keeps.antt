-- ===== src/Oauth/Clients/Keeps.antt =====
-- Registration and resolution of clients (internal/oauth/clients.go) keep the redirect URIs safe.
use fund_dashboard.Prelude.{
  ℕ, not, List, [], none, some, if◌then◌else◌, Bytes, bytes, beq, All, subst,
}
use fund_dashboard.Go.Base64.{url, encode}
use fund_dashboard.Oauth.State.{
  Client, Approval, Server, Failure, invalid_client, invalid_redirect_uri, Flow, ◌>>◌, pure, raise,
  as_server_error, read_random,
}
use fund_dashboard.Oauth.State.Ensures.{
  Ensures, Ensures-pure, Ensures-raise, Ensures-bind, Ensures-if, Ensures-elim,
  Ensures-as_server_error,
}
use fund_dashboard.Oauth.Store.{insert_client}
use fund_dashboard.Oauth.Store.Clients.{HaveAll, insert_client-keeps, any_random-keeps}
use fund_dashboard.Oauth.Store.Keeps.{Anything}
use fund_dashboard.Oauth.Flow.{Service}
use fund_dashboard.Oauth.Clients.{
  Net, registered, new_client_id, new_client, register_client, RegisterClientRequest, clean_from,
  auth_method, beq_nil,
}
use fund_dashboard.Oauth.Clients.Safe.{IsSafe, IsSafeClient, AllSafe, clean_from-AllSafe}

module _ (net : Net) where
  abbrev pub dated :
      (c : Client) (t : ℕ) → IsSafeClient net c → IsSafeClient net (record c { created_at = t })
  dated c t h = h

  abbrev pub AreSafe : List Approval → Server → Type 0
  AreSafe rows w = HaveAll (IsSafeClient net) dated rows w

  new_client_id-keeps : (rows : List Approval) → Ensures (AreSafe rows) Anything new_client_id
  unfolding new_client_id
  new_client_id-keeps rows =
      Ensures-bind (AreSafe rows) Anything Anything read_random (λ buf. pure (encode url buf))
        (any_random-keeps (IsSafeClient net) dated rows)
        (λ buf q. Ensures-pure (AreSafe rows) Anything (encode url buf) tt)

  module _ (s : Service) (rows : List Approval) where
    store-keeps :
        (c : Client)
        → IsSafeClient net c
        → Ensures (AreSafe rows) Anything (if s.has_store then insert_client c else pure tt)
    store-keeps c h =
        Ensures-if (AreSafe rows) Anything s.has_store (insert_client c) (pure tt)
          (insert_client-keeps (IsSafeClient net) dated rows c h)
          (λ e. Ensures-pure (AreSafe rows) Anything tt tt)

    new_client-keeps :
        (now : ℕ) (req : RegisterClientRequest) (cleaned : List Bytes)
        → All (IsSafe net) cleaned
        → Ensures (AreSafe rows) Anything (new_client net s now req cleaned)
    unfolding new_client registered
    new_client-keeps now req cleaned h =
        let stored : Client → Flow (Unit {0}) =
          λ client. as_server_error (if s.has_store then insert_client client else pure tt) in
        let after : Bytes → Flow Client =
          λ id. let client = registered now req cleaned id in stored client >> pure client in
        Ensures-bind (AreSafe rows) Anything Anything (as_server_error new_client_id) after
          (Ensures-as_server_error (AreSafe rows) Anything new_client_id (new_client_id-keeps rows))
          (λ id q.
            let client = registered now req cleaned id in
            Ensures-bind (AreSafe rows) Anything Anything (stored client) (λ u. pure client)
              (Ensures-as_server_error (AreSafe rows) Anything
                (if s.has_store then insert_client client else pure tt) (store-keeps client h))
              (λ u q'. Ensures-pure (AreSafe rows) Anything client tt))

    -- A registration stores a client with safe targets only.
    pub register_client-keeps :
        (now : ℕ) (req : RegisterClientRequest)
        → Ensures (AreSafe rows) Anything (register_client net s now req)
    unfolding register_client
    register_client-keeps now req =
        let checked : List Bytes → Flow Client = λ cleaned.
          if not (beq (auth_method req.token_endpoint_auth_method) (bytes "none"))
          then raise invalid_client
          else new_client net s now req cleaned in
        let targets : Flow Client = elim (clean_from net [] req.redirect_uris) [
          | none ↦ raise invalid_redirect_uri
          | some cleaned ↦ checked cleaned
        ] in
        let bad : (e : Failure) → Ensures (AreSafe rows) Anything (raise {A = Client} e) =
          Ensures-raise (AreSafe rows) (Anything {A = Client}) in
        Ensures-if (AreSafe rows) Anything (beq_nil req.redirect_uris) (raise invalid_client)
          targets (bad invalid_client)
          (λ e.
            Ensures-elim (AreSafe rows) Anything (clean_from net [] req.redirect_uris)
              (raise invalid_redirect_uri) checked (bad invalid_redirect_uri)
              (λ cleaned found.
                Ensures-if (AreSafe rows) Anything
                  (not (beq (auth_method req.token_endpoint_auth_method) (bytes "none")))
                  (raise invalid_client) (new_client net s now req cleaned) (bad invalid_client)
                  (λ e'.
                    new_client-keeps now req cleaned
                      (subst (AllSafe net) found (clean_from-AllSafe net [] req.redirect_uris)))))
