-- ===== src/Oauth/Store/Clients.antt =====
-- Properties of the rows that the statements on oauth_clients keep (internal/oauth/store.go).
use fund_dashboard.Prelude.{
  ◌≡◌, ℕ, true, false, List, [], ◌∷◌, ◌++◌, Option, none, some, if◌then◌else◌, Bytes, beq, All, map,
}
use fund_dashboard.Oauth.State.{Client, Approval, Server, read_random}
use fund_dashboard.Oauth.State.Ensures.{Ensures, Ensures-query, Ensures-read_random}
use fund_dashboard.Oauth.Store.{updated, upsert_client, find_client, insert_client, client_by_id}
use fund_dashboard.Oauth.Store.Keeps.{Anything}

-- A property of clients that does not look at the time of creation.
module _ (P : Client → Type 0)
    (dated : (c : Client) (t : ℕ) → P c → P (record c { created_at = t })) where
  abbrev pub IsFound : Option Client → Type 0
  IsFound none = Unit
  IsFound (some c) = P c

  find-IsFound : (id : Bytes) (cs : List Client) → All P cs → IsFound (find_client id cs)
  unfolding find_client
  find-IsFound id [] h = tt
  find-IsFound id (c ∷ cs) h =
      elim (beq c.id id) as (λ b. IsFound (if b then some c else find_client id cs)) [
        | true ↦ h.0
        | false ↦ find-IsFound id cs h.1
      ]

  updated-has : (c old : Client) → P c → P old → P (updated c old)
  updated-has c old h k =
      elim (beq old.id c.id)
        as (λ b. P (if b then record c { created_at = old.created_at } else old)) [
          | true ↦ dated c old.created_at h
          | false ↦ k
        ]

  append-All : (c : Client) (cs : List Client) → P c → All P cs → All P (cs ++ c ∷ [])
  append-All c [] h k = (h, tt)
  append-All c (x ∷ cs) h k = (k.0, append-All c cs h k.1)

  updated-All : (c : Client) (cs : List Client) → P c → All P cs → All P (map (updated c) cs)
  updated-All c [] h k = tt
  updated-All c (x ∷ cs) h k = (updated-has c x h k.0, updated-All c cs h k.1)

  upsert-All :
      (o : Option Client) (c : Client) (cs : List Client)
      → P c
      → All P cs
      → All P (upsert_client o c cs)
  upsert-All none c cs h k = append-All c cs h k
  upsert-All (some old) c cs h k = updated-All c cs h k

  -- All clients have the property, and the approvals are those given.
  abbrev pub HaveAll : List Approval → Server → Type 0
  HaveAll rows w = All P w.clients × (w.approvals ≡ rows)

  module _ (rows : List Approval) where
    pub insert_client-keeps : (c : Client) → P c → Ensures (HaveAll rows) Anything (insert_client c)
    unfolding insert_client
    insert_client-keeps c h =
        Ensures-query (HaveAll rows) Anything
          (λ w.
            (tt {0}, record w { clients = upsert_client (find_client c.id w.clients) c w.clients }))
          (λ w rest p. p)
          (λ v p. ((upsert-All (find_client c.id v.clients) c v.clients h p.0, p.1), tt))

    pub any_random-keeps : Ensures (HaveAll rows) Anything read_random
    any_random-keeps =
        Ensures-read_random (HaveAll rows) Anything (λ w o rest e p. p) (λ w b rest e p. tt)

    pub client_by_id-keeps : (id : Bytes) → Ensures (HaveAll rows) IsFound (client_by_id id)
    unfolding client_by_id
    client_by_id-keeps id =
        Ensures-query (HaveAll rows) IsFound (λ w. (find_client id w.clients, w)) (λ w rest p. p)
          (λ v p. (p, find-IsFound id v.clients p.0))
