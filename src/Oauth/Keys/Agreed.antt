-- ===== src/Oauth/Keys/Agreed.antt =====
-- The key that `EnsureSigningKey` of internal/oauth/jwt.go answers is the one in the database.
use fund_dashboard.Prelude.{
  ℕ, ◌≡◌, Bool, true, false, [], Option, none, some, Bytes, beq, refl, arith, sym, subst,
}
use fund_dashboard.Go.Text.{trim_space}
use fund_dashboard.Oauth.State.{SigningKey, Server, success, Flow, ◌>>=◌, read_random}
use fund_dashboard.Oauth.State.Answers.{Answers, Answers-bind, Answers-query, Answers-read_random}
use fund_dashboard.Oauth.Store.{key_if_absent, load_signing_key, insert_signing_key_if_absent}
use fund_dashboard.Oauth.Flow.Exchange.{good}
use fund_dashboard.Oauth.Keys.{
  Key, Keys, parsed, generate_signing_key, row_of, adopt, settle, wait, create, or_create,
  ensure_signing_key,
}

-- The stored row holds the key.
abbrev pub IsStored : Keys → Key → Server → Type 0
IsStored k key v =
    (row : SigningKey) × (v.signing_key ≡ some row)
    × (k.parse_private_key_pem row.private_key_pem ≡ some key)

load-signing_key : (w : Server) → Answers (λ o v. v.signing_key ≡ o) load_signing_key w
unfolding load_signing_key
load-signing_key w =
    Answers-query (λ v. Unit {0}) (λ o v. v.signing_key ≡ o) (λ v. (v.signing_key, v)) w
      (λ v rest p. tt) (λ v p. refl) tt

-- An insertion that reports one has stored the row.
inserted_row :
    (row : SigningKey) (w : Server)
    → Answers (λ b v. b ≡ true → v.signing_key ≡ some row) (insert_signing_key_if_absent row) w
unfolding insert_signing_key_if_absent
inserted_row row w =
    Answers-query (λ v. Unit {0}) (λ b v. b ≡ true → v.signing_key ≡ some row) _ w (λ v rest p. tt)
      (λ v p.
        elim v.signing_key
          as (λ o. (key_if_absent o row).1 ≡ true → (key_if_absent o row).0 ≡ some row) [
            | none ↦ λ e. refl
            | some old ↦ λ e. absurd (ground (arith, e))
          ])
      tt

module _ (k : Keys) where
  parsed-Answers :
      (Q : Key → Server → Type 0) (o : Option Key) (w : Server)
      → ((key : Key) → o ≡ some key → Q key w)
      → Answers Q (parsed k o) w
  unfolding parsed
  parsed-Answers Q none w h = tt
  parsed-Answers Q (some key) w h = h key refl

  adopted-IsStored :
      (o : Option SigningKey) (w : Server) → w.signing_key ≡ o → Answers (IsStored k) (adopt k o) w
  unfolding adopt
  adopted-IsStored none w e = tt
  adopted-IsStored (some row) w e =
      parsed-Answers (IsStored k) (k.parse_private_key_pem row.private_key_pem) w
        (λ key f. (row, e, f))

  generated_key :
      (w : Server)
      → Answers (λ key v. (seed : Bytes) × (k.generate seed ≡ some key)) (generate_signing_key k) w
  unfolding generate_signing_key
  generated_key w =
      Answers-bind (λ b v. Unit {0}) (λ key v. (seed : Bytes) × (k.generate seed ≡ some key))
        read_random (λ seed. parsed k (k.generate seed)) w
        (Answers-read_random (λ b v. Unit {0}) w (λ b v. tt))
        (λ seed v u.
          parsed-Answers (λ key x. (s : Bytes) × (k.generate s ≡ some key)) (k.generate seed) v
            (λ key e. (seed, e)))

  module _
      (reads : (seed : Bytes) (key : Key)
        → k.generate seed ≡ some key
        → k.parse_private_key_pem key.private_pem ≡ some key) where
    settled-IsStored :
        (now : ℕ) (key : Key) (b : Bool) (w : Server)
        → k.parse_private_key_pem key.private_pem ≡ some key
        → (b ≡ true → w.signing_key ≡ some (row_of k now key))
        → Answers (IsStored k) (settle k key b) w
    unfolding settle
    settled-IsStored now key true w r h = (row_of k now key, h refl, r)
    settled-IsStored now key false w r h =
        Answers-bind (λ o v. v.signing_key ≡ o) (IsStored k) load_signing_key (adopt k) w
          (load-signing_key w) (λ o v e. adopted-IsStored o v e)

    created-IsStored :
        (meanwhile : Server → Server) (now : ℕ) (w : Server)
        → Answers (IsStored k) (create k meanwhile now) w
    unfolding create wait
    created-IsStored meanwhile now w =
        let add : Key → Flow Key =
          λ key. insert_signing_key_if_absent (row_of k now key) >>= settle k key in
        Answers-bind (λ key v. (seed : Bytes) × (k.generate seed ≡ some key)) (IsStored k)
          (generate_signing_key k) (λ key. wait k meanwhile >>= λ u. add key) w (generated_key w)
          (λ key v (seed, made).
            Answers-bind (λ b x. b ≡ true → x.signing_key ≡ some (row_of k now key)) (IsStored k)
              (insert_signing_key_if_absent (row_of k now key)) (settle k key) (meanwhile v)
              (inserted_row (row_of k now key) (meanwhile v))
              (λ b x h. settled-IsStored now key b x (reads seed key made) h))

    started-IsStored :
        (meanwhile : Server → Server) (now : ℕ) (o : Option SigningKey) (w : Server)
        → w.signing_key ≡ o
        → Answers (IsStored k) (or_create k meanwhile now o) w
    unfolding or_create
    started-IsStored meanwhile now (some row) w e = adopted-IsStored (some row) w e
    started-IsStored meanwhile now none w e = created-IsStored meanwhile now w

    ensured-IsStored :
        (meanwhile : Server → Server) (now : ℕ) (pem : Bytes) (w : Server)
        → trim_space pem ≡ []
        → Answers (IsStored k) (ensure_signing_key k meanwhile now pem true) w
    unfolding ensure_signing_key beq
    ensured-IsStored meanwhile now pem w e = rw e (
        Answers-bind (λ o v. v.signing_key ≡ o) (IsStored k) load_signing_key
          (or_create k meanwhile now) w (load-signing_key w)
          (λ o v h. started-IsStored meanwhile now o v h))

    same_key :
        (meanwhile : Server → Server) (now : ℕ) (pem : Bytes) (key : Key) (w : Server)
        → trim_space pem ≡ []
        → IsStored k key w
        → Answers (λ found v. found ≡ key) (ensure_signing_key k meanwhile now pem true) w
    unfolding ensure_signing_key beq or_create adopt load_signing_key
    same_key meanwhile now pem key w e (row, there, read) = rw e (
        Answers-bind (λ o v. o ≡ some row) (λ found v. found ≡ key) load_signing_key
          (or_create k meanwhile now) w
          (Answers-query (λ v. v.signing_key ≡ some row) (λ o v. o ≡ some row)
            (λ v. (v.signing_key, v)) w (λ v rest p. p) (λ v p. p) there)
          (λ o v h.
            subst
              (λ (x : Option SigningKey).
                Answers (λ found u. found ≡ key) (or_create k meanwhile now x) v)
              (sym h)
              (parsed-Answers (λ found u. found ≡ key) (k.parse_private_key_pem row.private_key_pem)
                v (λ found f. ground (arith, f, read)))))

-- With a database and no configured key, a process that comes up answers the key of the row in the
-- database, whatever other processes do between its look at the table and its insertion; and a
-- process that comes up after it answers the same key. For generated keys that are read back from
-- their PEM text.
pub boots_agree :
    (k : Keys) (a b : Server → Server) (t u : ℕ) (pem pem' : Bytes) (w : Server) (key key' : Key)
    → ((seed : Bytes) (made : Key)
        → k.generate seed ≡ some made
        → k.parse_private_key_pem made.private_pem ≡ some made)
    → trim_space pem ≡ []
    → trim_space pem' ≡ []
    → let first = ensure_signing_key k a t pem true w in
      first.0 ≡ success key
      → (ensure_signing_key k b u pem' true first.1).0 ≡ success key'
      → ((row : SigningKey) × (first.1.signing_key ≡ some row)
          × (k.parse_private_key_pem row.private_key_pem ≡ some key))
        × (key' ≡ key)
boots_agree k a b t u pem pem' w key key' reads e e' up up' =
    let first = ensure_signing_key k a t pem true w in
    let stored =
      good (λ x. IsStored k x first.1) first.0 key (ensured-IsStored k reads a t pem w e) up in
    (
      stored,
      good (λ x. x ≡ key) (ensure_signing_key k b u pem' true first.1).0 key'
          (same_key k reads b u pem' key first.1 e' stored) up',
    )
