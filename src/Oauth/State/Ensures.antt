-- ===== src/Oauth/State/Ensures.antt =====
-- Actions on the server that keep a property of the state and answer values with a property: the
-- rules for the ways of composing them.
use fund_dashboard.Prelude.{
  ◌≡◌, Bool, true, false, if◌then◌else◌, List, [], ◌∷◌, Option, none, some, Bytes, refl,
}
use fund_dashboard.Oauth.State.{
  Server, Failure, Outcome, success, failed, server_error, Flow, ◌>>=◌, pure, raise,
  as_server_error, query, run_query, take_random, read_random,
}

abbrev pub IsGood : {A : Type 0} → (A → Type 0) → Outcome A → Type 0
IsGood Q (success a) = Q a
IsGood Q (failed e) = Unit

abbrev pub Ensures : {A : Type 0} → (Server → Type 0) → (A → Type 0) → Flow A → Type 0
Ensures P Q m = (w : Server) → P w → P (m w).1 × IsGood Q (m w).0

-- What does not depend on the schedule of failures.
abbrev pub IsSteady : (Server → Type 0) → Type 0
IsSteady P = (w : Server) (rest : List Bool) → P w → P (record w { faults = rest })

module _ (P : Server → Type 0) where
  pub Ensures-pure : {A : Type 0} (Q : A → Type 0) (a : A) → Q a → Ensures P Q (pure a)
  Ensures-pure Q a q w p = (p, q)

  pub Ensures-raise : {A : Type 0} (Q : A → Type 0) (e : Failure) → Ensures P Q (raise e)
  Ensures-raise Q e w p = (p, tt)

  bind_go :
      {A B : Type 0} (Q : A → Type 0) (R : B → Type 0) (f : A → Flow B)
      → ((a : A) → Q a → Ensures P R (f a))
      → (r : Outcome A) (v : Server) → P v
      → IsGood Q r
      → let out = elim r as (λ x. Outcome B × Server) [
        | success a ↦ f a v
        | failed e ↦ (failed e, v)
      ] in
        P out.1 × IsGood R out.0
  bind_go Q R f k (success a) v p q = k a q v p
  bind_go Q R f k (failed e) v p q = (p, tt)

  pub Ensures-bind :
      {A B : Type 0} (Q : A → Type 0) (R : B → Type 0) (m : Flow A) (f : A → Flow B)
      → Ensures P Q m
      → ((a : A) → Q a → Ensures P R (f a))
      → Ensures P R (m >>= f)
  Ensures-bind Q R m f h k w p = bind_go Q R f k (m w).0 (m w).1 (h w p).0 (h w p).1

  pub Ensures-if :
      {A : Type 0} (Q : A → Type 0) (b : Bool) (x y : Flow A)
      → Ensures P Q x
      → (b ≡ false → Ensures P Q y)
      → Ensures P Q (if b then x else y)
  Ensures-if Q true x y hx hy = hx
  Ensures-if Q false x y hx hy = hy refl

  pub Ensures-elim :
      {A B : Type 0} (Q : B → Type 0) (o : Option A) (x : Flow B) (k : A → Flow B)
      → Ensures P Q x
      → ((a : A) → o ≡ some a → Ensures P Q (k a))
      → Ensures P Q (elim o as (λ i. Flow B) [ none ↦ x | some a ↦ k a ])
  Ensures-elim Q none x k hx hk = hx
  Ensures-elim Q (some a) x k hx hk = hk a refl

  weaken_go :
      {A : Type 0} (Q R : A → Type 0)
      → ((a : A) → Q a → R a)
      → (r : Outcome A) → IsGood Q r
      → IsGood R r
  weaken_go Q R f (success a) q = f a q
  weaken_go Q R f (failed e) q = tt

  pub Ensures-weaken :
      {A : Type 0} (Q R : A → Type 0) (m : Flow A)
      → ((a : A) → Q a → R a)
      → Ensures P Q m
      → Ensures P R m
  Ensures-weaken Q R m f h w p = ((h w p).0, weaken_go Q R f (m w).0 (h w p).1)

  server_error_go :
      {A : Type 0} (Q : A → Type 0) (r : Outcome A) (v : Server)
      → P v
      → IsGood Q r
      → let out = elim r as (λ x. Outcome A × Server) [
        | success a ↦ (success a, v)
        | failed e ↦ (failed server_error, v)
      ] in
        P out.1 × IsGood Q out.0
  server_error_go Q (success a) v p q = (p, q)
  server_error_go Q (failed e) v p q = (p, tt)

  pub Ensures-as_server_error :
      {A : Type 0} (Q : A → Type 0) (m : Flow A) → Ensures P Q m → Ensures P Q (as_server_error m)
  Ensures-as_server_error Q m h w p = server_error_go Q (m w).0 (m w).1 (h w p).0 (h w p).1

  query_go :
      {A : Type 0} (Q : A → Type 0) (f : Server → A × Server)
      → IsSteady P
      → ((v : Server) → P v → P (f v).1 × Q (f v).0)
      → (fs : List Bool) (w : Server) → P w
      → P (run_query fs f w).1 × IsGood Q (run_query fs f w).0
  unfolding run_query
  query_go Q f st h [] w p = h w p
  query_go Q f st h (true ∷ rest) w p = (st w rest p, tt)
  query_go Q f st h (false ∷ rest) w p = h (record w { faults = rest }) (st w rest p)

  pub Ensures-query :
      {A : Type 0} (Q : A → Type 0) (f : Server → A × Server)
      → IsSteady P
      → ((v : Server) → P v → P (f v).1 × Q (f v).0)
      → Ensures P Q (query f)
  unfolding query
  Ensures-query Q f st h w p = query_go Q f st h w.faults w p

  random_go :
      (Q : Bytes → Type 0)
      → ((w : Server) (o : Option Bytes) (rest : List (Option Bytes))
          → w.entropy ≡ o ∷ rest
          → P w
          → P (record w { entropy = rest }))
      → ((w : Server) (b : Bytes) (rest : List (Option Bytes))
          → w.entropy ≡ some b ∷ rest
          → P w
          → Q b)
      → (w : Server) (es : List (Option Bytes)) → w.entropy ≡ es
      → P w
      → P (take_random es w).1 × IsGood Q (take_random es w).0
  random_go Q st h w [] e p = (p, tt)
  random_go Q st h w (some b ∷ rest) e p = (st w (some b) rest e p, h w b rest e p)
  random_go Q st h w (none ∷ rest) e p = (st w none rest e p, tt)

  pub Ensures-read_random :
      (Q : Bytes → Type 0)
      → ((w : Server) (o : Option Bytes) (rest : List (Option Bytes))
          → w.entropy ≡ o ∷ rest
          → P w
          → P (record w { entropy = rest }))
      → ((w : Server) (b : Bytes) (rest : List (Option Bytes))
          → w.entropy ≡ some b ∷ rest
          → P w
          → Q b)
      → Ensures P Q read_random
  Ensures-read_random Q st h w p = random_go Q st h w w.entropy refl p
