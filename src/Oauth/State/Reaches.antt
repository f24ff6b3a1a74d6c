-- ===== src/Oauth/State/Reaches.antt =====
-- Actions on the server: what they answer from one state, and where they lead when they succeed.
use fund_dashboard.Prelude.{
  ◌≡◌, Bool, true, false, if◌then◌else◌, List, [], ◌∷◌, Option, none, some, refl,
}
use fund_dashboard.Oauth.State.{
  Server, Outcome, success, failed, server_error, Flow, ◌>>=◌, as_server_error, query, run_query,
}
use fund_dashboard.Oauth.State.Ensures.{IsGood, Ensures, IsSteady}

bind_answer :
    {A B : Type 0} (Q : A → Type 0) (R : B → Type 0) (f : A → Flow B) (r : Outcome A) (v : Server)
    → IsGood Q r
    → ((a : A) → Q a → IsGood R (f a v).0)
    → IsGood R
        (elim r as (λ x. Outcome B × Server) [ success a ↦ f a v | failed e ↦ (failed e, v) ]).0
bind_answer Q R f (success a) v q h = h a q
bind_answer Q R f (failed e) v q h = tt

-- What a composed action answers from one state.
pub IsGood-bind :
    {A B : Type 0} (Q : A → Type 0) (R : B → Type 0) (m : Flow A) (f : A → Flow B) (w : Server)
    → IsGood Q (m w).0
    → ((a : A) → Q a → IsGood R (f a (m w).1).0)
    → IsGood R ((m >>= f) w).0
IsGood-bind Q R m f w q h = bind_answer Q R f (m w).0 (m w).1 q h

server_error_answer :
    {A : Type 0} (Q : A → Type 0) (r : Outcome A) (v : Server)
    → IsGood Q r
    → IsGood Q
        (elim r as (λ x. Outcome A × Server) [
          | success a ↦ (success a, v)
          | failed e ↦ (failed server_error, v)
        ]).0
server_error_answer Q (success a) v q = q
server_error_answer Q (failed e) v q = tt

pub IsGood-as_server_error :
    {A : Type 0} (Q : A → Type 0) (m : Flow A) (w : Server)
    → IsGood Q (m w).0
    → IsGood Q (as_server_error m w).0
IsGood-as_server_error Q m w q = server_error_answer Q (m w).0 (m w).1 q

pub IsGood-if :
    {A : Type 0} (Q : A → Type 0) (b : Bool) (x y : Flow A) (w : Server)
    → IsGood Q (x w).0
    → (b ≡ false → IsGood Q (y w).0)
    → IsGood Q ((if b then x else y) w).0
IsGood-if Q true x y w hx hy = hx
IsGood-if Q false x y w hx hy = hy refl

-- Actions that lead from states with one property to states with another when they succeed.
abbrev pub Reaches : {A : Type 0} → (Server → Type 0) → (Server → Type 0) → Flow A → Type 0
Reaches P R m = (w : Server) → P w → IsGood (λ a. R (m w).1) (m w).0

module _ (P R : Server → Type 0) where
  before_go :
      {A B : Type 0} (Q : A → Type 0) (f : A → Flow B)
      → ((a : A) → Q a → Reaches P R (f a))
      → (r : Outcome A) (v : Server) → P v
      → IsGood Q r
      → let out = elim r as (λ x. Outcome B × Server) [
        | success a ↦ f a v
        | failed e ↦ (failed e, v)
      ] in
        IsGood (λ b. R out.1) out.0
  before_go Q f h (success a) v p q = h a q v p
  before_go Q f h (failed e) v p q = tt

  pub Reaches-before :
      {A B : Type 0} (Q : A → Type 0) (m : Flow A) (f : A → Flow B)
      → Ensures P Q m
      → ((a : A) → Q a → Reaches P R (f a))
      → Reaches P R (m >>= f)
  Reaches-before Q m f e h w p = before_go Q f h (m w).0 (m w).1 (e w p).0 (e w p).1

  any-IsGood : {A : Type 0} (X : Type 0) (r : Outcome A) → X → IsGood (λ a. X) r
  any-IsGood X (success a) x = x
  any-IsGood X (failed e) x = tt

  after_go :
      {A B : Type 0} (f : A → Flow B)
      → ((a : A) → Ensures R (λ b. Unit {0}) (f a))
      → (r : Outcome A) (v : Server) → IsGood (λ a. R v) r
      → let out = elim r as (λ x. Outcome B × Server) [
        | success a ↦ f a v
        | failed e ↦ (failed e, v)
      ] in
        IsGood (λ b. R out.1) out.0
  after_go f h (success a) v q = any-IsGood (R (f a v).1) (f a v).0 (h a v q).0
  after_go f h (failed e) v q = tt

  pub Reaches-after :
      {A B : Type 0} (m : Flow A) (f : A → Flow B)
      → Reaches P R m
      → ((a : A) → Ensures R (λ b. Unit {0}) (f a))
      → Reaches P R (m >>= f)
  Reaches-after m f e h w p = after_go f h (m w).0 (m w).1 (e w p)

  pub Reaches-if :
      {A : Type 0} (b : Bool) (x y : Flow A)
      → Reaches P R x
      → Reaches P R y
      → Reaches P R (if b then x else y)
  Reaches-if true x y hx hy = hx
  Reaches-if false x y hx hy = hy

  pub Reaches-elim :
      {A B : Type 0} (o : Option A) (x : Flow B) (k : A → Flow B)
      → Reaches P R x
      → ((a : A) → Reaches P R (k a))
      → Reaches P R (elim o as (λ i. Flow B) [ none ↦ x | some a ↦ k a ])
  Reaches-elim none x k hx hk = hx
  Reaches-elim (some a) x k hx hk = hk a

  error_reach :
      {A : Type 0} (r : Outcome A) (v : Server)
      → IsGood (λ a. R v) r
      → let out = elim r as (λ x. Outcome A × Server) [
        | success a ↦ (success a, v)
        | failed e ↦ (failed server_error, v)
      ] in
        IsGood (λ a. R out.1) out.0
  error_reach (success a) v q = q
  error_reach (failed e) v q = tt

  pub Reaches-as_server_error :
      {A : Type 0} (m : Flow A) → Reaches P R m → Reaches P R (as_server_error m)
  Reaches-as_server_error m h w p = error_reach (m w).0 (m w).1 (h w p)

  query_reach :
      {A : Type 0} (f : Server → A × Server)
      → IsSteady P
      → ((v : Server) → P v → R (f v).1)
      → (fs : List Bool) (w : Server) → P w
      → IsGood (λ a. R (run_query fs f w).1) (run_query fs f w).0
  unfolding run_query
  query_reach f st h [] w p = h w p
  query_reach f st h (true ∷ rest) w p = tt
  query_reach f st h (false ∷ rest) w p = h (record w { faults = rest }) (st w rest p)

  pub Reaches-query :
      {A : Type 0} (f : Server → A × Server)
      → IsSteady P
      → ((v : Server) → P v → R (f v).1)
      → Reaches P R (query f)
  unfolding query
  Reaches-query f st h w p = query_reach f st h w.faults w p
