-- ===== src/Oauth/State/Answers.antt =====
-- Actions on the server: what they answer from one state, together with the state they leave.
use fund_dashboard.Prelude.{Bool, true, false, Option, none, some, List, [], ◌∷◌, Bytes}
use fund_dashboard.Oauth.State.{
  Server, Outcome, success, failed, server_error, Flow, ◌>>=◌, as_server_error, take_random,
  read_random, query, run_query,
}
use fund_dashboard.Oauth.State.Ensures.{IsGood, IsSteady}

abbrev pub Answers : {A : Type 0} → (A → Server → Type 0) → Flow A → Server → Type 0
Answers Q m w = IsGood (λ a. Q a (m w).1) (m w).0

bind_go :
    {A B : Type 0} (Q : A → Server → Type 0) (R : B → Server → Type 0) (f : A → Flow B)
    (r : Outcome A) (v : Server)
    → IsGood (λ a. Q a v) r
    → ((a : A) (x : Server) → Q a x → Answers R (f a) x)
    → let out = elim r as (λ x. Outcome B × Server) [
      | success a ↦ f a v
      | failed e ↦ (failed e, v)
    ] in
      IsGood (λ b. R b out.1) out.0
bind_go Q R f (success a) v q h = h a v q
bind_go Q R f (failed e) v q h = tt

pub Answers-bind :
    {A B : Type 0} (Q : A → Server → Type 0) (R : B → Server → Type 0) (m : Flow A) (f : A → Flow B)
    (w : Server)
    → Answers Q m w
    → ((a : A) (v : Server) → Q a v → Answers R (f a) v)
    → Answers R (m >>= f) w
Answers-bind Q R m f w q h = bind_go Q R f (m w).0 (m w).1 q h

error_go :
    {A : Type 0} (Q : A → Server → Type 0) (r : Outcome A) (v : Server)
    → IsGood (λ a. Q a v) r
    → let out = elim r as (λ x. Outcome A × Server) [
      | success a ↦ (success a, v)
      | failed e ↦ (failed server_error, v)
    ] in
      IsGood (λ a. Q a out.1) out.0
error_go Q (success a) v q = q
error_go Q (failed e) v q = tt

pub Answers-as_server_error :
    {A : Type 0} (Q : A → Server → Type 0) (m : Flow A) (w : Server)
    → Answers Q m w
    → Answers Q (as_server_error m) w
Answers-as_server_error Q m w q = error_go Q (m w).0 (m w).1 q

random_go :
    (Q : Bytes → Server → Type 0)
    → ((b : Bytes) (v : Server) → Q b v)
    → (es : List (Option Bytes)) (w : Server)
    → IsGood (λ b. Q b (take_random es w).1) (take_random es w).0
random_go Q h [] w = tt
random_go Q h (some b ∷ es) w = h b (record w { entropy = es })
random_go Q h (none ∷ es) w = tt

pub Answers-read_random :
    (Q : Bytes → Server → Type 0) (w : Server)
    → ((b : Bytes) (v : Server) → Q b v)
    → Answers Q read_random w
Answers-read_random Q w h = random_go Q h w.entropy w

query_go :
    {A : Type 0} (P : Server → Type 0) (Q : A → Server → Type 0) (f : Server → A × Server)
    → IsSteady P
    → ((v : Server) → P v → Q (f v).0 (f v).1)
    → (fs : List Bool) (w : Server) → P w
    → IsGood (λ a. Q a (run_query fs f w).1) (run_query fs f w).0
unfolding run_query
query_go P Q f st h [] w p = h w p
query_go P Q f st h (true ∷ rest) w p = tt
query_go P Q f st h (false ∷ rest) w p = h (record w { faults = rest }) (st w rest p)

pub Answers-query :
    {A : Type 0} (P : Server → Type 0) (Q : A → Server → Type 0) (f : Server → A × Server)
    (w : Server)
    → IsSteady P
    → ((v : Server) → P v → Q (f v).0 (f v).1)
    → P w
    → Answers Q (query f) w
unfolding query
Answers-query P Q f w st h p = query_go P Q f st h w.faults w p
