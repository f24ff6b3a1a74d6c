-- ===== src/Auth/Service/Active.antt =====
-- `Authenticate` called again and again with one token.
use fund_dashboard.Prelude.{
  ℕ, ◌+◌, ◌/◌, ◌≤◌, ◌<◌, ◌≡◌, ◌⊎◌, Bool, true, false, List, [], ◌∷◌, Option, none, some, refl,
  arith, if◌then◌else◌, Bytes, All,
}
use fund_dashboard.Auth.Store.{Result, ok, err, Session, World, find}
use fund_dashboard.Auth.Service.Renewal.{renewed, authenticate_live}
use fund_dashboard.Auth.Service.{
  Crypto, Service, seconds, renewed_expiry, due, token_id, authenticate,
}

-- Whether a token is admitted at each of a list of times.
abbrev pub is_admitted : Result (Option Session) → Bool
is_admitted (ok (some x)) = true
is_admitted (ok none) = false
is_admitted (err e) = false

pub stays_admitted : Crypto → Service → Bytes → List ℕ → World → Bool
stays_admitted c s token [] w = true
stays_admitted c s token (t ∷ ts) w =
    let (r, v) = authenticate c s token t w in
    let rest = stays_admitted c s token ts v in if is_admitted r then rest else false

-- Each time comes less than half a window after the one before it.
abbrev pub IsSteady : Service → ℕ → List ℕ → Type 0
IsSteady s last [] = Unit
IsSteady s last (t ∷ ts) = (t < last + seconds s.ttl / 2) × IsSteady s t ts

abbrev cap_of : Service → Session → ℕ
cap_of s x = x.created_at + seconds s.max_age

-- The expiry lies a window after the last renewal, or at the cap.
abbrev pub IsRenewed : Service → Session → Type 0
IsRenewed s x =
    (x.last_seen_at + seconds s.ttl ≤ x.expires_at)
    ⊎ (x.created_at + seconds s.max_age ≤ x.expires_at)

renewed-IsRenewed :
    (s : Service) (now : ℕ) (x : Session)
    → IsRenewed s x
    → IsRenewed s (renewed s now x)
      × ((renewed s now x).created_at ≡ x.created_at)
      × ((now + seconds s.ttl / 2 ≤ (renewed s now x).expires_at)
          ⊎ (cap_of s x ≤ (renewed s now x).expires_at))
unfolding renewed due renewed_expiry
renewed-IsRenewed s now x h = ground arith

module _ (c : Crypto) (s : Service) (token : Bytes) (cap : ℕ) where
  stays_lem :
      (ts : List ℕ) (last : ℕ) (w : World) (x : Session)
      → w.faults ≡ []
      → find (token_id c token) w.sessions ≡ some x
      → IsRenewed s x
      → cap_of s x ≡ cap
      → (last + seconds s.ttl / 2 ≤ x.expires_at) ⊎ (cap ≤ x.expires_at)
      → IsSteady s last ts
      → All (λ t. t < cap) ts
      → stays_admitted c s token ts w ≡ true
  unfolding stays_admitted
  stays_lem [] last w x healthy e r k b st below = refl
  stays_lem (t ∷ ts) last w x healthy e r k b st below =
      let (a, f, h) = authenticate_live c s token t w healthy x e (omega arith) in
      let (r', k', b') = renewed-IsRenewed s t x r in
      rw a (
        stays_lem ts t (authenticate c s token t w).1 (renewed s t x) h f r' (omega arith)
          (omega arith) st.1 below.1)

-- While the database works, a session whose expiry lies a window after its last use or at the cap,
-- and that is used again and again, each time less than half a window after the last, is admitted
-- every time before MaxAge after its creation.
pub active_until_cap :
    (c : Crypto) (s : Service) (token : Bytes) (ts : List ℕ) (w : World) (x : Session)
    → w.faults ≡ []
    → find (token_id c token) w.sessions ≡ some x
    → IsRenewed s x
    → IsSteady s x.last_seen_at ts
    → All (λ t. t < x.created_at + seconds s.max_age) ts
    → stays_admitted c s token ts w ≡ true
active_until_cap c s token ts w x healthy e r st below =
    stays_lem c s token (cap_of s x) ts x.last_seen_at w x healthy e r refl (omega arith) st below
