-- ===== src/Auth/Service/Cap.antt =====
-- The expiry of sessions under the calls of internal/auth/service.go, and MaxAge.
use fund_dashboard.Auth.Service.Steps.{IsClosed, run-keeps}
use fund_dashboard.Prelude.{
  ℕ, ◌+◌, ◌≤◌, ◌≡◌, Bool, List, [], ◌∷◌, ◌++◌, none, some, arith, Bytes, keep, All, All-keep,
}
use fund_dashboard.Auth.Store.{Session, World, find, touch}
use fund_dashboard.Auth.Store.Unique.{
  IsUnique, IsUnique-keep, IsUnique-append, IsUnique-touch, All-touch,
}
use fund_dashboard.Auth.Service.{
  Crypto, Options, Service, new_service, seconds, renewed_expiry, Call, run,
}

-- The sliding window does not pass the absolute cap.
pub new_service-ttl : (o : Options) → (new_service o).ttl ≤ (new_service o).max_age
unfolding new_service
new_service-ttl o = ground arith

abbrev pub IsCapped : Service → Session → Type 0
IsCapped s x = x.expires_at ≤ x.created_at + seconds s.max_age

pub record IsSound (s : Service) (ss : List Session) : Type 0 where
  pub unique : IsUnique ss
  pub capped : All (IsCapped s) ss

module _ (s : Service) where
  keep-IsSound : (p : Session → Bool) (ss : List Session) → IsSound s ss → IsSound s (keep p ss)
  keep-IsSound p ss v = record {
    unique = IsUnique-keep p ss v.unique;
    capped = All-keep (IsCapped s) p ss v.capped;
  }

  All-snoc :
      (ss : List Session) (x : Session)
      → All (IsCapped s) ss
      → IsCapped s x
      → All (IsCapped s) (ss ++ x ∷ [])
  All-snoc [] x h p = (p, tt)
  All-snoc (y ∷ ss) x h p = (h.0, All-snoc ss x h.1 p)

  append-IsSound :
      (x : Session)
      → IsCapped s x
      → (ss : List Session) → IsSound s ss
      → find x.id ss ≡ none
      → IsSound s (ss ++ x ∷ [])
  append-IsSound x h ss v e = record {
    unique = IsUnique-append ss x v.unique e;
    capped = All-snoc ss x v.capped h;
  }

  renewed_expiry-le :
      (now : ℕ) (x : Session) → renewed_expiry s now x ≤ x.created_at + seconds s.max_age
  unfolding renewed_expiry
  renewed_expiry-le now x = ground arith

  touch-IsSound :
      (id : Bytes) (now : ℕ) (x : Session) (ss : List Session)
      → find id ss ≡ some x
      → IsSound s ss
      → IsSound s (touch id now (renewed_expiry s now x) ss)
  touch-IsSound id now x ss e v = record {
    unique = IsUnique-touch id now (renewed_expiry s now x) ss v.unique;
    capped =
        All-touch (IsCapped s) id now (renewed_expiry s now x) ss x v.unique e
          (renewed_expiry-le now x) v.capped;
  }

  Sound-IsClosed : s.ttl ≤ s.max_age → IsClosed s (λ t. IsSound s t.sessions)
  Sound-IsClosed window = record {
    deletes = λ t p v. keep-IsSound p t.sessions v;
    opens = λ t x v e fresh. append-IsSound x (omega arith) t.sessions v fresh;
    renews = λ t id now x v e. touch-IsSound id now x t.sessions e v;
    inserts = λ t k v e. v;
    updates = λ t hash now v. v;
  }

-- Under the configuration that `NewService` makes of any options, every sequence of calls, with any
-- failures of the database and of the random source, keeps the session ids unique and every stored
-- expiry within MaxAge of the session's creation.
pub run-IsSound_new :
    (c : Crypto) (o : Options) (ks : List Call) (w : World)
    → IsSound (new_service o) w.sessions
    → IsSound (new_service o) (run c (new_service o) ks w).sessions
run-IsSound_new c o ks w v =
    let s = new_service o in run-keeps s (Sound-IsClosed s (new_service-ttl o)) c ks w v
