-- ===== src/Auth/Limiter/Collect.antt =====
-- The collection of stale entries, `gcLocked` of internal/auth/limiter.go.
use fund_dashboard.Prelude.{
  ℕ, ◌+◌, ◌≤◌, ◌≡◌, ◌↔◌, String, List, [], ◌∷◌, Option, none, some, arith, refl, All,
}
use fund_dashboard.Auth.Limiter.{Limiter, strike_decay, prune, in_window, collect, or_nil}
use fund_dashboard.Auth.Limiter.Invariant.{IsTracked}

-- The lock of a key has lapsed, if there is one.
abbrev pub IsLapsed : ℕ → Option ℕ → Type 0
IsLapsed now none = Unit
IsLapsed now (some until) = until ≤ now

-- The last failure of a key, if there is one, lies the decay time back.
abbrev pub IsDecayed : ℕ → Option ℕ → Type 0
IsDecayed now none = Unit
IsDecayed now (some last) = last + strike_decay ≤ now

-- No failure that is counted lies in the window.
abbrev pub IsOutside : ℕ → ℕ → Option (List ℕ) → Type 0
IsOutside now window o = All (λ t. t + window ≤ now) (or_nil o)

prune_outside : (now w : ℕ) (ts : List ℕ) → All (λ t. t + w ≤ now) ts ↔ (prune now w ts ≡ [])
unfolding prune
prune_outside now w [] = (λ h. refl, λ e. tt)
prune_outside now w (t ∷ ts) = (
  λ h. ground (arith, (prune_outside now w ts).0 h.1),
  λ e. ground (arith, (prune_outside now w ts).1),
)

in_window-IsOutside :
    (now w : ℕ) (o : Option (List ℕ)) → IsOutside now w o ↔ (in_window now w o ≡ none)
unfolding in_window
in_window-IsOutside now w none = (λ h. refl, λ e. tt)
in_window-IsOutside now w (some ts) = ground (arith, prune_outside now w ts)

-- In a tracked limiter a collection leaves a key without any entry in the four maps exactly when
-- its lock has lapsed, no failure of it lies in the counting window, and its last failure lies
-- seven days back.
pub collect_exact :
    (now : ℕ) (k : String) (l : Limiter)
    → IsTracked l
    → let c = collect now l in
      ((c.locked_until k ≡ none)
        × (c.fails k ≡ none)
        × (c.lock_strikes k ≡ none)
        × (c.last_failure k ≡ none))
      ↔ (IsLapsed now (l.locked_until k)
          × IsOutside now l.fail_window (l.fails k)
          × IsDecayed now (l.last_failure k))
unfolding collect
collect_exact now k l v =
    ground (arith, in_window-IsOutside now l.fail_window (l.fails k), v.recorded k)
