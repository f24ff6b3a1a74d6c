-- ===== src/Oauth/Clients/Target.antt =====
-- Where `ValidateRedirectURI` of internal/oauth/clients.go lets a code go.
use fund_dashboard.Prelude.{
  ◌≡◌, ◌⊎◌, inl, inr, true, List, [], ◌∷◌, Option, none, some, arith, ap, Bytes, bytes, beq,
  beq_iff, All, Bool-cases, subst,
}
use fund_dashboard.Go.Text.{trim_space}
use fund_dashboard.Go.Search.{to_lower}
use fund_dashboard.Oauth.State.{Client}
use fund_dashboard.Oauth.Clients.{
  Url, Net, is_loopback_host, loopback_urls, loopback_equivalent, is_registered, single_uri,
  validate_redirect_uri,
}
use fund_dashboard.Oauth.Clients.Safe.{IsParsed, IsSafe, IsSafeClient}

-- The URI is one of those, or a loopback variant of one.
pub IsTargetOf : Net → List Bytes → Bytes → Type 0
IsTargetOf net [] uri = ⊥
IsTargetOf net (r ∷ rs) uri =
    (r ≡ uri) ⊎ (loopback_equivalent net r uri ≡ true) ⊎ IsTargetOf net rs uri

-- https, or http on the loopback interface.
abbrev pub IsLandingUrl : Option Url → Type 0
IsLandingUrl none = ⊥
IsLandingUrl (some u) =
    (to_lower u.scheme ≡ bytes "https")
    ⊎ ((to_lower u.scheme ≡ bytes "http") × (is_loopback_host u.hostname ≡ true))

abbrev pub IsLanding : Net → Bytes → Type 0
IsLanding net uri = IsLandingUrl (net.parse uri)

safe-IsLanding : (o : Option Url) → IsParsed o → IsLandingUrl o
safe-IsLanding none h = h
safe-IsLanding (some u) (fragment, user, host, wild, scheme) = scheme

http_lower : (u : Url) → beq u.scheme (bytes "http") ≡ true → to_lower u.scheme ≡ bytes "http"
unfolding to_lower
http_lower u h = ap to_lower ((beq_iff u.scheme (bytes "http")).0 h)

loopback-IsLanding : (a b : Option Url) → loopback_urls a b ≡ true → IsLandingUrl b
unfolding loopback_urls
loopback-IsLanding none b e = absurd (ground (arith, e))
loopback-IsLanding (some u) none e = absurd (ground (arith, e))
loopback-IsLanding (some u) (some v) e = inr (ground (arith, e, http_lower v))

module _ (net : Net) where
  registered-IsTargetOf :
      (uris : List Bytes) (uri : Bytes)
      → is_registered net uris uri ≡ true
      → IsTargetOf net uris uri
  unfolding is_registered IsTargetOf
  registered-IsTargetOf [] uri e = absurd (ground (arith, e))
  registered-IsTargetOf (r ∷ rs) uri e = elim (Bool-cases (beq r uri)) [
    | inl same ↦ inl ((beq_iff r uri).0 same)
    | inr differ ↦ elim (Bool-cases (loopback_equivalent net r uri)) [
      | inl loop ↦ inr (inl loop)
      | inr far ↦ inr (inr (registered-IsTargetOf rs uri (ground (arith, e, differ, far))))
    ]
  ]

  target-IsLanding :
      (uris : List Bytes) (uri : Bytes)
      → All (IsSafe net) uris
      → IsTargetOf net uris uri
      → IsLanding net uri
  unfolding IsTargetOf loopback_equivalent
  target-IsLanding [] uri h t = absurd t
  target-IsLanding (r ∷ rs) uri h (inl same) =
      subst (IsLanding net) same (safe-IsLanding (net.parse r) h.0)
  target-IsLanding (r ∷ rs) uri h (inr (inl loop)) =
      loopback-IsLanding (net.parse r) (net.parse uri) loop
  target-IsLanding (r ∷ rs) uri h (inr (inr t)) = target-IsLanding rs uri h.1 t

  single_uri-IsTargetOf :
      (uris : List Bytes) (uri : Bytes) → single_uri uris ≡ some uri → IsTargetOf net uris uri
  unfolding IsTargetOf
  single_uri-IsTargetOf [] uri e = absurd (ground (arith, e))
  single_uri-IsTargetOf (r ∷ []) uri e = inl (ground (arith, e))
  single_uri-IsTargetOf (r ∷ x ∷ xs) uri e = absurd (ground (arith, e))

  -- A target that is accepted is a registered one or a loopback variant of one, and a code sent to it
  -- goes over https or to the loopback interface.
  pub validate-IsTargetOf :
      (c : Client) (given uri : Bytes)
      → IsSafeClient net c
      → validate_redirect_uri net c given ≡ some uri
      → IsTargetOf net c.redirect_uris uri × IsLanding net uri
  unfolding validate_redirect_uri
  validate-IsTargetOf c given uri h e =
      let asked = trim_space given in
      let target : IsTargetOf net c.redirect_uris uri = elim (Bool-cases (beq asked [])) [
        | inl empty ↦ single_uri-IsTargetOf c.redirect_uris uri (rw empty at e)
        | inr full ↦ elim (Bool-cases (is_registered net c.redirect_uris asked)) [
          | inl there ↦
              subst (IsTargetOf net c.redirect_uris) (ground (arith, e, full, there))
                (registered-IsTargetOf c.redirect_uris asked there)
          | inr absent ↦ absurd (ground (arith, e, full, absent))
        ]
      ] in
      (target, target-IsLanding c.redirect_uris uri h target)
