-- ===== src/Oauth/Clients/Safe.antt =====
-- What the redirect URIs of a client satisfy: `normalizeRedirectURI`, `RegisterClient` and `Resolve` of
-- internal/oauth/clients.go.
use fund_dashboard.Prelude.{
  ◌≡◌, ◌⊎◌, inl, inr, true, false, List, [], ◌∷◌, Option, none, some, refl, arith, Bytes, bytes,
  beq, beq_iff, All, Bool-cases, subst,
}
use fund_dashboard.Go.Text.{trim_space}
use fund_dashboard.Go.Search.{to_lower}
use fund_dashboard.Oauth.State.{Client}
use fund_dashboard.Oauth.Store.{mentions}
use fund_dashboard.Oauth.Clients.{
  Url, Net, is_loopback_host, has_wild, with_first, absolute_https, check_url,
  normalize_redirect_uri, clean_from, normalize_all,
}

-- An https target with a literal host, or an http target on the loopback interface; without
-- credentials and fragment.
abbrev pub IsSafeUrl : Url → Type 0
IsSafeUrl u =
    (u.fragment ≡ [])
    × (u.has_user ≡ false)
    × (beq u.hostname [] ≡ false)
    × (has_wild u.hostname ≡ false)
    × ((to_lower u.scheme ≡ bytes "https")
        ⊎ ((to_lower u.scheme ≡ bytes "http") × (is_loopback_host u.hostname ≡ true)))

abbrev pub IsParsed : Option Url → Type 0
IsParsed none = ⊥
IsParsed (some u) = IsSafeUrl u

abbrev pub IsSafe : Net → Bytes → Type 0
IsSafe net uri = IsParsed (net.parse uri)

abbrev pub IsSafeClient : Net → Client → Type 0
IsSafeClient net c = All (IsSafe net) c.redirect_uris

absolute-safe :
    (uri out : Bytes) (u : Url)
    → absolute_https uri u ≡ some out
    → (uri ≡ out)
      × ((to_lower u.scheme ≡ bytes "https")
          ⊎ ((to_lower u.scheme ≡ bytes "http") × (is_loopback_host u.hostname ≡ true)))
unfolding absolute_https
absolute-safe uri out u e = ground (
  arith,
  e,
  beq_iff (to_lower u.scheme) (bytes "https"),
  beq_iff (to_lower u.scheme) (bytes "http"),
)

check_url-IsParsed :
    (uri out : Bytes) (o : Option Url) → check_url uri o ≡ some out → (uri ≡ out) × IsParsed o
unfolding check_url
check_url-IsParsed uri out none e = absurd (ground (arith, e))
check_url-IsParsed uri out (some u) e =
    ground (arith, e, beq_iff u.fragment [], absolute-safe uri out u)

module _ (net : Net) where
  normalize-IsSafe : (raw uri : Bytes) → normalize_redirect_uri net raw ≡ some uri → IsSafe net uri
  unfolding normalize_redirect_uri
  normalize-IsSafe raw uri e =
      let given = trim_space raw in
      elim (Bool-cases (beq given [])) [
        | inl empty ↦ absurd (ground (arith, empty, e))
        | inr full ↦
            let (same, safe) =
              check_url-IsParsed given uri (net.parse given) (ground (arith, full, e)) in
            subst (λ (x : Bytes). IsParsed (net.parse x)) same safe
      ]

  -- A list of targets, if there is one, is of safe ones.
  abbrev pub AllSafe : Option (List Bytes) → Type 0
  AllSafe none = Unit
  AllSafe (some uris) = All (IsSafe net) uris

  first-AllSafe :
      (uri : Bytes) (o : Option (List Bytes))
      → IsSafe net uri
      → AllSafe o
      → AllSafe (with_first uri o)
  unfolding with_first
  first-AllSafe uri none h a = tt
  first-AllSafe uri (some uris) h a = (h, a)

  pub clean_from-AllSafe : (seen raws : List Bytes) → AllSafe (clean_from net seen raws)
  unfolding clean_from
  clean_from-AllSafe seen [] = tt
  clean_from-AllSafe seen (raw ∷ raws) =
      elim (normalize_redirect_uri net raw)
          as (λ o.
            normalize_redirect_uri net raw ≡ o
            → AllSafe (elim o [
              | none ↦ none
              | some uri ↦ elim (mentions seen uri) [
                | true ↦ clean_from net seen raws
                | false ↦ with_first uri (clean_from net (uri ∷ seen) raws)
              ]
            ])) [
              | none ↦ λ e. tt
              | some uri ↦ λ e.
                  elim (mentions seen uri)
                    as (λ b. AllSafe (elim b [
                      | true ↦ clean_from net seen raws
                      | false ↦ with_first uri (clean_from net (uri ∷ seen) raws)
                    ])) [
                      | true ↦ clean_from-AllSafe seen raws
                      | false ↦
                          first-AllSafe uri (clean_from net (uri ∷ seen) raws)
                            (normalize-IsSafe raw uri e) (clean_from-AllSafe (uri ∷ seen) raws)
                    ]
            ]
        refl

  pub normalize_all-AllSafe : (raws : List Bytes) → AllSafe (normalize_all net raws)
  unfolding normalize_all
  normalize_all-AllSafe [] = tt
  normalize_all-AllSafe (raw ∷ raws) =
      elim (normalize_redirect_uri net raw)
          as (λ o.
            normalize_redirect_uri net raw ≡ o
            → AllSafe
                (elim o [ none ↦ none | some uri ↦ with_first uri (normalize_all net raws) ])) [
                  | none ↦ λ e. tt
                  | some uri ↦ λ e.
                      first-AllSafe uri (normalize_all net raws) (normalize-IsSafe raw uri e)
                        (normalize_all-AllSafe raws)
                ]
        refl
