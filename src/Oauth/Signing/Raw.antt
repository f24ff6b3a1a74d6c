-- ===== src/Oauth/Signing/Raw.antt =====
-- The raw form of a signature, 64 bytes: `asn1ToRawES256` of internal/oauth/jwt.go.
use fund_dashboard.Prelude.{
  length-append, take-append, drop-append, ℕ, ◌-◌, ◌≤◌, ◌<◌, ◌≡◌, [], ◌∷◌, ◌++◌, Option, none, some,
  refl, arith, Bytes, length, zero, suc, All, sym, ap, ◌∙◌, take, drop, subst,
}
use fund_dashboard.Go.Base64.{IsByte}
use fund_dashboard.Oauth.Signing.{
  Signer, set_bytes, raw_to_asn1_es256, zeros, padded_32, append_both, raw_of, asn1_to_raw_es256,
  raw_signature, sign_es256,
}

pub append-All : (P : ℕ → Type 0) (x y : Bytes) → All P x → All P y → All P (x ++ y)
append-All P [] y h k = k
append-All P (c ∷ x) y h k = (h.0, append-All P x y h.1 k)

length-zeros : (n : ℕ) → length (zeros n) ≡ n
unfolding zeros
length-zeros zero = refl
length-zeros (suc n) = ap (λ (x : ℕ). suc x) (length-zeros n)

zeros-All : (n : ℕ) → All IsByte (zeros n)
unfolding zeros
zeros-All zero = tt
zeros-All (suc n) = (omega arith, zeros-All n)

-- A positive number below 2 ^ 256: at most 32 bytes, the first of them not zero.
abbrev pub IsPositive : Bytes → Type 0
IsPositive [] = ⊥
IsPositive (b ∷ bs) = 0 < b

unfoldable pub IsCoordinate : Bytes → Type 0
IsCoordinate number = IsPositive number × All IsByte number × (length number ≤ 32)

set_bytes-zeros : (n : ℕ) (x : Bytes) → set_bytes (zeros n ++ x) ≡ set_bytes x
unfolding set_bytes zeros
set_bytes-zeros zero x = refl
set_bytes-zeros (suc n) x = set_bytes-zeros n x

set_bytes_positive : (x : Bytes) → IsPositive x → set_bytes x ≡ x
unfolding set_bytes
set_bytes_positive [] h = absurd h
set_bytes_positive (b ∷ x) h = ground (arith, h)

-- A padded number has 32 bytes and is read as it was.
padded_lem :
    (number out : Bytes)
    → IsCoordinate number
    → padded_32 number ≡ some out
    → (length out ≡ 32) × All IsByte out × (set_bytes out ≡ number)
unfolding padded_32 IsCoordinate
padded_lem number out (positive, bytes, short) e =
    let n = 32 - length number in
    let same : zeros n ++ number ≡ out = ground (arith, e, short) in
    subst (λ (x : Bytes). (length x ≡ 32) × All IsByte x × (set_bytes x ≡ number)) same
      (
        omega (arith, length-append (zeros n) number, length-zeros n, short),
        append-All IsByte (zeros n) number (zeros-All n) bytes,
        set_bytes-zeros n number ∙ set_bytes_positive number positive,
      )

both_read :
    (r s a b : Bytes)
    → (length a ≡ 32) × All IsByte a × (set_bytes a ≡ r)
    → (length b ≡ 32) × All IsByte b × (set_bytes b ≡ s)
    → All IsByte (a ++ b)
      × (length (a ++ b) ≡ 64)
      × (set_bytes (take 32 (a ++ b)) ≡ r)
      × (set_bytes (drop 32 (a ++ b)) ≡ s)
both_read r s a b (la, ba, ra) (lb, bb, rb) = (
  append-All IsByte a b ba bb,
  omega (arith, length-append a b, la, lb),
  ap (λ (n : ℕ). set_bytes (take n (a ++ b))) (sym la) ∙ ap set_bytes (take-append a b) ∙ ra,
  ap (λ (n : ℕ). set_bytes (drop n (a ++ b))) (sym la) ∙ ap set_bytes (drop-append a b) ∙ rb,
)

abbrev IsRead : Bytes → Bytes → Bytes → Type 0
IsRead r s raw =
    All IsByte raw
    × (length raw ≡ 64)
    × (set_bytes (take 32 raw) ≡ r)
    × (set_bytes (drop 32 raw) ≡ s)

append_both-IsRead :
    (r s raw : Bytes) (o o' : Option Bytes)
    → IsCoordinate r
    → IsCoordinate s
    → padded_32 r ≡ o
    → padded_32 s ≡ o'
    → append_both o o' ≡ some raw
    → IsRead r s raw
unfolding append_both
append_both-IsRead r s raw none o' hr hs e e' h = absurd (ground (arith, h))
append_both-IsRead r s raw (some a) none hr hs e e' h = absurd (ground (arith, h))
append_both-IsRead r s raw (some a) (some b) hr hs e e' h =
    let same : a ++ b ≡ raw = ground (arith, h) in
    subst (IsRead r s) same (both_read r s a b (padded_lem r a hr e) (padded_lem s b hs e'))

-- The raw form is 64 bytes from which the two numbers are read back.
raw_of-IsRead :
    (o : Option (Bytes × Bytes)) (raw : Bytes)
    → ((r s : Bytes) → o ≡ some (r, s) → IsCoordinate r × IsCoordinate s)
    → raw_of o ≡ some raw
    → (r : Bytes) × (s : Bytes) × (o ≡ some (r, s)) × IsRead r s raw
unfolding raw_of
raw_of-IsRead none raw h e = absurd (ground (arith, e))
raw_of-IsRead (some (r, s)) raw h e =
    let (hr, hs) = h r s refl in
    (r, s, refl, append_both-IsRead r s raw (padded_32 r) (padded_32 s) hr hs refl refl e)

module _ (c : Signer) (digest seed raw : Bytes) where
  -- The numbers of every signature of the digest are coordinates.
  abbrev pub AreCoordinates : Type 0
  AreCoordinates =
      (der r s : Bytes)
      → c.sign_asn1 digest seed ≡ some der
      → c.read_asn1 der ≡ some (r, s)
      → IsCoordinate r × IsCoordinate s

  abbrev pub IsReadBack : Type 0
  IsReadBack =
      (der : Bytes) × (r : Bytes) × (s : Bytes) × (c.sign_asn1 digest seed ≡ some der)
      × (c.read_asn1 der ≡ some (r, s))
      × All IsByte raw
      × (raw_to_asn1_es256 raw ≡ some (r, s))

  signed-read :
      (o : Option Bytes)
      → c.sign_asn1 digest seed ≡ o
      → AreCoordinates
      → raw_signature c o ≡ some raw
      → IsReadBack
  unfolding raw_signature asn1_to_raw_es256 raw_to_asn1_es256
  signed-read none q h f = absurd (ground (arith, f))
  signed-read (some der) q h f =
      let (r, s, found, (bytes, size, first, second)) =
        raw_of-IsRead (c.read_asn1 der) raw (λ r s read. h der r s q read) f in
      (
        der,
        r,
        s,
        q,
        found,
        bytes,
        ground (arith, size)
            ∙ ap (λ (x : Bytes × Bytes). some x)
                (ap (λ (x : Bytes). (x, set_bytes (drop 32 raw))) first
                  ∙ ap (λ (x : Bytes). (r, x)) second),
      )

  -- A raw signature is read back as the numbers of a signature in DER that ECDSA made.
  pub sign_es256-read : AreCoordinates → sign_es256 c digest seed ≡ some raw → IsReadBack
  unfolding sign_es256
  sign_es256-read h e = signed-read (c.sign_asn1 digest seed) refl h e
