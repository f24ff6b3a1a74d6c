-- ===== src/Auth/Password/Hash.antt =====
-- `HashPassword`, `VerifyPassword` and `decodePHC` of internal/auth/password.go.
use fund_dashboard.Prelude.{
  ℕ, ◌≤◌, ◌<◌, ◌≡◌, ◌≢◌, List, [], ◌∷◌, ◌++◌, some, arith, Bytes, bytes, beq, length, All, ap, ◌∙◌,
}
use fund_dashboard.Go.Base64.{std, encode, IsByte, encode_above, decode-encode}
use fund_dashboard.Go.Text.{split, cut, parse_uint32, scan_version, split_piece, split_last}
use fund_dashboard.Auth.Password.{
  Phc, IdKey, decode_phc, check_parts, decode_parts, decoded, in_bounds, read_params, read_param,
  is_version, hash_password, verify_password, phc_head, argon_time, argon_memory, argon_threads,
  argon_key_len, argon_max_time, argon_max_memory, argon_max_threads,
}

pub record IsBounded (d : Phc) : Type 0 where
  pub time : (0 < d.time_factor) × (d.time_factor ≤ argon_max_time)
  pub memory : (0 < d.memory_kib) × (d.memory_kib ≤ argon_max_memory)
  pub threads : (0 < d.threads) × (d.threads ≤ argon_max_threads)
  pub salt : 0 < length d.salt
  pub key : 0 < length d.key

decoded-pos : (s t : Bytes) → decoded s ≡ some t → 0 < length t
unfolding decoded
decoded-pos s t e = ground arith

decode_parts-IsBounded : (ps s k : Bytes) (d : Phc) → decode_parts ps s k ≡ some d → IsBounded d
unfolding decode_parts in_bounds
decode_parts-IsBounded ps s k d e = ground (arith, decoded-pos s d.salt, decoded-pos k d.key)

check_parts-IsBounded : (ps : List Bytes) (d : Phc) → check_parts ps ≡ some d → IsBounded d
unfolding check_parts
check_parts-IsBounded (a ∷ b ∷ c ∷ d ∷ f ∷ g ∷ []) r e =
    ground (arith, decode_parts-IsBounded d f g r)
check_parts-IsBounded _ r e = ground arith

-- Whatever is stored, a hash that decodes has time, memory and threads within the caps and not
-- zero, and neither its salt nor its key is empty.
pub decode_phc-IsBounded : (phc : Bytes) (d : Phc) → decode_phc phc ≡ some d → IsBounded d
unfolding decode_phc
decode_phc-IsBounded phc d e = check_parts-IsBounded (split b'$' phc) d e

no_dollar : (s : Bytes) → All (λ c. 43 ≤ c) s → All (λ c. c ≢ b'$') s
no_dollar [] h = tt
no_dollar (c ∷ s) h = (omega arith, no_dollar s h.1)

split_hash :
    (salt key : Bytes)
    → All IsByte salt
    → All IsByte key
    → split b'$' (phc_head ++ (encode std salt ++ b'$' ∷ encode std key))
      ≡ []
        ∷ bytes "argon2id"
        ∷ bytes "v=19"
        ∷ bytes "m=65536,t=3,p=2"
        ∷ encode std salt
        ∷ encode std key
        ∷ []
split_hash salt key hs hk =
    split_piece b'$' [] _ tt
    ∙ ap (λ (ps : List Bytes). [] ∷ ps)
        (rw (
          split_piece b'$' (bytes "argon2id") _ (omega arith),
          split_piece b'$' (bytes "v=19") _ (omega arith),
          split_piece b'$' (bytes "m=65536,t=3,p=2") _ (omega arith),
          split_piece b'$' (encode std salt) (encode std key)
              (no_dollar _ (encode_above std salt hs)),
          split_last b'$' (encode std key) (no_dollar _ (encode_above std key hk)),
        ))

decoded-encode : (s : Bytes) → All IsByte s → 0 < length s → decoded (encode std s) ≡ some s
unfolding decoded
decoded-encode s h p = ground (arith, decode-encode std s h)

-- The fixed parameters of a new hash are read back, and pass the bounds.
module _ (salt key : Bytes) (hs : All IsByte salt) (hk : All IsByte key) (ps : 0 < length salt)
    (pk : 0 < length key) where
  abbrev fresh_phc : Phc
  fresh_phc = record {
    salt = salt;
    key = key;
    time_factor = argon_time;
    memory_kib = argon_memory;
    threads = argon_threads;
  }

  decode_parts-encode :
      decode_parts (bytes "m=65536,t=3,p=2") (encode std salt) (encode std key) ≡ some fresh_phc
  unfolding decode_parts in_bounds read_params read_param split cut parse_uint32 beq
  decode_parts-encode = rw (decoded-encode salt hs ps, decoded-encode key hk pk)

  check_parts-encode :
      check_parts (
        []
        ∷ bytes "argon2id"
        ∷ bytes "v=19"
        ∷ bytes "m=65536,t=3,p=2"
        ∷ encode std salt
        ∷ encode std key
        ∷ [])
      ≡ some fresh_phc
  unfolding check_parts is_version scan_version beq
  check_parts-encode = decode_parts-encode

  decode_phc-encode :
      decode_phc (phc_head ++ (encode std salt ++ b'$' ∷ encode std key)) ≡ some fresh_phc
  unfolding decode_phc
  decode_phc-encode = ap check_parts (split_hash salt key hs hk) ∙ check_parts-encode

-- The key of a password and a salt with the program's parameters.
abbrev pub derived : IdKey → Bytes → Bytes → Bytes
derived id_key password salt =
    id_key password salt argon_time argon_memory argon_threads argon_key_len

-- A password verifies against the hash that was made of a password exactly when both have the same
-- argon2 key under the hash's salt, for a salt that is not empty and an argon2 that returns bytes,
-- as many as it is asked for.
pub verify_password-hash :
    (id_key : IdKey) (p q salt : Bytes)
    → ((w s : Bytes) (t m n len : ℕ)
        → (length (id_key w s t m n len) ≡ len) × All IsByte (id_key w s t m n len))
    → All IsByte salt
    → 0 < length salt
    → verify_password id_key p (hash_password id_key q salt)
      ≡ some (beq (derived id_key q salt) (derived id_key p salt))
unfolding verify_password hash_password
verify_password-hash id_key p q salt h hs ps =
    let (n, b) = h q salt argon_time argon_memory argon_threads argon_key_len in
    rw (decode_phc-encode salt (derived id_key q salt) hs b ps (omega arith), verify_password)
      (rw n)
