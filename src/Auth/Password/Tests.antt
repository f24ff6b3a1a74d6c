-- ===== src/Auth/Password/Tests.antt =====
-- internal/auth/password.go on concrete hashes.
use fund_dashboard.Prelude.{
  ℕ, zero, suc, ◌%◌, ◌<◌, ◌≡◌, true, [], ◌∷◌, none, some, arith, refl, Bytes, bytes, beq, length,
  All,
}
use fund_dashboard.Go.Base64.{decode, IsByte}
use fund_dashboard.Go.Text.{split, cut, parse_uint32, scan_version}
use fund_dashboard.Auth.Password.{
  Phc, IdKey, decode_phc, check_parts, decode_parts, decoded, in_bounds, read_params, read_param,
  is_version, hash_password, verify_password, validate_password, is_letter, is_digit,
  letter_and_digit,
}
use fund_dashboard.Auth.Password.Hash.{
  IsBounded, derived, decode_phc-IsBounded, verify_password-hash,
}

-- A stand-in for argon2: as many bytes as are asked for, each the length of the password.
abbrev fill : ℕ → ℕ → Bytes
fill zero b = []
fill (suc n) b = b ∷ fill n b

abbrev id_key : IdKey
id_key password salt t m p n = fill n (length password % 256)

fill-bytes : (n b : ℕ) → b < 256 → (length (fill n b) ≡ n) × All IsByte (fill n b)
fill-bytes zero b h = (refl, tt)
fill-bytes (suc n) b h = ground (arith, fill-bytes n b h)

abbrev salt : Bytes
salt = bytes "0123456789abcdef"

abbrev password : Bytes
password = bytes "horse battery 7"

verify_password-hash_example :
    verify_password id_key password (hash_password id_key password salt)
    ≡ some (beq (derived id_key password salt) (derived id_key password salt))
verify_password-hash_example =
    verify_password-hash id_key password password salt
      (λ w s t m n len. fill-bytes len (length w % 256) (omega arith)) (omega arith) (omega arith)

abbrev stored : Bytes
stored = bytes "$argon2id$v=19$m=1024,t=2,p=1$AAAA$AQID"

abbrev stored_phc : Phc
stored_phc = record {
  salt = 0 ∷ 0 ∷ 0 ∷ [];
  key = 1 ∷ 2 ∷ 3 ∷ [];
  time_factor = 2;
  memory_kib = 1024;
  threads = 1;
}

stored_decodes : decode_phc stored ≡ some stored_phc
unfolding decode_phc check_parts decode_parts decoded in_bounds read_params read_param is_version
    split cut parse_uint32 scan_version decode beq
stored_decodes = refl

-- Nine lanes are refused.
too_many_lanes : decode_phc (bytes "$argon2id$v=19$m=1024,t=2,p=9$AAAA$AQID") ≡ none
unfolding decode_phc check_parts decode_parts decoded in_bounds read_params read_param is_version
    split cut parse_uint32 scan_version decode beq
too_many_lanes = refl

decode_phc-IsBounded_example : IsBounded stored_phc
decode_phc-IsBounded_example = decode_phc-IsBounded stored stored_phc stored_decodes

accepted : validate_password password ≡ true
unfolding validate_password letter_and_digit is_letter is_digit
accepted = refl
