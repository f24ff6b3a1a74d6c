-- ===== src/Auth/Password.antt =====
-- internal/auth/password.go, and the password rules of internal/auth/service.go. `IDKey` of
-- golang.org/x/crypto/argon2 is a parameter.
pub mod Hash
pub mod Policy
mod Tests
use fund_dashboard.Prelude.{
  ℕ, zero, suc, ◌+◌, ◌*◌, ◌^◌, ◌≤◌, ◌<◌, ◌≡◌, Bool, true, false, ◌&&◌, ◌||◌, not, List, [], ◌∷◌,
  ◌++◌, Option, none, some, leb, ltb, ◌==◌, if◌then◌else◌, Bytes, bytes, beq, length,
}
use fund_dashboard.Go.Base64.{std, encode, decode}
use fund_dashboard.Go.Text.{split, cut, parse_uint32, scan_version}

abbrev pub argon_time : ℕ
argon_time = 3

abbrev pub argon_memory : ℕ
argon_memory = 64 * 1024

abbrev pub argon_threads : ℕ
argon_threads = 2

abbrev pub argon_key_len : ℕ
argon_key_len = 32

abbrev pub salt_len : ℕ
salt_len = 16

abbrev pub argon_max_time : ℕ
argon_max_time = 10

abbrev pub argon_max_memory : ℕ
argon_max_memory = 2 ^ 20

abbrev pub argon_max_threads : ℕ
argon_max_threads = 8

abbrev pub min_password_len : ℕ
min_password_len = 12

abbrev pub max_password_len : ℕ
max_password_len = 256

-- `argon2.Version`.
abbrev argon_version : ℕ
argon_version = 19

-- `argon2.IDKey(password, salt, time, memory, threads, keyLen)`.
abbrev pub IdKey : Type 0
IdKey = Bytes → Bytes → ℕ → ℕ → ℕ → ℕ → Bytes

-- The results of `decodePHC`.
pub record Phc : Type 0 where
  pub salt : Bytes
  pub key : Bytes
  pub time_factor : ℕ
  pub memory_kib : ℕ
  pub threads : ℕ

-- The variables `m`, `t`, `p` of the parameter loop.
pub record Params : Type 0 where
  pub m : ℕ
  pub t : ℕ
  pub p : ℕ

unfoldable pub read_param : Bytes → Bytes → Params → Option Params
read_param k v s = elim (parse_uint32 v) [
  | none ↦ none
  | some value ↦
      if beq k (bytes "m")
      then some (record s { m = value })
      else if beq k (bytes "t")
      then some (record s { t = value })
      else if beq k (bytes "p")
      then some (record s { p = value })
      else none
]

unfoldable pub read_params : List Bytes → Params → Option Params
read_params [] s = some s
read_params (kv ∷ rest) s = elim (cut b'=' kv) [
  | none ↦ none
  | some (k, v) ↦ elim (read_param k v s) [ none ↦ none | some s' ↦ read_params rest s' ]
]

-- The bounds that are checked before argon2 runs.
unfoldable pub in_bounds : Params → Bool
in_bounds s =
    not (s.m == 0 || s.t == 0 || s.p == 0 || ltb argon_max_threads s.p)
    && not (ltb argon_max_memory s.m || ltb argon_max_time s.t)

unfoldable pub decoded : Bytes → Option Bytes
decoded part = elim (decode std part) [
  | none ↦ none
  | some s ↦ if length s == 0 then none else some s
]

-- The parameters, the salt and the key, once the algorithm and the version have been checked.
unfoldable pub decode_parts : Bytes → Bytes → Bytes → Option Phc
decode_parts params salt key =
    let list = split b',' params in
    if not (length list == 3)
    then none
    else elim (read_params list (record { m = 0; t = 0; p = 0 })) [
      | none ↦ none
      | some s ↦ if not (in_bounds s) then none else elim (decoded salt) [
        | none ↦ none
        | some sa ↦ elim (decoded key) [
          | none ↦ none
          | some ke ↦
              some
                (record { salt = sa; key = ke; time_factor = s.t; memory_kib = s.m; threads = s.p })
        ]
      ]
    ]

unfoldable pub is_version : Option ℕ → Bool
is_version none = false
is_version (some v) = v == argon_version

unfoldable pub check_parts : List Bytes → Option Phc
check_parts (_ ∷ algorithm ∷ version ∷ params ∷ salt ∷ key ∷ []) =
    if not (beq algorithm (bytes "argon2id"))
    then none
    else if not (is_version (scan_version version))
    then none
    else decode_parts params salt key
check_parts _ = none

-- `none` is `ErrMalformedPHC`, the only error.
unfoldable pub decode_phc : Bytes → Option Phc
decode_phc phc = check_parts (split b'$' phc)

-- The constant part of the format string with its numbers.
abbrev pub phc_head : Bytes
phc_head = bytes "$argon2id$v=19$m=65536,t=3,p=2$"

-- `HashPassword`, given the salt that the random source gave.
unfoldable pub hash_password : IdKey → Bytes → Bytes → Bytes
hash_password id_key password salt =
    let key = id_key password salt argon_time argon_memory argon_threads argon_key_len in
    phc_head ++ (encode std salt ++ b'$' ∷ encode std key)

-- `VerifyPassword`; `none` is the error of a malformed hash.
unfoldable pub verify_password : IdKey → Bytes → Bytes → Option Bool
verify_password id_key password phc = elim (decode_phc phc) [
  | none ↦ none
  | some d ↦
      some (beq d.key (id_key password d.salt d.time_factor d.memory_kib d.threads (length d.key)))
]

-- `passwordHasLetterAndDigit`, with its two flags.
unfoldable pub is_letter : ℕ → Bool
is_letter c = leb b'a' c && leb c b'z' || leb b'A' c && leb c b'Z'

unfoldable pub is_digit : ℕ → Bool
is_digit c = leb b'0' c && leb c b'9'

unfoldable pub letter_and_digit : Bool → Bool → Bytes → Bool
letter_and_digit has_letter has_digit [] = false
letter_and_digit has_letter has_digit (c ∷ s) =
    let l = has_letter || is_letter c in
    let d = has_digit || (not (is_letter c) && is_digit c) in
    let rest = letter_and_digit l d s in if l && d then true else rest

-- `validatePassword`: whether the password is accepted; the three refusals are `ErrWeakPassword`.
unfoldable pub validate_password : Bytes → Bool
validate_password password =
    if ltb (length password) min_password_len
    then false
    else if ltb max_password_len (length password)
    then false
    else letter_and_digit false false password
