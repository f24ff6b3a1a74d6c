-- ===== src/Oauth/Keys/Tests.antt =====
-- Two processes that come up, the first in a race with a third, on concrete values.
use fund_dashboard.Prelude.{
  ◌≡◌, true, [], ◌∷◌, none, some, refl, arith, Bytes, bytes, beq, second, subst, ◌*◌,
}
use fund_dashboard.Go.Text.{trim_space}
use fund_dashboard.Oauth.State.{SigningKey, Server, success}
use fund_dashboard.Oauth.Store.{load_signing_key, insert_signing_key_if_absent}
use fund_dashboard.Oauth.State.{query}
use fund_dashboard.Oauth.Keys.{
  Key, Keys, parsed, generate_signing_key, row_of, adopt, settle, wait, create, or_create,
  ensure_signing_key,
}
use fund_dashboard.Oauth.Keys.Agreed.{boots_agree}

-- A stand-in: the PEM text of a key is its id.
abbrev key_of : Bytes → Key
key_of x = record { kid = x; private_pem = x; jwk_json = [] }

abbrev keys : Keys
keys = record { parse_private_key_pem = λ x. some (key_of x); generate = λ x. some (key_of x) }

abbrev server : Server
server = record {
  codes = λ k. none;
  screens = λ k. none;
  clients = [];
  tokens = [];
  approvals = [];
  signing_key = none;
  faults = [];
  entropy = some (bytes "ours") ∷ [];
}

-- Another process stores its key first.
abbrev rival : Server → Server
rival w = record w { signing_key = some (row_of keys second (key_of (bytes "theirs"))) }

abbrev quiet : Server → Server
quiet w = w

reads :
    (seed : Bytes) (made : Key)
    → keys.generate seed ≡ some made
    → keys.parse_private_key_pem made.private_pem ≡ some made
reads seed made e =
    let same : key_of seed ≡ made = ground (arith, e) in
    subst (λ (x : Key). keys.parse_private_key_pem x.private_pem ≡ some x) same refl

blank : trim_space [] ≡ []
unfolding trim_space
blank = refl

first_up :
    (ensure_signing_key keys rival second [] true server).0 ≡ success (key_of (bytes "theirs"))
unfolding ensure_signing_key or_create create generate_signing_key parsed adopt settle wait
    load_signing_key insert_signing_key_if_absent query trim_space beq
first_up = refl

second_up :
    (ensure_signing_key keys quiet
      (2 * second)
      []
      true
      (ensure_signing_key keys rival second [] true server).1).0
    ≡ success (key_of (bytes "theirs"))
unfolding ensure_signing_key or_create create generate_signing_key parsed adopt settle wait
    load_signing_key insert_signing_key_if_absent query trim_space beq
second_up = refl

boots_agree_example :
    ((row : SigningKey) × ((ensure_signing_key keys rival second [] true server).1.signing_key
        ≡ some row)
      × (keys.parse_private_key_pem row.private_key_pem ≡ some (key_of (bytes "theirs"))))
    × (key_of (bytes "theirs") ≡ key_of (bytes "theirs"))
boots_agree_example =
    boots_agree keys rival quiet second (2 * second) [] [] server (key_of (bytes "theirs"))
      (key_of (bytes "theirs")) reads blank blank first_up second_up
