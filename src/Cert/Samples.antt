-- ===== src/Cert/Samples.antt =====
-- A secret in memory: one that is not there, one that holds data, and one that cannot be read.
use operator_toolkit.Prelude.{
  String, true, false, Option, none, some, ◌≡◌, ◌⊎◌, refl, arith, ok, ◌==◌,
}
use operator_toolkit.Cert.{
  Artifacts, SecretData, CertEnv, certs_to_secret, secret_to_certs, write_answer, write, read_certs,
  read, after_write, create_if_not_exists, valid_cert, keep_or_regenerate, handle_common,
  ensure_cert,
}
use operator_toolkit.Prelude.{List, ◌⊎◌, err}
use operator_toolkit.Cert.{other}
use operator_toolkit.Cert.Stored.{IsSecretStore, ensure_cert-stores, ensure_cert-keeps}
use operator_toolkit.Cert.Replaced.{ensure_cert-replaces_unread, HoldsCerts}

pub data Secret : Type 0 where
  absent : Secret
  present : SecretData → Secret
  unreadable : SecretData → Secret

unfoldable pub get : Secret → Option String × SecretData
get absent = (some "NotFound", none)
get (present d) = (none, d)
get (unreadable d) = (some "Timeout", none)

unfoldable pub create : SecretData → Secret → Option String × Secret
create d absent = (none, present d)
create d (present old) = (some "AlreadyExists", present old)
create d (unreadable old) = (some "AlreadyExists", unreadable old)

unfoldable pub update : SecretData → Secret → Option String × Secret
update d absent = (some "NotFound", absent)
update d (present old) = (none, present d)
update d (unreadable old) = (none, present d)

abbrev pub issued : String → Artifacts
issued name = record { key = "key"; cert = name; ca_key = "ca key"; ca_cert = "ca" }

-- A certificate is valid for the name that it consists of.
abbrev secrets : CertEnv String Secret
secrets = record {
  get = get;
  create = create;
  update = update;
  is_not_found = λ e. e == "NotFound";
  is_already_exists = λ e. e == "AlreadyExists";
  generate = λ name s. (ok (issued name), s);
  set_ca = λ k c s. s;
  verifies = λ certs name. certs.cert == name;
  empty_dns_name = "dns name should not be empty";
}

pub created_is_read :
    (d : SecretData) (s : Secret) → (create d s).0 ≡ none → get (create d s).1 ≡ (none, d)
unfolding get create
created_is_read d absent h = refl
created_is_read d (present old) h = absurd (ground (arith, h))
created_is_read d (unreadable old) h = absurd (ground (arith, h))

pub updated_is_read :
    (d : SecretData) (s : Secret) → (update d s).0 ≡ none → get (update d s).1 ≡ (none, d)
unfolding get update
updated_is_read d absent h = absurd (ground (arith, h))
updated_is_read d (present old) h = refl
updated_is_read d (unreadable old) h = refl

abbrev secrets-IsSecretStore : IsSecretStore secrets
secrets-IsSecretStore = record {
  get-create = created_is_read;
  get-update = updated_is_read;
  get-set_ca = λ k c s. refl;
}

ensure_cert-stores_example :
    ((read secrets (ensure_cert secrets "hook" absent).1).0 ≡ ok (some (issued "hook")))
    × ((true ≡ true)
        ⊎ ((secrets.verifies (issued "hook") "hook" ≡ true)
            × (get (ensure_cert secrets "hook" absent).1 ≡ get absent)))
unfolding ensure_cert handle_common create_if_not_exists read read_certs write write_answer
    after_write keep_or_regenerate valid_cert get create
ensure_cert-stores_example =
    ensure_cert-stores secrets-IsSecretStore "hook" absent (issued "hook") true refl

ensure_cert-keeps_example :
    ((ensure_cert secrets "hook" (present (certs_to_secret (issued "hook")))).0
      ≡ ok (issued "hook", false))
    × (get (ensure_cert secrets "hook" (present (certs_to_secret (issued "hook")))).1
        ≡ get (present (certs_to_secret (issued "hook"))))
unfolding read read_certs secret_to_certs certs_to_secret get
ensure_cert-keeps_example =
    ensure_cert-keeps secrets-IsSecretStore "hook" (present (certs_to_secret (issued "hook")))
      (issued "hook") refl refl refl

-- Valid certificates that a get does not give.
abbrev timed_out : Secret
timed_out = unreadable (certs_to_secret (issued "hook"))

ensure_cert-replaces_unread_example :
    ((certs : Artifacts) × (d : List (String × String)) × ((secrets.generate "hook" timed_out).0
        ≡ ok certs)
      × ((ensure_cert secrets "hook" timed_out).0 ≡ ok (certs, true))
      × (secrets.get (ensure_cert secrets "hook" timed_out).1 ≡ (none, some d))
      × HoldsCerts secrets-IsSecretStore d certs)
    ⊎ ((x : String) × ((ensure_cert secrets "hook" timed_out).0 ≡ err (other x))
        × (((secrets.generate "hook" timed_out).0 ≡ err x)
            ⊎ ((certs : Artifacts) × (d : List (String × String)) × ((secrets.generate "hook"
                    timed_out).0
                  ≡ ok certs)
                × ((secrets.update (some d) (secrets.generate "hook" timed_out).1).0 ≡ some x)
                × HoldsCerts secrets-IsSecretStore d certs)))
unfolding get
ensure_cert-replaces_unread_example =
    ensure_cert-replaces_unread secrets-IsSecretStore "hook" timed_out "Timeout" refl refl refl
