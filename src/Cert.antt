-- ===== src/Cert.antt =====
-- internal/webhook/cert/writer: the writer that keeps the webhook server's certificates in a secret.
pub mod Stored
pub mod Replaced
pub mod Provision
pub mod Manager
pub mod Samples
use operator_toolkit.Prelude.{
  String, Bool, true, false, Option, none, some, List, [], ◌∷◌, if◌then◌else◌, Result, ok, err,
  lookup, ◌==◌,
}

-- `generator.Artifacts`: PEM texts.
pub record Artifacts : Type 0 where
  pub key : String
  pub cert : String
  pub ca_key : String
  pub ca_cert : String

-- `secret.Data`; a nil map is `none`.
abbrev pub SecretData : Type 0
SecretData = Option (List (String × String))

abbrev pub ca_key_name : String
ca_key_name = "ca-key.pem"

abbrev pub ca_cert_name : String
ca_cert_name = "ca-cert.pem"

abbrev pub server_key_name : String
server_key_name = "key.pem"

abbrev pub server_cert_name : String
server_cert_name = "cert.pem"

-- An error, or one that the writer has marked as `notFoundError` or `alreadyExistError`.
pub data WriterError (E : Type 0) : Type 0 where
  not_found : E → WriterError E
  already_exist : E → WriterError E
  other : E → WriterError E

-- The client on the one secret, the certificate generator, and the verification of certificates at
-- the time of the call: parameters. The world `S` holds the generator's CA too.
pub record CertEnv (E S : Type 0) : Type 0 where
  -- The error, and the data that the call has left in the secret.
  pub get : S → Option E × SecretData
  pub create : SecretData → S → Option E × S
  pub update : SecretData → S → Option E × S
  pub is_not_found : E → Bool
  pub is_already_exists : E → Bool
  pub generate : String → S → Result E Artifacts × S
  pub set_ca : (ca_key ca_cert : String) → S → S
  -- `validCert` of certificates that are there.
  pub verifies : Artifacts → (dns_name : String) → Bool
  pub empty_dns_name : E

-- A missing key of a map of bytes reads as nil.
abbrev pub bytes_at : String → List (String × String) → String
bytes_at k data' = elim (lookup k data') [ none ↦ "" | some bytes ↦ bytes ]

unfoldable pub secret_to_certs : SecretData → Option Artifacts
secret_to_certs none = none
secret_to_certs (some data') = some (record {
  key = bytes_at server_key_name data';
  cert = bytes_at server_cert_name data';
  ca_key = bytes_at ca_key_name data';
  ca_cert = bytes_at ca_cert_name data';
})

unfoldable pub certs_to_secret : Artifacts → SecretData
certs_to_secret certs = some (
    (ca_key_name, certs.ca_key)
    ∷ (ca_cert_name, certs.ca_cert)
    ∷ (server_key_name, certs.key)
    ∷ (server_cert_name, certs.cert)
    ∷ [])

module _ {E S : Type 0} (env : CertEnv E S) where
  abbrev Answer : Type 0 → Type 0
  Answer A = Result (WriterError E) A × S

  -- The answer of `write`, once the secret is built and the client was asked to create it.
  unfoldable pub write_answer : Artifacts → Option E → Result (WriterError E) Artifacts
  write_answer certs none = ok certs
  write_answer certs (some e) =
      if env.is_already_exists e then err (already_exist e) else err (other e)

  unfoldable pub write : String → S → Answer Artifacts
  unfolding write_answer certs_to_secret
  write dns_name s =
      let (built, s') = env.generate dns_name s in
      elim built [
        | err e ↦ (err (other e), s')
        | ok certs ↦
            let (failed, s'') = env.create (certs_to_secret certs) s' in
            (write_answer certs failed, s'')
      ]

  unfoldable pub overwrite : String → S → Answer Artifacts
  unfolding certs_to_secret
  overwrite dns_name s =
      let (built, s') = env.generate dns_name s in
      elim built [
        | err e ↦ (err (other e), s')
        | ok certs ↦
            let (failed, s'') = env.update (certs_to_secret certs) s' in
            (elim failed [ none ↦ ok certs | some e ↦ err (other e) ], s'')
      ]

  -- The end of `read`: the certificates of the data, and the CA kept for the next use.
  unfoldable pub read_certs : SecretData → S → Answer (Option Artifacts)
  unfolding secret_to_certs
  read_certs data' s = elim (secret_to_certs data') [
    | none ↦ (ok none, s)
    | some certs ↦ (ok (some certs), env.set_ca certs.ca_key certs.ca_cert s)
  ]

  -- Only a not-found error of the client is an error of `read`.
  unfoldable pub read : S → Answer (Option Artifacts)
  unfolding read_certs
  read s =
      let (failed, data') = env.get s in
      elim failed [
        | none ↦ read_certs data' s
        | some e ↦ if env.is_not_found e then (err (not_found e), s) else read_certs data' s
      ]

  abbrev pub created :
      Result (WriterError E) Artifacts → Result (WriterError E) (Option Artifacts × Bool)
  created (ok certs) = ok (some certs, true)
  created (err e) = err e

  abbrev pub read_as :
      Bool
      → Result (WriterError E) (Option Artifacts)
      → Result (WriterError E) (Option Artifacts × Bool)
  read_as changed (ok certs) = ok (certs, changed)
  read_as changed (err e) = err e

  -- After `write`: where another has created the secret in the meantime, it is read.
  unfoldable pub after_write : Answer Artifacts → Answer (Option Artifacts × Bool)
  unfolding read
  after_write (ok certs, s) = (created (ok certs), s)
  after_write (err (already_exist e), s) = (let (again, s') = read s in (read_as true again, s'))
  after_write (err (not_found e), s) = (err (not_found e), s)
  after_write (err (other e), s) = (err (other e), s)

  -- The certificates, and whether they were created; the flag beside an error is read by no caller.
  unfoldable pub create_if_not_exists : String → S → Answer (Option Artifacts × Bool)
  unfolding read write after_write
  create_if_not_exists dns_name s =
      let (found, s') = read s in
      elim found [
        | ok certs ↦ (ok (certs, false), s')
        | err (not_found e) ↦ after_write (write dns_name s')
        | err (already_exist e) ↦ (err (already_exist e), s')
        | err (other e) ↦ (err (other e), s')
      ]

  unfoldable pub valid_cert : Option Artifacts → String → Bool
  valid_cert none dns_name = false
  valid_cert (some certs) dns_name = env.verifies certs dns_name

  -- The certificate is replaced: what `handleCommon` answers then.
  unfoldable pub regenerate : String → S → Answer (Artifacts × Bool)
  unfolding overwrite
  regenerate dns_name s =
      let (replaced, s') = overwrite dns_name s in
      (elim replaced [ ok certs ↦ ok (certs, true) | err e ↦ err e ], s')

  -- "Recreate the cert if it's invalid."
  unfoldable pub keep_or_regenerate :
      Option Artifacts → Bool → String → S → Answer (Artifacts × Bool)
  unfolding regenerate valid_cert
  keep_or_regenerate none changed dns_name s = regenerate dns_name s
  keep_or_regenerate (some certs) changed dns_name s =
      if valid_cert (some certs) dns_name then (ok (certs, changed), s) else regenerate dns_name s

  unfoldable pub handle_common : String → S → Answer (Artifacts × Bool)
  unfolding create_if_not_exists keep_or_regenerate
  handle_common dns_name s =
      if dns_name == ""
      then (err (other env.empty_dns_name), s)
      else (let (there, s') = create_if_not_exists dns_name s in
          elim there [
            | err e ↦ (err e, s')
            | ok (certs, changed) ↦ keep_or_regenerate certs changed dns_name s'
          ])

  -- `EnsureCert` of the secret writer.
  unfoldable pub ensure_cert : String → S → Answer (Artifacts × Bool)
  unfolding handle_common
  ensure_cert dns_name s = handle_common dns_name s
