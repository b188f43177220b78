-- ===== src/Cert/Replaced.antt =====
-- internal/webhook/cert/writer/secret.go: what `EnsureCert` makes of a secret that it cannot read.
use operator_toolkit.Prelude.{
  String, true, false, none, some, List, [], ◌∷◌, lookup, ◌≡◌, ◌⊎◌, inl, inr, ok, err, ◌==◌, refl,
  arith, Result-cases, Option-cases,
}
use operator_toolkit.Cert.{
  Artifacts, other, CertEnv, secret_to_certs, certs_to_secret, overwrite, read_certs, read,
  create_if_not_exists, regenerate, keep_or_regenerate, ensure_cert,
}
use operator_toolkit.Cert.Stored.{IsSecretStore}

module _ {E S : Type 0} {env : CertEnv E S} (l : IsSecretStore env) where
  ensure_cert-unread :
      (dns_name : String) (s : S) (e : E)
      → (dns_name == "") ≡ false
      → env.get s ≡ (some e, none)
      → env.is_not_found e ≡ false
      → ensure_cert env dns_name s ≡ regenerate env dns_name s
  unfolding ensure_cert create_if_not_exists keep_or_regenerate read read_certs secret_to_certs
  ensure_cert-unread dns_name s e named failed other_reason =
      ground (arith, named, failed, other_reason)

  -- The data holds the certificates under the writer's names.
  abbrev pub HoldsCerts : List (String × String) → Artifacts → Type 0
  HoldsCerts d certs =
      (lookup "cert.pem" d ≡ some certs.cert)
      × (lookup "key.pem" d ≡ some certs.key)
      × (lookup "ca-cert.pem" d ≡ some certs.ca_cert)
      × (lookup "ca-key.pem" d ≡ some certs.ca_key)

  regenerate-replaces :
      (dns_name : String) (s : S)
      → ((certs : Artifacts) × (d : List (String × String)) × ((env.generate dns_name s).0
            ≡ ok certs)
          × ((regenerate env dns_name s).0 ≡ ok (certs, true))
          × (env.get (regenerate env dns_name s).1 ≡ (none, some d))
          × HoldsCerts d certs)
        ⊎ ((x : E) × ((regenerate env dns_name s).0 ≡ err (other x))
            × (((env.generate dns_name s).0 ≡ err x)
                ⊎ ((certs : Artifacts) × (d : List (String × String)) × ((env.generate dns_name s).0
                      ≡ ok certs)
                    × ((env.update (some d) (env.generate dns_name s).1).0 ≡ some x)
                    × HoldsCerts d certs)))
  unfolding regenerate overwrite certs_to_secret
  regenerate-replaces dns_name s = elim (Result-cases (env.generate dns_name s).0) [
    | inr (x, bad) ↦ inr (x, rw (bad, regenerate, overwrite) refl, inl bad)
    | inl (certs, made) ↦
        let d : List (String × String) =
          ("ca-key.pem", certs.ca_key)
          ∷ ("ca-cert.pem", certs.ca_cert)
          ∷ ("key.pem", certs.key)
          ∷ ("cert.pem", certs.cert)
          ∷ [] in
        let held : HoldsCerts d certs = (refl, refl, refl, refl) in
        let t = (env.generate dns_name s).1 in
        elim (Option-cases (env.update (some d) t).0) [
          | inl good ↦ inl (
            certs,
            d,
            made,
            ground (arith, made, good),
            rw (made, regenerate, overwrite) (l.get-update (some d) t good),
            held,
          )
          | inr (x, bad) ↦ inr (x, ground (arith, made, bad), inr (certs, d, made, bad, held))
        ]
  ]

  -- Over a client with the laws of `IsSecretStore`, for a name that is not empty, and where the client's get of the secret fails for another reason
  -- than that it is not there, and leaves no data: `EnsureCert` generates new certificates. It either
  -- returns these and says that something changed, and a get of the secret then gives data that holds
  -- them, whatever the secret held before; or it returns an error, that of the generator or that of the
  -- client's update with data that holds the new certificates.
  pub ensure_cert-replaces_unread :
      (dns_name : String) (s : S) (e : E)
      → (dns_name == "") ≡ false
      → env.get s ≡ (some e, none)
      → env.is_not_found e ≡ false
      → ((certs : Artifacts) × (d : List (String × String)) × ((env.generate dns_name s).0
            ≡ ok certs)
          × ((ensure_cert env dns_name s).0 ≡ ok (certs, true))
          × (env.get (ensure_cert env dns_name s).1 ≡ (none, some d))
          × HoldsCerts d certs)
        ⊎ ((x : E) × ((ensure_cert env dns_name s).0 ≡ err (other x))
            × (((env.generate dns_name s).0 ≡ err x)
                ⊎ ((certs : Artifacts) × (d : List (String × String)) × ((env.generate dns_name s).0
                      ≡ ok certs)
                    × ((env.update (some d) (env.generate dns_name s).1).0 ≡ some x)
                    × HoldsCerts d certs)))
  ensure_cert-replaces_unread dns_name s e named failed other_reason =
      rw (ensure_cert-unread dns_name s e named failed other_reason)
        (regenerate-replaces dns_name s)
