-- ===== src/Cert/Manager/Host.antt =====
-- internal/webhook/cert/writer/secret.go and webhook/cert/manager.go together: the manager over the
-- secret writer.
pub mod Samples
use operator_toolkit.Prelude.{
  String, Bool, true, false, not, ◌||◌, ◌==◌, Option, none, some, List, [], ◌∷◌, ◌≡◌, ◌⊎◌,
  if◌then◌else◌, Result, ok, err, refl, sym, arith, ap, ◌∙◌, some_inv, Result-cases, Option-cases,
  Bool-cases, inl, inr,
}
use operator_toolkit.Cert.{
  Artifacts, SecretData, WriterError, not_found, already_exist, other, CertEnv, server_cert_name,
  server_key_name, secret_to_certs, read_certs, read, ensure_cert,
}
use operator_toolkit.Cert.Stored.{IsSecretStore, read_certs_lem, ensure_cert-stores}
use operator_toolkit.Cert.Provision.{
  WebhookObject, ClientConfig, CertWriter, ProvisionEnv, Provisioned, dns_name_from_client_config,
  bundle_ca, inject_loop, inject_all, provision,
}
use operator_toolkit.Cert.Provision.Injected.{
  provision-bad_name, provision-not_ensured, provision-ensured,
}
use operator_toolkit.Cert.Manager.{
  Options, ManagerEnv, Gathered, data_bytes, gather, get_client_config, batch_update,
  update_configs, refresh_cert, cert_exists, run,
}
use operator_toolkit.Cert.Manager.Refreshed.{update_configs_lem}
use operator_toolkit.Cert.Manager.Disk.{IsDisk, cert_path, key_path, run-Holds}

-- The error that a marked error is.
abbrev pub cause : {E A : Type 0} → Result (WriterError E) A → Result E A
cause (ok a) = ok a
cause (err (not_found e)) = err e
cause (err (already_exist e)) = err e
cause (err (other e)) = err e

-- `secretCertWriter` as a `CertWriter`; its `Inject` does nothing yet.
abbrev pub secret_cert_writer : {E S : Type 0} → CertEnv E S → CertWriter E S
secret_cert_writer env = record {
  ensure_cert =
      λ dns_name s. (cause (ensure_cert env dns_name s).0, (ensure_cert env dns_name s).1);
  inject = λ objs s. (none, s);
}

cause-ok : {E A : Type 0} (r : Result (WriterError E) A) (a : A) → cause r ≡ ok a → r ≡ ok a
cause-ok (ok b) a h = ground (arith, h)
cause-ok (err (not_found e)) a h = absurd (ground (arith, h))
cause-ok (err (already_exist e)) a h = absurd (ground (arith, h))
cause-ok (err (other e)) a h = absurd (ground (arith, h))

data_bytes-certs :
    (d : SecretData) (certs : Artifacts)
    → secret_to_certs d ≡ some certs
    → (data_bytes server_cert_name d ≡ certs.cert) × (data_bytes server_key_name d ≡ certs.key)
unfolding secret_to_certs
data_bytes-certs none certs h = absurd (ground (arith, h))
data_bytes-certs (some entries) certs h =
    let is = some_inv h in (ap (λ c. c.cert) is, ap (λ c. c.key) is)

-- The client of the manager is that of the writer, and an update of a webhook's configuration leaves
-- the secret as it is.
pub record IsSameClient {E S : Type 0} (cenv : CertEnv E S) (env : ManagerEnv E S) : Type 0 where
  pub same_secret : (s : S) → env.get_secret s ≡ cenv.get s
  pub get-update_object : (obj : WebhookObject) (s : S) → cenv.get (env.update obj s).1 ≡ cenv.get s

module _ {E S : Type 0} {cenv : CertEnv E S} (store : IsSecretStore cenv) {env : ManagerEnv E S}
    (disk : IsDisk env) (same : IsSameClient cenv env) (m : Options) (penv : ProvisionEnv E) where
  abbrev cw : CertWriter E S
  cw = secret_cert_writer cenv

  read-data :
      (s : S) (certs : Artifacts)
      → (read cenv s).0 ≡ ok (some certs)
      → secret_to_certs (cenv.get s).1 ≡ some certs
  unfolding read
  read-data s certs h = ground (arith, h, read_certs_lem store (cenv.get s).1 s)

  batch_update-get :
      (objs : List WebhookObject) (s : S) → cenv.get (batch_update env m objs s).1 ≡ cenv.get s
  unfolding batch_update
  batch_update-get [] s = refl
  batch_update-get (obj ∷ objs) s = elim (Option-cases (env.update obj s).0) [
    | inl good ↦
        rw (good, batch_update)
          (batch_update-get objs (env.update obj s).1 ∙ same.get-update_object obj s)
    | inr (e, bad) ↦ rw (bad, batch_update) (same.get-update_object obj s)
  ]

  inject_all-world :
      (changed : Bool) (config : ClientConfig) (objs : List WebhookObject) (s : S)
      → (inject_all penv cw changed config objs s).world ≡ s
  unfolding inject_all
  inject_all-world changed config objs s =
      elim (Option-cases (inject_loop penv config.ca_bundle objs).0) [
        | inl good ↦ rw (good, inject_all) refl
        | inr (e, bad) ↦ rw (bad, inject_all) refl
      ]

  inject_all-answer :
      (changed answer : Bool) (config : ClientConfig) (objs : List WebhookObject) (s : S)
      → (inject_all penv cw changed config objs s).answer ≡ ok answer
      → answer ≡ changed
  unfolding inject_all
  inject_all-answer changed answer config objs s h =
      elim (Option-cases (inject_loop penv config.ca_bundle objs).0) [
        | inl good ↦ ground (arith, h, good)
        | inr (e, bad) ↦ absurd (ground (arith, h, bad))
      ]

  bundle_ca-changed :
      (certs : Artifacts) (config : ClientConfig) → (bundle_ca penv true certs config).0 ≡ true
  unfolding bundle_ca
  bundle_ca-changed certs config = ground arith

  -- The world after `Provision` is that after `EnsureCert`.
  provision-world :
      (config : ClientConfig) (objs : List WebhookObject) (s : S) (changed : Bool)
      → (provision penv cw config objs s).answer ≡ ok changed
      → (dns_name : String) × (certs : Artifacts) × (was : Bool) × ((ensure_cert cenv dns_name s).0
          ≡ ok (certs, was))
        × ((provision penv cw config objs s).world ≡ (ensure_cert cenv dns_name s).1)
        × (was ≡ true → changed ≡ true)
  provision-world config objs s changed h =
      elim (Result-cases (dns_name_from_client_config penv config)) [
        | inr (e, bad) ↦ absurd (ground (arith, provision-bad_name penv cw config objs s e bad, h))
        | inl (n, named) ↦ elim (Result-cases (cw.ensure_cert n s).0) [
          | inr (e, bad) ↦
              absurd (ground (arith, provision-not_ensured penv cw config objs s n e named bad, h))
          | inl ((certs, was), ensured) ↦
              let p = bundle_ca penv was certs config in
              let is = provision-ensured penv cw config objs s n certs was named ensured in
              (
                n,
                certs,
                was,
                cause-ok (ensure_cert cenv n s).0 (certs, was) ensured,
                ap (λ r. r.world) is ∙ inject_all-world p.0 p.1 objs (ensure_cert cenv n s).1,
                λ new.
                    inject_all-answer p.0 changed p.1 objs (ensure_cert cenv n s).1
                      (ap (λ r. r.answer) (sym is) ∙ h)
                    ∙ ap (λ b. (bundle_ca penv b certs config).0) new
                    ∙ bundle_ca-changed certs config,
              )
        ]
      ]

  -- What a refresh leaves in the secret is what `EnsureCert` left there.
  refresh_cert-get :
      (s : S) (changed : Bool)
      → (refresh_cert env m penv cw s).0 ≡ ok changed
      → (dns_name : String) × (certs : Artifacts) × (was : Bool) × ((ensure_cert cenv dns_name s).0
          ≡ ok (certs, was))
        × (cenv.get (refresh_cert env m penv cw s).1 ≡ cenv.get (ensure_cert cenv dns_name s).1)
        × (was ≡ true → changed ≡ true)
  unfolding refresh_cert
  refresh_cert-get s changed h = elim (Result-cases (get_client_config env m)) [
    | inr (e, bad) ↦ absurd (ground (arith, h, bad))
    | inl (config, made) ↦ elim (Result-cases (gather env m s)) [
      | inr (e, bad) ↦ absurd (ground (arith, h, made, bad))
      | inl (g, got) ↦
          let with : ClientConfig = record config { ca_bundle = g.ca_bundle } in
          let p = provision penv cw with g.wh_configs s in
          let is : refresh_cert env m penv cw s ≡ update_configs env m p =
            rw (made, got, refresh_cert) in
          let (answer, updated) = update_configs_lem env m p changed (ap (λ r. r.0) (sym is) ∙ h) in
          let (n, certs, was, ensured, world, new) =
            provision-world with g.wh_configs s changed answer in
          (
            n,
            certs,
            was,
            ensured,
            ap (λ r. cenv.get r.1) is
                ∙ ap (λ r. cenv.get r.1) (sym updated)
                ∙ batch_update-get p.objects p.world
                ∙ ap cenv.get world,
            new,
          )
    ]
  ]

  -- The manager over the secret writer, with one client for both and updates of configurations that
  -- leave the secret alone: a run without an error has ensured certificates, and where the host lacked
  -- one of the two files, or the certificates were created or replaced, it leaves on the host the
  -- certificate and the key that `EnsureCert` returned.
  pub run-serves :
      (s : S)
      → (cert_path disk m == key_path disk m) ≡ false
      → (run env m penv cw s).0 ≡ none
      → (dns_name : String) × (certs : Artifacts) × (was : Bool) × ((ensure_cert cenv dns_name s).0
          ≡ ok (certs, was))
        × ((cert_exists env m s ≡ false) ⊎ (was ≡ true)
            → (disk.file (cert_path disk m) (run env m penv cw s).1 ≡ some certs.cert)
              × (disk.file (key_path disk m) (run env m penv cw s).1 ≡ some certs.key))
  run-serves s apart h =
      let (s', changed, refreshed, end) = run-Holds disk m penv cw s apart h in
      let (n, certs, was, ensured, stored, new) =
        refresh_cert-get s changed (ap (λ r. r.0) refreshed) in
      let t = (ensure_cert cenv n s).1 in
      let (there, _) = ensure_cert-stores store n s certs was ensured in
      let secret_is : env.get_secret s' ≡ cenv.get t =
        same.same_secret s' ∙ ap (λ r. cenv.get r.1) (sym refreshed) ∙ stored in
      let (cert_is, key_is) = data_bytes-certs (cenv.get t).1 certs (read-data t certs there) in
      (
        n,
        certs,
        was,
        ensured,
        λ due. elim end [
          | inl (kept, exists, _) ↦ absurd (elim due [
            | inl missing ↦ ground (arith, exists, missing)
            | inr replaced ↦ ground (arith, kept, new replaced)
          ])
          | inr ((cert_there, key_there), _) ↦ (
            cert_there
                ∙ ap (λ d. some (data_bytes server_cert_name d.1)) secret_is
                ∙ ap some cert_is,
            key_there ∙ ap (λ d. some (data_bytes server_key_name d.1)) secret_is ∙ ap some key_is,
          )
        ],
      )
