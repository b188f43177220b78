-- ===== src/Cert/Provision/Injected.antt =====
-- internal/webhook/cert/provisioner.go: what the objects carry after `Provision`.
use Prim.Native.String.{◌++◌ as str_append}
use operator_toolkit.Prelude.{
  String, Bool, true, false, not, ◌||◌, ◌==◌, none, List, [], ◌∷◌, ◌≡◌, map, all, ok, err, refl,
  sym, arith, ap, ◌∙◌, eq_refl, Result-cases, Option-cases, inl, inr,
}
use operator_toolkit.Object.Names.{NamespacedName}
use operator_toolkit.Cert.{Artifacts}
use operator_toolkit.Cert.Provision.{
  WebhookObject, mutating, validating, crd, unsupported, ClientConfig, CertWriter, ProvisionEnv,
  dns_name_from_client_config, with_bundle, inject_loop, inject_all, bundle_ca, provision,
}

abbrev pub object_name : WebhookObject → NamespacedName
object_name (mutating n bs) = n
object_name (validating n bs) = n
object_name (crd n b) = n
object_name (unsupported n) = n

-- Does every webhook of a supported object carry the bundle?
abbrev pub carries : String → WebhookObject → Bool
carries bundle (mutating n bs) = all (λ b. b == bundle) bs
carries bundle (validating n bs) = all (λ b. b == bundle) bs
carries bundle (crd n b) = b == bundle
carries bundle (unsupported n) = false

all-with_bundle :
    (bundle : String) (bs : List String) → all (λ b. b == bundle) (with_bundle bundle bs) ≡ true
all-with_bundle bundle [] = refl
all-with_bundle bundle (b ∷ bs) = ground (arith, eq_refl bundle, all-with_bundle bundle bs)

module _ {E : Type 0} (env : ProvisionEnv E) where
  inject_loop-carries :
      (bundle : String) (objs : List WebhookObject)
      → (inject_loop env bundle objs).0 ≡ none
      → (all (carries bundle) (inject_loop env bundle objs).1 ≡ true)
        × (map object_name (inject_loop env bundle objs).1 ≡ map object_name objs)
  unfolding inject_loop
  inject_loop-carries bundle [] h = (refl, refl)
  inject_loop-carries bundle (mutating n bs ∷ objs) h =
      let (c, e) = inject_loop-carries bundle objs h in
      (ground (arith, c, all-with_bundle bundle bs), ap (λ l. n ∷ l) e)
  inject_loop-carries bundle (validating n bs ∷ objs) h =
      let (c, e) = inject_loop-carries bundle objs h in
      (ground (arith, c, all-with_bundle bundle bs), ap (λ l. n ∷ l) e)
  inject_loop-carries bundle (crd n b ∷ objs) h =
      let (c, e) = inject_loop-carries bundle objs h in
      (ground (arith, c, eq_refl bundle), ap (λ l. n ∷ l) e)
  inject_loop-carries bundle (unsupported n ∷ objs) h = absurd (ground (arith, h))

  module _ {S : Type 0} (cw : CertWriter E S) where
    inject_all-carries :
        (changed : Bool) (config : ClientConfig) (objs : List WebhookObject) (s : S) (answer : Bool)
        → (inject_all env cw changed config objs s).answer ≡ ok answer
        → (answer ≡ changed)
          × ((inject_all env cw changed config objs s).config ≡ config)
          × (all (carries config.ca_bundle) (inject_all env cw changed config objs s).objects
              ≡ true)
          × (map object_name (inject_all env cw changed config objs s).objects
              ≡ map object_name objs)
    unfolding inject_all
    inject_all-carries changed config objs s answer h =
        elim (Option-cases (inject_loop env config.ca_bundle objs).0) [
          | inr (e, bad) ↦ absurd (ground (arith, h, bad))
          | inl good ↦
              let (c, n) = inject_loop-carries config.ca_bundle objs good in
              ground (arith, h, good, c, n)
        ]

    pub bundle_ca_lem :
        (was : Bool) (certs : Artifacts) (config : ClientConfig)
        → ((bundle cert : String) → env.contains (str_append bundle cert) cert ≡ true)
        → ((bundle_ca env was certs config).0
            ≡ (was || not (env.contains config.ca_bundle certs.ca_cert)))
          × (env.contains (bundle_ca env was certs config).1.ca_bundle certs.ca_cert ≡ true)
    unfolding bundle_ca
    bundle_ca_lem was certs config appended =
        ground (arith, appended config.ca_bundle certs.ca_cert)

    pub provision-bad_name :
        (config : ClientConfig) (objs : List WebhookObject) (s : S) (e : E)
        → dns_name_from_client_config env config ≡ err e
        → (provision env cw config objs s).answer ≡ err e
    unfolding provision
    provision-bad_name config objs s e bad = rw (bad, provision)

    pub provision-not_ensured :
        (config : ClientConfig) (objs : List WebhookObject) (s : S) (n : String) (e : E)
        → dns_name_from_client_config env config ≡ ok n
        → (cw.ensure_cert n s).0 ≡ err e
        → (provision env cw config objs s).answer ≡ err e
    unfolding provision
    provision-not_ensured config objs s n e named bad = rw (named, bad, provision)

    pub provision-ensured :
        (config : ClientConfig) (objs : List WebhookObject) (s : S) (n : String) (certs : Artifacts)
        (was : Bool)
        → dns_name_from_client_config env config ≡ ok n
        → (cw.ensure_cert n s).0 ≡ ok (certs, was)
        → provision env cw config objs s
          ≡ inject_all env cw
              (bundle_ca env was certs config).0
              (bundle_ca env was certs config).1
              objs
              (cw.ensure_cert n s).1
    unfolding provision
    provision-ensured config objs s n certs was named ensured = rw (named, ensured, provision)

    -- Where text that is appended to a bundle is contained in it: after a `Provision` without an error
    -- the objects are those that were given, each of their webhooks carries the bundle of the client
    -- config, and that bundle contains the CA of the certificates that were ensured for the config's
    -- name. It says that something changed where the writer said so or the CA was not in the bundle.
    pub provision-injects :
        (config : ClientConfig) (objs : List WebhookObject) (s : S) (changed : Bool)
        → ((bundle cert : String) → env.contains (str_append bundle cert) cert ≡ true)
        → (provision env cw config objs s).answer ≡ ok changed
        → (dns_name : String) × (certs : Artifacts) × (was : Bool) × (dns_name_from_client_config
              env config
            ≡ ok dns_name)
          × ((cw.ensure_cert dns_name s).0 ≡ ok (certs, was))
          × (env.contains (provision env cw config objs s).config.ca_bundle certs.ca_cert ≡ true)
          × (all
                (carries (provision env cw config objs s).config.ca_bundle)
                (provision env cw config objs s).objects
              ≡ true)
          × (map object_name (provision env cw config objs s).objects ≡ map object_name objs)
          × (changed ≡ (was || not (env.contains config.ca_bundle certs.ca_cert)))
    provision-injects config objs s changed appended h =
        elim (Result-cases (dns_name_from_client_config env config)) [
          | inr (e, bad) ↦ absurd (ground (arith, provision-bad_name config objs s e bad, h))
          | inl (dns_name, named) ↦ elim (Result-cases (cw.ensure_cert dns_name s).0) [
            | inr (e, bad) ↦
                absurd (ground (arith, provision-not_ensured config objs s dns_name e named bad, h))
            | inl ((certs, was), ensured) ↦
                let p = bundle_ca env was certs config in
                let s' = (cw.ensure_cert dns_name s).1 in
                let is = provision-ensured config objs s dns_name certs was named ensured in
                let (a, c, carried, names) =
                  inject_all-carries p.0 p.1 objs s' changed (ap (λ r. r.answer) (sym is) ∙ h) in
                let (flag, held) = bundle_ca_lem was certs config appended in
                (
                  dns_name,
                  certs,
                  was,
                  named,
                  ensured,
                  rw is (ap (λ x. env.contains x.ca_bundle certs.ca_cert) c ∙ held),
                  rw is (
                      ap
                        (λ x. all (carries x.ca_bundle) (inject_all env cw p.0 p.1 objs s').objects)
                        c
                      ∙ carried),
                  rw is names,
                  a ∙ flag,
                )
          ]
        ]
