-- ===== src/Cert/Provision.antt =====
-- internal/webhook/cert/provisioner.go: the certificates are provisioned, and their CA is injected
-- into the configurations of the webhooks.
pub mod Injected
pub mod Samples
use Prim.Native.String.{◌++◌ as str_append}
use operator_toolkit.Prelude.{
  String, Bool, true, false, Option, none, some, List, [], ◌∷◌, map, if◌then◌else◌, Result, ok, err,
  ◌>>=◌,
}
use operator_toolkit.Object.Names.{NamespacedName}
use operator_toolkit.Cert.{Artifacts}

-- The objects that a client config is injected into, with the CA bundle of each of their webhooks. A
-- CRD is one whose conversion has a client config: `injectForCRD` panics on any other, and the manager,
-- the only caller of `Provision`, has refused those before (`gather_crds`).
pub data WebhookObject : Type 0 where
  mutating : NamespacedName → (ca_bundles : List String) → WebhookObject
  validating : NamespacedName → (ca_bundles : List String) → WebhookObject
  crd : NamespacedName → (ca_bundle : String) → WebhookObject
  unsupported : NamespacedName → WebhookObject

-- `WebhookClientConfig`, its service a namespace and a name.
pub record ClientConfig : Type 0 where
  pub service : Option (String × String)
  pub url : Option String
  pub ca_bundle : String

-- `writer.CertWriter`: the interface between the provisioner and the writer.
pub record CertWriter (E S : Type 0) : Type 0 where
  pub ensure_cert : String → S → Result E (Artifacts × Bool) × S
  pub inject : List WebhookObject → S → Option E × S

-- The functions of net and bytes, and the errors that the provisioner makes.
pub record ProvisionEnv (E : Type 0) : Type 0 where
  pub url_host : String → Result E String
  pub split_host_port : String → Result E String
  pub contains : (bundle cert : String) → Bool
  pub both_set : E
  pub none_set : E
  pub not_supported : NamespacedName → E

unfoldable pub service_to_common_name : (service_namespace service_name : String) → String
service_to_common_name service_namespace service_name =
    str_append service_name (str_append "." (str_append service_namespace ".svc"))

-- Each webhook of the configuration gets the bundle.
abbrev pub with_bundle : String → List String → List String
with_bundle bundle ca_bundles = map (λ _. bundle) ca_bundles

module _ {E : Type 0} (env : ProvisionEnv E) where
  -- From the URL's host; where it has no port it is the name as it is.
  unfoldable pub dns_name_from_url : String → Result E String
  dns_name_from_url url = do
    host ← env.url_host url
    elim (env.split_host_port host) [ ok name ↦ ok name | err e ↦ ok host ]

  unfoldable pub dns_name_of : Option (String × String) → Option String → Result E String
  unfolding dns_name_from_url service_to_common_name
  dns_name_of (some service) (some url) = err env.both_set
  dns_name_of none none = err env.none_set
  dns_name_of (some (namespace, name)) none = ok (service_to_common_name namespace name)
  dns_name_of none (some url) = dns_name_from_url url

  unfoldable pub dns_name_from_client_config : ClientConfig → Result E String
  unfolding dns_name_of
  dns_name_from_client_config config = dns_name_of config.service config.url

  -- The loop of `inject`: the objects after it, and the error at the first that is not supported. A CRD
  -- without a client config, on which it would panic, is no `WebhookObject`.
  unfoldable pub inject_loop : String → List WebhookObject → Option E × List WebhookObject
  inject_loop bundle [] = (none, [])
  inject_loop bundle (mutating n bs ∷ objs) =
      let (e, objs') = inject_loop bundle objs in (e, mutating n (with_bundle bundle bs) ∷ objs')
  inject_loop bundle (validating n bs ∷ objs) =
      let (e, objs') = inject_loop bundle objs in (e, validating n (with_bundle bundle bs) ∷ objs')
  inject_loop bundle (crd n b ∷ objs) =
      let (e, objs') = inject_loop bundle objs in (e, crd n bundle ∷ objs')
  inject_loop bundle (unsupported n ∷ objs) = (some (env.not_supported n), unsupported n ∷ objs)

  -- "Ensure the CA bundle in the webhook configuration has the signing CA."
  unfoldable pub bundle_ca : Bool → Artifacts → ClientConfig → Bool × ClientConfig
  bundle_ca changed certs config =
      if env.contains config.ca_bundle certs.ca_cert
      then (changed, config)
      else (true, record config { ca_bundle = str_append config.ca_bundle certs.ca_cert })

-- What a call of `Provision` leaves: its answer, the two arguments that it changes, and the world.
pub record Provisioned (E S : Type 0) : Type 0 where
  pub answer : Result E Bool
  pub config : ClientConfig
  pub objects : List WebhookObject
  pub world : S

module _ {E S : Type 0} (env : ProvisionEnv E) (cw : CertWriter E S) where
  -- `cp.inject`, and with it the end of `Provision`.
  unfoldable pub inject_all : Bool → ClientConfig → List WebhookObject → S → Provisioned E S
  unfolding inject_loop
  inject_all changed config objs s =
      let (failed, objs') = inject_loop env config.ca_bundle objs in
      elim failed [
        | some e ↦ record { answer = err e; config = config; objects = objs'; world = s }
        | none ↦
            let (inject_failed, s') = cw.inject objs' s in
            record {
              answer = elim inject_failed [ none ↦ ok changed | some e ↦ err e ];
              config = config;
              objects = objs';
              world = s';
            }
      ]

  unfoldable pub provision : ClientConfig → List WebhookObject → S → Provisioned E S
  unfolding dns_name_from_client_config bundle_ca inject_all
  provision config objs s = elim (dns_name_from_client_config env config) [
    | err e ↦ record { answer = err e; config = config; objects = objs; world = s }
    | ok dns_name ↦
        let (ensured, s') = cw.ensure_cert dns_name s in
        elim ensured [
          | err e ↦ record { answer = err e; config = config; objects = objs; world = s' }
          | ok (certs, changed) ↦
              let (changed', config') = bundle_ca env changed certs config in
              inject_all changed' config' objs s'
        ]
  ]
