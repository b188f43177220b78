-- ===== src/Cert/Provision/Samples.antt =====
-- A writer that ensures fixed certificates, and a check of bundles by their lengths.
use Prim.Native.Nat.{ℕ, ◌+◌}
use Prim.Native.String.{◌++◌ as str_append, len}
use text.Mathlib.TextPositions.{len-append}
use operator_toolkit.Prelude.{
  String, Bool, true, false, not, ◌||◌, none, some, List, [], ◌∷◌, ◌≡◌, map, all, leb, refl, arith,
  ok, err,
}
use operator_toolkit.Object.Names.{NamespacedName}
use operator_toolkit.Cert.{Artifacts}
use operator_toolkit.Cert.Provision.{
  WebhookObject, mutating, crd, ClientConfig, CertWriter, ProvisionEnv, service_to_common_name,
  dns_name_of, dns_name_from_client_config, inject_loop, bundle_ca, inject_all, provision,
}
use operator_toolkit.Cert.Provision.Injected.{carries, object_name, provision-injects}

abbrev certs : Artifacts
certs = record { key = "key"; cert = "cert"; ca_key = "ca key"; ca_cert = "CA" }

-- The world counts the calls of the writer.
abbrev pub fixed : CertWriter String ℕ
fixed = record { ensure_cert = λ name n. (ok (certs, false), n + 1); inject = λ objs n. (none, n) }

-- A stand-in for `bytes.Contains` that compares the lengths.
abbrev pub by_length : ProvisionEnv String
by_length = record {
  url_host = λ url. ok url;
  split_host_port = λ host. err "missing port";
  contains = λ bundle cert. leb (len cert) (len bundle);
  both_set = "service and URL";
  none_set = "one of service and URL need to be set";
  not_supported = λ n. n.name;
}

pub leb_appended : (bundle cert : String) → by_length.contains (str_append bundle cert) cert ≡ true
leb_appended bundle cert = ground (arith, len-append bundle cert)

abbrev config : ClientConfig
config = record { service = some ("system", "hook"); url = none; ca_bundle = "" }

abbrev game : NamespacedName
game = record { namespace = ""; name = "game" }

abbrev objects : List WebhookObject
objects = mutating game ("" ∷ "" ∷ []) ∷ crd game "old" ∷ []

-- The service's name is the common name, and the objects get the CA.
injected :
    ((provision by_length fixed config objects 0).objects
      ≡ mutating game ("CA" ∷ "CA" ∷ []) ∷ crd game "CA" ∷ [])
    × (dns_name_from_client_config by_length config ≡ ok "hook.system.svc")
unfolding provision dns_name_from_client_config dns_name_of service_to_common_name bundle_ca
    inject_all inject_loop
injected = (refl, refl)

provision-injects_example :
    (dns_name : String) × (c : Artifacts) × (was : Bool) × (dns_name_from_client_config by_length
        config
      ≡ ok dns_name)
    × ((fixed.ensure_cert dns_name 0).0 ≡ ok (c, was))
    × (by_length.contains (provision by_length fixed config objects 0).config.ca_bundle c.ca_cert
        ≡ true)
    × (all
          (carries (provision by_length fixed config objects 0).config.ca_bundle)
          (provision by_length fixed config objects 0).objects
        ≡ true)
    × (map object_name (provision by_length fixed config objects 0).objects
        ≡ map object_name objects)
    × (true ≡ (was || not (by_length.contains config.ca_bundle c.ca_cert)))
unfolding provision dns_name_from_client_config dns_name_of service_to_common_name bundle_ca
    inject_all inject_loop
provision-injects_example =
    provision-injects by_length fixed config objects 0 true leb_appended refl
