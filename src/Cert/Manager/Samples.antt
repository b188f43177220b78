-- ===== src/Cert/Manager/Samples.antt =====
-- A host whose files are a dictionary, and a cluster whose secret and configurations do not change.
use Prim.Native.String.{◌++◌ as str_append}
use operator_toolkit.Prelude.{
  String, Bool, true, false, none, some, List, [], ◌∷◌, ◌++◌, ◌≡◌, ◌⊎◌, all, map, has, insert,
  lookup, lookup-insert, if◌then◌else◌, refl, ok, ◌==◌,
}
use operator_toolkit.Object.Names.{NamespacedName}
use operator_toolkit.Cert.{Artifacts, certs_to_secret}
use operator_toolkit.Cert.Provision.{
  WebhookObject, CertWriter, service_to_common_name, dns_name_of, dns_name_from_client_config,
  inject_loop, bundle_ca, inject_all, provision,
}
use operator_toolkit.Cert.Provision.Samples.{by_length, leb_appended}
use operator_toolkit.Cert.Provision.Injected.{carries, object_name}
use operator_toolkit.Cert.Manager.{
  Options, ManagerEnv, compare_ca_bundles, compare_webhooks, gather_mutating, gather_validating,
  gather_crds, gather, get_client_config, batch_update, update_configs, refresh_cert, cert_exists,
  write_files, write_cert_on_disk, run,
}
use operator_toolkit.Cert.Manager.Refreshed.{Updated, refresh_cert-updates}
use operator_toolkit.Cert.Manager.Disk.{IsDisk, Holds, AreEmpty, run-Holds}

abbrev pub Files : Type 0
Files = List (String × String)

abbrev issued : Artifacts
issued = record { key = "key"; cert = "cert"; ca_key = "ca key"; ca_cert = "CA" }

abbrev writer : CertWriter String Files
writer = record {
  ensure_cert = λ name files. (ok (issued, true), files);
  inject = λ objs files. (none, files);
}

abbrev pub host : ManagerEnv String Files
host = record {
  get_mutating = λ n files. ok ("" ∷ []);
  get_validating = λ n files. ok ("" ∷ "" ∷ []);
  get_crd = λ n files. if n.name == "games" then ok (some "") else ok none;
  update = λ obj files. (none, files);
  get_secret = λ files. (none, certs_to_secret issued);
  is_not_found = λ e. e == "NotFound";
  stat = λ path files. if has path files then none else some "NotFound";
  mkdir_all = λ path files. (none, files);
  write_file = λ path bytes files. (none, insert path bytes files);
  join = λ dir name. str_append dir (str_append "/" name);
  url_string = λ h. str_append "https://" h;
  host_and_service = "host and service can't be set at the same time";
  misconfigured = λ n. n.name;
}

abbrev host-IsDisk : IsDisk host
host-IsDisk = record {
  file = lookup;
  file-write_file = λ p q bytes files h. lookup-insert p q bytes files;
}

abbrev pub named : String → NamespacedName
named n = record { namespace = ""; name = n }

abbrev pub options : Options
options = record {
  service = some ("system", "hook");
  host = none;
  mutating_webhook_config_refs = named "defaults" ∷ [];
  validating_webhook_config_refs = named "checks" ∷ [];
  crd_refs = named "games" ∷ [];
  cert_dir = "/certs";
  cert_name = "tls.crt";
  key_name = "tls.key";
}

-- The bundles of a configuration's webhooks: the same, different, and empty before one that is not.
compared :
    (compare_webhooks ("a" ∷ "a" ∷ []) ("", false) ≡ ("a", false))
    × (compare_webhooks ("a" ∷ "b" ∷ []) ("", false) ≡ ("", true))
    × (compare_webhooks ("" ∷ "b" ∷ []) ("", false) ≡ ("b", false))
unfolding compare_webhooks compare_ca_bundles
compared = (refl, refl, refl)

refresh_cert-updates_example :
    (bundle : String) × (objs : List WebhookObject) × (w : Files) × (dns_name : String)
    × (certs : Artifacts) × (was : Bool) × ((writer.ensure_cert dns_name []).0 ≡ ok (certs, was))
    × (by_length.contains bundle certs.ca_cert ≡ true)
    × (all (carries bundle) objs ≡ true)
    × (map object_name objs
        ≡ (named "defaults" ∷ []) ++ ((named "checks" ∷ []) ++ (named "games" ∷ [])))
    × Updated host options objs w (refresh_cert host options by_length writer []).1
unfolding refresh_cert gather gather_mutating gather_validating gather_crds compare_webhooks
    compare_ca_bundles get_client_config update_configs batch_update provision
    dns_name_from_client_config dns_name_of service_to_common_name bundle_ca inject_all inject_loop
refresh_cert-updates_example =
    refresh_cert-updates host options by_length writer [] true leb_appended refl

run-Holds_example :
    (s' : Files) × (changed : Bool) × (refresh_cert host options by_length writer []
      ≡ (ok changed, s'))
    × (((changed ≡ false)
          × (cert_exists host options [] ≡ true)
          × ((run host options by_length writer []).1 ≡ s'))
        ⊎ (Holds host-IsDisk options (host.get_secret s').1 (run host options by_length writer []).1
            × ((host.get_secret s').1 ≡ none
                → AreEmpty host-IsDisk options (run host options by_length writer []).1)))
unfolding run cert_exists write_cert_on_disk write_files refresh_cert gather gather_mutating
    gather_validating gather_crds compare_webhooks compare_ca_bundles get_client_config
    update_configs batch_update provision dns_name_from_client_config dns_name_of
    service_to_common_name bundle_ca inject_all inject_loop
run-Holds_example = run-Holds host-IsDisk options by_length writer [] refl refl
