-- ===== src/Cert/Manager/Host/Samples.antt =====
-- A cluster that is a secret, and a host that is its files.
use operator_toolkit.Prelude.{
  String, Bool, true, false, none, some, [], ◌≡◌, ◌⊎◌, ◌==◌, refl, ok, insert, lookup,
  lookup-insert,
}
use operator_toolkit.Cert.{
  Artifacts, CertEnv, certs_to_secret, secret_to_certs, write_answer, write, read_certs, read,
  after_write, create_if_not_exists, valid_cert, keep_or_regenerate, handle_common, ensure_cert,
}
use operator_toolkit.Cert.Samples.{
  Secret, absent, get, create, update, issued, created_is_read, updated_is_read,
}
use operator_toolkit.Cert.Stored.{IsSecretStore}
use operator_toolkit.Cert.Provision.{
  service_to_common_name, dns_name_of, dns_name_from_client_config, inject_loop, bundle_ca,
  inject_all, provision,
}
use operator_toolkit.Cert.Provision.Samples.{by_length}
use operator_toolkit.Cert.Manager.{
  ManagerEnv, compare_ca_bundles, compare_webhooks, gather_mutating, gather_validating, gather_crds,
  gather, get_client_config, batch_update, update_configs, refresh_cert, cert_exists, write_files,
  write_cert_on_disk, run,
}
use operator_toolkit.Cert.Manager.Disk.{IsDisk, cert_path, key_path}
use operator_toolkit.Cert.Manager.Samples.{Files, host, options}
use operator_toolkit.Cert.Manager.Host.{secret_cert_writer, run-serves}

abbrev World : Type 0
World = Secret × Files

abbrev cluster : CertEnv String World
cluster = record {
  get = λ w. get w.0;
  create = λ d w. ((create d w.0).0, ((create d w.0).1, w.1));
  update = λ d w. ((update d w.0).0, ((update d w.0).1, w.1));
  is_not_found = λ e. e == "NotFound";
  is_already_exists = λ e. e == "AlreadyExists";
  generate = λ name w. (ok (issued name), w);
  set_ca = λ k c w. w;
  verifies = λ certs name. certs.cert == name;
  empty_dns_name = "dns name should not be empty";
}

cluster-IsSecretStore : IsSecretStore cluster
cluster-IsSecretStore = record {
  get-create = λ d w h. created_is_read d w.0 h;
  get-update = λ d w h. updated_is_read d w.0 h;
  get-set_ca = λ k c w. refl;
}

abbrev server : ManagerEnv String World
server = record {
  get_mutating = λ n w. host.get_mutating n w.1;
  get_validating = λ n w. host.get_validating n w.1;
  get_crd = λ n w. host.get_crd n w.1;
  update = λ obj w. (none, w);
  get_secret = λ w. get w.0;
  is_not_found = λ e. e == "NotFound";
  stat = λ path w. host.stat path w.1;
  mkdir_all = λ path w. (none, w);
  write_file = λ path bytes w. (none, (w.0, insert path bytes w.1));
  join = host.join;
  url_string = host.url_string;
  host_and_service = host.host_and_service;
  misconfigured = host.misconfigured;
}

abbrev server-IsDisk : IsDisk server
server-IsDisk = record {
  file = λ p w. lookup p w.1;
  file-write_file = λ p q bytes w h. lookup-insert p q bytes w.1;
}

run-serves_example :
    (dns_name : String) × (certs : Artifacts) × (was : Bool) × ((ensure_cert cluster dns_name
        (absent, [])).0
      ≡ ok (certs, was))
    × ((cert_exists server options (absent, []) ≡ false) ⊎ (was ≡ true)
        → (server-IsDisk.file
              (cert_path server-IsDisk options)
              (run server options by_length (secret_cert_writer cluster) (absent, [])).1
            ≡ some certs.cert)
          × (server-IsDisk.file
                (key_path server-IsDisk options)
                (run server options by_length (secret_cert_writer cluster) (absent, [])).1
              ≡ some certs.key))
unfolding run cert_exists write_cert_on_disk write_files refresh_cert gather gather_mutating
    gather_validating gather_crds compare_webhooks compare_ca_bundles get_client_config
    update_configs batch_update provision dns_name_from_client_config dns_name_of
    service_to_common_name bundle_ca inject_all inject_loop ensure_cert handle_common
    create_if_not_exists read read_certs secret_to_certs write write_answer certs_to_secret
    after_write keep_or_regenerate valid_cert get create
run-serves_example =
    run-serves cluster-IsSecretStore server-IsDisk
      (record { same_secret = λ w. refl; get-update_object = λ obj w. refl }) options by_length
      (absent, []) refl refl
