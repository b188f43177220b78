-- ===== src/Cert/Manager.antt =====
-- webhook/cert/manager.go: the manager that refreshes the certificates and the webhooks'
-- configurations, and writes the server's certificate to the host.
pub mod Refreshed
pub mod Disk
pub mod Host
pub mod Samples
use operator_toolkit.Prelude.{
  String, Bool, true, false, not, ◌||◌, ◌&&◌, Option, none, some, List, [], ◌∷◌, ◌++◌,
  if◌then◌else◌, Result, ok, err, ◌==◌,
}
use operator_toolkit.Operand.{is_some}
use operator_toolkit.Object.Names.{NamespacedName}
use operator_toolkit.Cert.{SecretData, bytes_at, server_cert_name, server_key_name}
use operator_toolkit.Cert.Provision.{
  WebhookObject, mutating, validating, crd, ClientConfig, CertWriter, ProvisionEnv, Provisioned,
  provision,
}

pub record Options : Type 0 where
  pub service : Option (String × String)
  pub host : Option String
  pub mutating_webhook_config_refs : List NamespacedName
  pub validating_webhook_config_refs : List NamespacedName
  pub crd_refs : List NamespacedName
  pub cert_dir : String
  pub cert_name : String
  pub key_name : String

-- The client, the host's file system and package net: parameters.
pub record ManagerEnv (E S : Type 0) : Type 0 where
  -- The CA bundle of each webhook of a configuration, and that of a CRD's conversion webhook, if its
  -- client config is there.
  pub get_mutating : NamespacedName → S → Result E (List String)
  pub get_validating : NamespacedName → S → Result E (List String)
  pub get_crd : NamespacedName → S → Result E (Option String)
  pub update : WebhookObject → S → Option E × S
  -- The error of reading the secret, and the data that the call has left in it.
  pub get_secret : S → Option E × SecretData
  pub is_not_found : E → Bool
  pub stat : String → S → Option E
  pub mkdir_all : String → S → Option E × S
  pub write_file : String → String → S → Option E × S
  pub join : String → String → String
  -- The URL of the host at the manager's port.
  pub url_string : String → String
  pub host_and_service : E
  pub misconfigured : NamespacedName → E

unfoldable pub compare_ca_bundles : (common_ca_bundle ca_bundle : String) → String × Bool
compare_ca_bundles common ca_bundle =
    let common' = if common == "" then ca_bundle else common in
    if common' == ca_bundle then (common', false) else ("", true)

-- The loop over the webhooks of a configuration; it ends once the bundles differ.
unfoldable pub compare_webhooks : List String → String × Bool → String × Bool
unfolding compare_ca_bundles
compare_webhooks [] state = state
compare_webhooks (b ∷ bs) (common, different) =
    compare_webhooks bs (if different then (common, different) else compare_ca_bundles common b)

-- What the loops over the references gather.
pub record Gathered : Type 0 where
  pub wh_configs : List WebhookObject
  pub ca_bundle : String
  pub different_ca_bundles : Bool

-- `secret.Data[k]`
abbrev pub data_bytes : String → SecretData → String
data_bytes k none = ""
data_bytes k (some entries) = bytes_at k entries

-- A configuration is kept, and the bundles of its webhooks are compared.
abbrev pub gather_webhooks :
    (NamespacedName → List String → WebhookObject)
    → NamespacedName
    → List String
    → Gathered
    → Gathered
gather_webhooks make nn bs g =
    let (common, different) = compare_webhooks bs (g.ca_bundle, g.different_ca_bundles) in
    record {
      wh_configs = g.wh_configs ++ (make nn bs ∷ []);
      ca_bundle = common;
      different_ca_bundles = different;
    }

-- The bundle of a CRD is compared too, but whether it differs is dropped.
abbrev pub gather_crd : NamespacedName → String → Gathered → Gathered
gather_crd nn b g = record g {
  wh_configs = g.wh_configs ++ (crd nn b ∷ []);
  ca_bundle = (compare_ca_bundles g.ca_bundle b).0;
}

module _ {E S : Type 0} (env : ManagerEnv E S) (m : Options) where
  unfoldable pub gather_mutating : List NamespacedName → S → Gathered → Result E Gathered
  unfolding compare_webhooks
  gather_mutating [] s g = ok g
  gather_mutating (nn ∷ refs) s g = elim (env.get_mutating nn s) [
    | err e ↦ err e
    | ok bs ↦ gather_mutating refs s (gather_webhooks mutating nn bs g)
  ]

  unfoldable pub gather_validating : List NamespacedName → S → Gathered → Result E Gathered
  unfolding compare_webhooks
  gather_validating [] s g = ok g
  gather_validating (nn ∷ refs) s g = elim (env.get_validating nn s) [
    | err e ↦ err e
    | ok bs ↦ gather_validating refs s (gather_webhooks validating nn bs g)
  ]

  unfoldable pub gather_crds : List NamespacedName → S → Gathered → Result E Gathered
  gather_crds [] s g = ok g
  gather_crds (nn ∷ refs) s g = elim (env.get_crd nn s) [
    | err e ↦ err e
    | ok none ↦ err (env.misconfigured nn)
    | ok (some b) ↦ gather_crds refs s (gather_crd nn b g)
  ]

  unfoldable pub gather : S → Result E Gathered
  unfolding gather_mutating gather_validating gather_crds
  gather s =
      elim (gather_mutating m.mutating_webhook_config_refs s
        (record { wh_configs = []; ca_bundle = ""; different_ca_bundles = false })) [
          | err e ↦ err e
          | ok g ↦ elim (gather_validating m.validating_webhook_config_refs s g) [
            | err e ↦ err e
            | ok g' ↦ gather_crds m.crd_refs s g'
          ]
        ]

  unfoldable pub get_client_config : Result E ClientConfig
  get_client_config =
      let config : ClientConfig = record {
        service = m.service;
        url = elim m.host [ none ↦ none | some host ↦ some (env.url_string host) ];
        ca_bundle = "";
      } in
      if is_some m.host && is_some m.service then err env.host_and_service else ok config

  unfoldable pub batch_update : List WebhookObject → S → Option E × S
  batch_update [] s = (none, s)
  batch_update (obj ∷ objs) s =
      let (failed, s') = env.update obj s in
      elim failed [ some e ↦ (some e, s') | none ↦ batch_update objs s' ]

  -- The end of `refreshCert`, from what `Provision` answered.
  unfoldable pub update_configs : Provisioned E S → Result E Bool × S
  unfolding batch_update
  update_configs p = elim p.answer [
    | err e ↦ (err e, p.world)
    | ok changed ↦
        let (failed, s') = batch_update p.objects p.world in
        (elim failed [ none ↦ ok changed | some e ↦ err e ], s')
  ]

  unfoldable pub refresh_cert : ProvisionEnv E → CertWriter E S → S → Result E Bool × S
  unfolding gather get_client_config update_configs
  refresh_cert penv cw s = elim get_client_config [
    | err e ↦ (err e, s)
    | ok config ↦ elim (gather s) [
      | err e ↦ (err e, s)
      | ok g ↦
          update_configs
            (provision penv cw (record config { ca_bundle = g.ca_bundle }) g.wh_configs s)
    ]
  ]

  -- Both files must be there; an error of `stat` counts as their absence.
  unfoldable pub cert_exists : S → Bool
  cert_exists s =
      if is_some (env.stat (env.join m.cert_dir m.cert_name) s)
      then false
      else not (is_some (env.stat (env.join m.cert_dir m.key_name) s))

  -- From the data of the secret on.
  unfoldable pub write_files : SecretData → S → Option E × S
  write_files secret s =
      let (mkdir_failed, s1) = env.mkdir_all m.cert_dir s in
      elim mkdir_failed [
        | some e ↦ (some e, s1)
        | none ↦
            let (cert_failed, s2) =
              env.write_file (env.join m.cert_dir m.cert_name) (data_bytes server_cert_name secret)
                s1 in
            elim cert_failed [
              | some e ↦ (some e, s2)
              | none ↦
                  env.write_file (env.join m.cert_dir m.key_name)
                    (data_bytes server_key_name secret) s2
            ]
      ]

  -- Only a not-found error of the client ends it.
  unfoldable pub write_cert_on_disk : S → Option E × S
  unfolding write_files
  write_cert_on_disk s =
      let (failed, secret) = env.get_secret s in
      elim failed [
        | none ↦ write_files secret s
        | some e ↦ if env.is_not_found e then (some e, s) else write_files secret s
      ]

  unfoldable pub run : ProvisionEnv E → CertWriter E S → S → Option E × S
  unfolding refresh_cert cert_exists write_cert_on_disk
  run penv cw s =
      let need_host_cert_update = not (cert_exists s) in
      let (refreshed, s') = refresh_cert penv cw s in
      elim refreshed [
        | err e ↦ (some e, s')
        | ok changed ↦
            if changed || need_host_cert_update then write_cert_on_disk s' else (none, s')
      ]

-- What the `select` of the refreshing goroutine finds ready.
pub data Wake : Type 0 where
  ticked stopped : Wake

module _ {E S : Type 0} (env : ManagerEnv E S) (m : Options) (penv : ProvisionEnv E)
    (cw : CertWriter E S) where
  -- The goroutine; `none` where it goes on after the given choices. A failed run is only logged.
  unfoldable pub refresh_loop : List Wake → S → Option S
  refresh_loop [] s = none
  refresh_loop (stopped ∷ wakes) s = some s
  refresh_loop (ticked ∷ wakes) s = refresh_loop wakes (run env m penv cw s).1

  -- `Start`: its error, whether it starts the goroutine, and the world.
  unfoldable pub start : S → (Option E × Bool) × S
  unfolding run cert_exists
  start s =
      if cert_exists env m s
      then ((none, false), s)
      else (let (failed, s') = run env m penv cw s in
          elim failed [ some e ↦ ((some e, false), s') | none ↦ ((none, true), s') ])
