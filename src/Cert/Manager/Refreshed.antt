-- ===== src/Cert/Manager/Refreshed.antt =====
-- webhook/cert/manager.go, `refreshCert`: what the webhooks' configurations are updated to.
use Prim.Native.String.{◌++◌ as str_append}
use operator_toolkit.Prelude.{
  String, Bool, true, false, none, some, List, [], ◌∷◌, ◌++◌, ◌≡◌, map, all, ok, refl, sym, arith,
  ap, ◌∙◌, append-nil, append_assoc, Result-cases, Option-cases, inl, inr,
}
use operator_toolkit.Object.Names.{NamespacedName}
use operator_toolkit.Cert.{Artifacts}
use operator_toolkit.Cert.Provision.{
  WebhookObject, mutating, validating, crd, ClientConfig, CertWriter, ProvisionEnv, Provisioned,
  provision,
}
use operator_toolkit.Cert.Provision.Injected.{object_name, carries, provision-injects}
use operator_toolkit.Cert.Manager.{
  Options, ManagerEnv, Gathered, gather_webhooks, gather_crd, gather_mutating, gather_validating,
  gather_crds, gather, get_client_config, batch_update, update_configs, refresh_cert,
}

map-append :
    (xs ys : List WebhookObject)
    → map object_name (xs ++ ys) ≡ map object_name xs ++ map object_name ys
map-append [] ys = refl
map-append (x ∷ xs) ys = ap (λ l. object_name x ∷ l) (map-append xs ys)

module _ {E S : Type 0} (env : ManagerEnv E S) (m : Options) where
  -- One more object at the end of those gathered.
  names_more :
      (xs : List WebhookObject) (x : WebhookObject) (refs : List NamespacedName)
      → map object_name (xs ++ (x ∷ [])) ++ refs ≡ map object_name xs ++ (object_name x ∷ refs)
  names_more xs x refs =
      rw (map-append xs (x ∷ [])) (append_assoc (map object_name xs) (object_name x ∷ []) refs)

  gather_mutating-names :
      (refs : List NamespacedName) (s : S) (g g' : Gathered)
      → gather_mutating env m refs s g ≡ ok g'
      → map object_name g'.wh_configs ≡ map object_name g.wh_configs ++ refs
  unfolding gather_mutating
  gather_mutating-names [] s g g' h = ground (arith, append-nil (map object_name g.wh_configs))
  gather_mutating-names (nn ∷ refs) s g g' h = elim (Result-cases (env.get_mutating nn s)) [
    | inr (e, bad) ↦ absurd (ground (arith, h, bad))
    | inl (bs, got) ↦
        let more = gather_webhooks mutating nn bs g in
        gather_mutating-names refs s more g' (ground (arith, h, got))
        ∙ names_more g.wh_configs (mutating nn bs) refs
  ]

  gather_validating-names :
      (refs : List NamespacedName) (s : S) (g g' : Gathered)
      → gather_validating env m refs s g ≡ ok g'
      → map object_name g'.wh_configs ≡ map object_name g.wh_configs ++ refs
  unfolding gather_validating
  gather_validating-names [] s g g' h = ground (arith, append-nil (map object_name g.wh_configs))
  gather_validating-names (nn ∷ refs) s g g' h = elim (Result-cases (env.get_validating nn s)) [
    | inr (e, bad) ↦ absurd (ground (arith, h, bad))
    | inl (bs, got) ↦
        let more = gather_webhooks validating nn bs g in
        gather_validating-names refs s more g' (ground (arith, h, got))
        ∙ names_more g.wh_configs (validating nn bs) refs
  ]

  gather_crds-names :
      (refs : List NamespacedName) (s : S) (g g' : Gathered)
      → gather_crds env m refs s g ≡ ok g'
      → map object_name g'.wh_configs ≡ map object_name g.wh_configs ++ refs
  unfolding gather_crds
  gather_crds-names [] s g g' h = ground (arith, append-nil (map object_name g.wh_configs))
  gather_crds-names (nn ∷ refs) s g g' h = elim (Result-cases (env.get_crd nn s)) [
    | inr (e, bad) ↦ absurd (ground (arith, h, bad))
    | inl (none, got) ↦ absurd (ground (arith, h, got))
    | inl (some b, got) ↦
        gather_crds-names refs s (gather_crd nn b g) g' (ground (arith, h, got))
        ∙ names_more g.wh_configs (crd nn b) refs
  ]

  -- What is gathered is what the three lists of references name, in order.
  gather-names :
      (s : S) (g : Gathered)
      → gather env m s ≡ ok g
      → map object_name g.wh_configs
        ≡ m.mutating_webhook_config_refs ++ (m.validating_webhook_config_refs ++ m.crd_refs)
  unfolding gather
  gather-names s g h =
      let start : Gathered = record {
        wh_configs = [];
        ca_bundle = "";
        different_ca_bundles = false;
      } in
      elim (Result-cases (gather_mutating env m m.mutating_webhook_config_refs s start)) [
        | inr (e, bad) ↦ absurd (ground (arith, h, bad))
        | inl (g1, e1) ↦
            elim (Result-cases (gather_validating env m m.validating_webhook_config_refs s g1)) [
              | inr (e, bad) ↦ absurd (ground (arith, h, e1, bad))
              | inl (g2, e2) ↦
                  gather_crds-names m.crd_refs s g2 g (ground (arith, h, e1, e2))
                  ∙ ap (λ l. l ++ m.crd_refs)
                      (gather_validating-names m.validating_webhook_config_refs s g1 g2 e2)
                  ∙ ap (λ l. (l ++ m.validating_webhook_config_refs) ++ m.crd_refs)
                      (gather_mutating-names m.mutating_webhook_config_refs s start g1 e1)
                  ∙ append_assoc m.mutating_webhook_config_refs m.validating_webhook_config_refs
                      m.crd_refs
            ]
      ]

  pub update_configs_lem :
      (p : Provisioned E S) (changed : Bool)
      → (update_configs env m p).0 ≡ ok changed
      → (p.answer ≡ ok changed)
        × (batch_update env m p.objects p.world ≡ (none, (update_configs env m p).1))
  unfolding update_configs
  update_configs_lem p changed h = elim (Result-cases p.answer) [
    | inr (e, bad) ↦ absurd (ground (arith, h, bad))
    | inl (a, good) ↦ ground (arith, h, good, Option-cases (batch_update env m p.objects p.world).0)
  ]

  -- From the one world to the other, the client was asked once for an update of each of the objects,
  -- in their order, and each of these updates succeeded.
  abbrev pub Updated : List WebhookObject → S → S → Type 0
  Updated [] w w' = w ≡ w'
  Updated (obj ∷ objs) w w' =
      (between : S) × (env.update obj w ≡ (none, between)) × Updated objs between w'

  batch_update-Updated :
      (objs : List WebhookObject) (w w' : S)
      → batch_update env m objs w ≡ (none, w')
      → Updated objs w w'
  unfolding batch_update
  batch_update-Updated [] w w' h = ap (λ r. r.1) h
  batch_update-Updated (obj ∷ objs) w w' h = elim (Option-cases (env.update obj w).0) [
    | inr (e, bad) ↦ absurd (ground (arith, h, bad))
    | inl good ↦
        let w1 = (env.update obj w).1 in
        (w1, ground (arith, good), batch_update-Updated objs w1 w' (ground (arith, h, good)))
  ]

  -- Where text that is appended to a bundle is contained in it: a refresh without an error ends with an
  -- update by the client, each successful, of objects that are named as the configurations that the
  -- manager refers to, one for each and in order. Their webhooks all carry one bundle, and this bundle
  -- contains the CA of the certificates that the writer ensured.
  pub refresh_cert-updates :
      (penv : ProvisionEnv E) (cw : CertWriter E S) (s : S) (changed : Bool)
      → ((bundle cert : String) → penv.contains (str_append bundle cert) cert ≡ true)
      → (refresh_cert env m penv cw s).0 ≡ ok changed
      → (bundle : String) × (objs : List WebhookObject) × (w : S) × (dns_name : String)
        × (certs : Artifacts) × (was : Bool) × ((cw.ensure_cert dns_name s).0 ≡ ok (certs, was))
        × (penv.contains bundle certs.ca_cert ≡ true)
        × (all (carries bundle) objs ≡ true)
        × (map object_name objs
            ≡ m.mutating_webhook_config_refs ++ (m.validating_webhook_config_refs ++ m.crd_refs))
        × Updated objs w (refresh_cert env m penv cw s).1
  unfolding refresh_cert
  refresh_cert-updates penv cw s changed appended h =
      elim (Result-cases (get_client_config env m)) [
        | inr (e, bad) ↦ absurd (ground (arith, h, bad))
        | inl (config, made) ↦ elim (Result-cases (gather env m s)) [
          | inr (e, bad) ↦ absurd (ground (arith, h, made, bad))
          | inl (g, got) ↦
              let with : ClientConfig = record config { ca_bundle = g.ca_bundle } in
              let p = provision penv cw with g.wh_configs s in
              let is : refresh_cert env m penv cw s ≡ update_configs env m p =
                rw (made, got, refresh_cert) in
              let (answer, updated) = update_configs_lem p changed (ap (λ r. r.0) (sym is) ∙ h) in
              let (n, certs, was, _, ensured, held, carried, named, _) =
                provision-injects penv cw with g.wh_configs s changed appended answer in
              (
                p.config.ca_bundle,
                p.objects,
                p.world,
                n,
                certs,
                was,
                ensured,
                held,
                carried,
                named ∙ gather-names s g got,
                batch_update-Updated p.objects p.world (refresh_cert env m penv cw s).1
                    (updated ∙ ap (λ r. (none, r.1)) (sym is)),
              )
        ]
      ]
