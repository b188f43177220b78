-- ===== src/Cert/Stored.antt =====
-- internal/webhook/cert/writer: what the secret holds after `EnsureCert`.
use operator_toolkit.Prelude.{
  String, Bool, true, false, Option, none, some, ◌≡◌, ◌⊎◌, inl, inr, Result, ok, err, ◌==◌, refl,
  sym, ap, ◌∙◌, arith, Result-cases, Bool-cases,
}
use operator_toolkit.Cert.{
  Artifacts, SecretData, WriterError, not_found, already_exist, other, CertEnv, secret_to_certs,
  certs_to_secret, write_answer, write, overwrite, read_certs, read, after_write,
  create_if_not_exists, valid_cert, regenerate, keep_or_regenerate, ensure_cert,
}

pub secret_to_certs-certs_to_secret :
    (certs : Artifacts) → secret_to_certs (certs_to_secret certs) ≡ some certs
unfolding secret_to_certs certs_to_secret
secret_to_certs-certs_to_secret certs = refl

-- What the client documents: a write that succeeds is read back, and the generator's CA is no part
-- of the secret.
pub record IsSecretStore {E S : Type 0} (env : CertEnv E S) : Type 0 where
  pub get-create :
      (d : SecretData) (s : S) → (env.create d s).0 ≡ none → env.get (env.create d s).1 ≡ (none, d)
  pub get-update :
      (d : SecretData) (s : S) → (env.update d s).0 ≡ none → env.get (env.update d s).1 ≡ (none, d)
  pub get-set_ca : (k c : String) (s : S) → env.get (env.set_ca k c s) ≡ env.get s

module _ {E S : Type 0} {env : CertEnv E S} (l : IsSecretStore env) where
  pub read_certs_lem :
      (d : SecretData) (s : S)
      → ((read_certs env d s).0 ≡ ok (secret_to_certs d))
        × (env.get (read_certs env d s).1 ≡ env.get s)
  unfolding read_certs secret_to_certs
  read_certs_lem none s = (refl, refl)
  read_certs_lem (some d) s = (refl, l.get-set_ca _ _ s)

  -- A read answers by what the client finds, and leaves that as it is.
  get-read : (s : S) → env.get (read env s).1 ≡ env.get s
  unfolding read
  get-read s = ground (arith, read_certs_lem (env.get s).1 s)

  read-cong : (s t : S) → env.get s ≡ env.get t → (read env s).0 ≡ (read env t).0
  unfolding read
  read-cong s t h = ground (arith, read_certs_lem (env.get s).1 s, read_certs_lem (env.get t).1 t)

  -- A second read finds the same.
  read-read : (s : S) → (read env (read env s).1).0 ≡ (read env s).0
  read-read s = read-cong (read env s).1 s (get-read s)

  read-stored :
      (s : S) (certs : Artifacts)
      → env.get s ≡ (none, certs_to_secret certs)
      → (read env s).0 ≡ ok (some certs)
  unfolding read
  read-stored s certs h =
      ground (arith, read_certs_lem (env.get s).1 s, secret_to_certs-certs_to_secret certs)

  read-write :
      (n : String) (s : S) (c : Artifacts)
      → (write env n s).0 ≡ ok c
      → (read env (write env n s).1).0 ≡ ok (some c)
  unfolding write write_answer
  read-write n s c h =
      read-stored _ c (ground (arith, l.get-create (certs_to_secret c) (env.generate n s).1))

  read-overwrite :
      (n : String) (s : S) (c : Artifacts)
      → (overwrite env n s).0 ≡ ok c
      → (read env (overwrite env n s).1).0 ≡ ok (some c)
  unfolding overwrite
  read-overwrite n s c h =
      read-stored _ c (ground (arith, l.get-update (certs_to_secret c) (env.generate n s).1))

  after_write_lem :
      (a : Result (WriterError E) Artifacts) (s : S) (c : Option Artifacts) (changed : Bool)
      → (after_write env (a, s)).0 ≡ ok (c, changed)
      → ((w : Artifacts) → a ≡ ok w → (read env s).0 ≡ ok (some w))
      → ((read env (after_write env (a, s)).1).0 ≡ ok c) × (changed ≡ true)
  unfolding after_write
  after_write_lem (ok w) s c changed h found = ground (arith, found w refl)
  after_write_lem (err (already_exist e)) s c changed h found = ground (arith, read-read s)
  after_write_lem (err (not_found e)) s c changed h found = absurd (ground arith)
  after_write_lem (err (other e)) s c changed h found = absurd (ground arith)

  -- By what the first read answered.
  create_cases :
      (found : Result (WriterError E) (Option Artifacts)) (n : String) (s : S)
      (c : Option Artifacts) (changed : Bool)
      → (read env s).0 ≡ found
      → (create_if_not_exists env n s).0 ≡ ok (c, changed)
      → ((read env (create_if_not_exists env n s).1).0 ≡ ok c)
        × ((changed ≡ true) ⊎ (env.get (create_if_not_exists env n s).1 ≡ env.get s))
  unfolding create_if_not_exists
  create_cases (ok certs) n s c changed e h = ground (arith, e, h, read-read s, get-read s)
  create_cases (err (not_found x)) n s c changed e h =
      let t = (read env s).1 in
      let (again, new) =
        after_write_lem (write env n t).0 (write env n t).1 c changed (ground (arith, h, e))
          (λ w written. read-write n t w written) in
      rw (e, create_if_not_exists) (again, inl new)
  create_cases (err (already_exist x)) n s c changed e h = absurd (ground (arith, h, e))
  create_cases (err (other x)) n s c changed e h = absurd (ground (arith, h, e))

  create_if_not_exists_lem :
      (n : String) (s : S) (c : Option Artifacts) (changed : Bool)
      → (create_if_not_exists env n s).0 ≡ ok (c, changed)
      → ((read env (create_if_not_exists env n s).1).0 ≡ ok c)
        × ((changed ≡ true) ⊎ (env.get (create_if_not_exists env n s).1 ≡ env.get s))
  create_if_not_exists_lem n s c changed h = create_cases (read env s).0 n s c changed refl h

  regenerate_lem :
      (n : String) (s : S) (c : Artifacts) (changed : Bool)
      → (regenerate env n s).0 ≡ ok (c, changed)
      → ((read env (regenerate env n s).1).0 ≡ ok (some c)) × (changed ≡ true)
  unfolding regenerate
  regenerate_lem n s c changed h = ground (arith, read-overwrite n s c)

  keep_or_regenerate_lem :
      (found : Option Artifacts) (was : Bool) (n : String) (s : S) (c : Artifacts) (changed : Bool)
      → (keep_or_regenerate env found was n s).0 ≡ ok (c, changed)
      → (read env s).0 ≡ ok found
      → ((read env (keep_or_regenerate env found was n s).1).0 ≡ ok (some c))
        × ((changed ≡ true)
            ⊎ ((env.verifies c n ≡ true)
                × (was ≡ false)
                × (env.get (keep_or_regenerate env found was n s).1 ≡ env.get s)))
  unfolding keep_or_regenerate valid_cert
  keep_or_regenerate_lem none was n s c changed h there =
      let (again, new) = regenerate_lem n s c changed h in (again, inl new)
  keep_or_regenerate_lem (some old) true n s c changed h there =
      elim (Bool-cases (env.verifies old n)) [
        | inl good ↦ ground (arith, there)
        | inr bad ↦ ground (arith, regenerate_lem n s c changed)
      ]
  keep_or_regenerate_lem (some old) false n s c changed h there =
      elim (Bool-cases (env.verifies old n)) [
        | inl good ↦
            let is : old ≡ c = ground (arith, h) in
            rw good (
              there ∙ ap (λ a. ok (some a)) is,
              inr (ap (λ a. env.verifies a n) (sym is) ∙ good, refl, refl),
            )
        | inr bad ↦ ground (arith, regenerate_lem n s c changed)
      ]

  -- `EnsureCert` that succeeds leaves in the secret the certificates that it returns, where the writer
  -- reads them. It says that nothing changed only if they are valid for the name and the secret is as
  -- it was.
  pub ensure_cert-stores :
      (dns_name : String) (s : S) (certs : Artifacts) (changed : Bool)
      → (ensure_cert env dns_name s).0 ≡ ok (certs, changed)
      → ((read env (ensure_cert env dns_name s).1).0 ≡ ok (some certs))
        × ((changed ≡ true)
            ⊎ ((env.verifies certs dns_name ≡ true)
                × (env.get (ensure_cert env dns_name s).1 ≡ env.get s)))
  unfolding ensure_cert
  ensure_cert-stores dns_name s certs changed h =
      elim (Result-cases (create_if_not_exists env dns_name s).0) [
        | inl ((found, was), e) ↦
            let t = (create_if_not_exists env dns_name s).1 in
            let (there, kept) = create_if_not_exists_lem dns_name s found was e in
            ground
              (arith, there, kept, h, e, keep_or_regenerate_lem found was dns_name t certs changed)
        | inr (x, e) ↦ absurd (ground (arith, h, e))
      ]

  -- Certificates that the secret holds and that are valid for the name are kept: `EnsureCert` returns
  -- them, says that nothing changed, and leaves the secret as it is.
  pub ensure_cert-keeps :
      (dns_name : String) (s : S) (certs : Artifacts)
      → (dns_name == "") ≡ false
      → (read env s).0 ≡ ok (some certs)
      → env.verifies certs dns_name ≡ true
      → ((ensure_cert env dns_name s).0 ≡ ok (certs, false))
        × (env.get (ensure_cert env dns_name s).1 ≡ env.get s)
  unfolding ensure_cert create_if_not_exists keep_or_regenerate valid_cert
  ensure_cert-keeps dns_name s certs named there good = ground (arith, there, get-read s)
