-- ===== src/Cert/Manager/Disk.antt =====
-- webhook/cert/manager.go, `writeCertOnDisk` and `run`: what the host holds afterwards.
use operator_toolkit.Prelude.{
  String, Bool, true, false, not, ◌||◌, ◌==◌, Option, none, some, ◌≡◌, ◌⊎◌, if◌then◌else◌, ok,
  arith, ap, ◌∙◌, eq_iff, Result-cases, Option-cases, Bool-cases, inl, inr,
}
use operator_toolkit.Cert.{SecretData, server_cert_name, server_key_name}
use operator_toolkit.Cert.Provision.{CertWriter, ProvisionEnv}
use operator_toolkit.Cert.Manager.{
  Options, ManagerEnv, data_bytes, refresh_cert, cert_exists, write_files, write_cert_on_disk, run,
}

-- What the host's file system documents of cleaned paths: a write that succeeds is what a read finds, and changes no
-- other file.
pub record IsDisk {E S : Type 0} (env : ManagerEnv E S) : Type 0 where
  pub file : String → S → Option String
  pub file-write_file :
      (p q bytes : String) (s : S)
      → (env.write_file p bytes s).0 ≡ none
      → file q (env.write_file p bytes s).1 ≡ (if p == q then some bytes else file q s)

module _ {E S : Type 0} {env : ManagerEnv E S} (l : IsDisk env) (m : Options) where
  abbrev pub cert_path : String
  cert_path = env.join m.cert_dir m.cert_name

  abbrev pub key_path : String
  key_path = env.join m.cert_dir m.key_name

  -- The host holds the server's certificate and key of the data.
  abbrev pub Holds : SecretData → S → Type 0
  Holds secret s =
      (l.file cert_path s ≡ some (data_bytes server_cert_name secret))
      × (l.file key_path s ≡ some (data_bytes server_key_name secret))

  abbrev pub AreEmpty : S → Type 0
  AreEmpty s = (l.file cert_path s ≡ some "") × (l.file key_path s ≡ some "")

  write_files-Holds :
      (secret : SecretData) (s : S)
      → (cert_path == key_path) ≡ false
      → (write_files env m secret s).0 ≡ none
      → Holds secret (write_files env m secret s).1
  unfolding write_files
  write_files-Holds secret s apart h =
      let cert = data_bytes server_cert_name secret in
      let key = data_bytes server_key_name secret in
      let s1 = (env.mkdir_all m.cert_dir s).1 in
      let s2 = (env.write_file cert_path cert s1).1 in
      ground (
        arith,
        l.file-write_file cert_path cert_path cert s1,
        l.file-write_file key_path cert_path key s2,
        l.file-write_file key_path key_path key s2,
        eq_iff cert_path cert_path,
        eq_iff key_path key_path,
        eq_iff key_path cert_path,
        eq_iff cert_path key_path,
      )

  -- Where the client fails for another reason than not found, the data is what the failed call left.
  write_cert_on_disk-Holds :
      (s : S)
      → (cert_path == key_path) ≡ false
      → (write_cert_on_disk env m s).0 ≡ none
      → Holds (env.get_secret s).1 (write_cert_on_disk env m s).1
  unfolding write_cert_on_disk
  write_cert_on_disk-Holds s apart h = elim (Option-cases (env.get_secret s).0) [
    | inl good ↦ ground (arith, h, good, write_files-Holds (env.get_secret s).1 s apart)
    | inr (e, bad) ↦ ground (arith, h, bad, write_files-Holds (env.get_secret s).1 s apart)
  ]

  -- Over a file system with the law of `IsDisk`, and where the two files have different paths: a run
  -- without an error has refreshed the certificates. Unless nothing changed and both files were there
  -- before, the host then holds the server's certificate and key of the data that the client's read of
  -- the secret left, also where that read failed. Where it left no data, both files are empty.
  pub run-Holds :
      (penv : ProvisionEnv E) (cw : CertWriter E S) (s : S)
      → (cert_path == key_path) ≡ false
      → (run env m penv cw s).0 ≡ none
      → (s' : S) × (changed : Bool) × (refresh_cert env m penv cw s ≡ (ok changed, s'))
        × (((changed ≡ false) × (cert_exists env m s ≡ true) × ((run env m penv cw s).1 ≡ s'))
            ⊎ (Holds (env.get_secret s').1 (run env m penv cw s).1
                × ((env.get_secret s').1 ≡ none → AreEmpty (run env m penv cw s).1)))
  unfolding run
  run-Holds penv cw s apart h = elim (Result-cases (refresh_cert env m penv cw s).0) [
    | inr (e, bad) ↦ absurd (ground (arith, h, bad))
    | inl (changed, good) ↦
        let s' = (refresh_cert env m penv cw s).1 in
        (
          s',
          changed,
          ground (arith, good),
          elim (Bool-cases (changed || not (cert_exists env m s))) [
            | inl written ↦
                let held : Holds (env.get_secret s').1 (run env m penv cw s).1 =
                  ground (arith, h, good, written, write_cert_on_disk-Holds s' apart) in
                inr (
                  held,
                  λ nothing. (
                    held.0 ∙ ap (λ d. some (data_bytes server_cert_name d)) nothing,
                    held.1 ∙ ap (λ d. some (data_bytes server_key_name d)) nothing,
                  ),
                )
            | inr kept ↦
                inl (ground (arith, kept), ground (arith, kept), ground (arith, h, good, kept))
          ],
        )
  ]
