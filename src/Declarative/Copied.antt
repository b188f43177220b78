-- ===== src/Declarative/Copied.antt =====
-- declarative/loader/filesystem.go, `DeepCopy`: the copy against the original.
use operator_toolkit.Prelude.{
  String, Bool, not, ◌&&◌, ◌==◌, none, List, [], ◌∷◌, ◌≡◌, refl, sym, arith, ap, ◌∙◌, any, all,
  true, false, ok, eq_iff, Bool-cases, Option-cases, Result-cases, inl, inr,
}
use operator_toolkit.Declarative.{FileSystem, WalkEntry, copy_entry, copy_entries, deep_copy}
use operator_toolkit.Declarative.Transformed.{IsFileSystem}

module _ {E Fs : Type 0} {files : FileSystem E Fs} (l : IsFileSystem files) where
  -- Is the path a file among the entries?
  abbrev pub is_file : String → List (WalkEntry E) → Bool
  is_file p entries = any (λ e. not e.is_dir && (e.path == p)) entries

  -- A path that reads in the copy as in the original still does after one more entry.
  copy_entry-keeps :
      (entry : WalkEntry E) (fs1 fs2 : Fs)
      → (copy_entry files entry fs1 fs2).0 ≡ none
      → (q content : String) → files.read_file q fs1 ≡ ok content
      → files.read_file q fs2 ≡ ok content
      → files.read_file q (copy_entry files entry fs1 fs2).1 ≡ ok content
  unfolding copy_entry
  copy_entry-keeps entry fs1 fs2 h q content reads1 reads2 =
      elim (Option-cases entry.access_error) [
        | inr (e, bad) ↦ absurd (ground (arith, h, bad))
        | inl fine ↦ elim (Bool-cases entry.is_dir) [
          | inl dir ↦ ground (arith, h, fine, dir, l.read-mkdir entry.path q content fs2)
          | inr file ↦ elim (Result-cases (files.read_file entry.path fs1)) [
            | inr (e, bad) ↦ absurd (ground (arith, h, fine, file, bad))
            | inl (c, got) ↦ elim (Bool-cases (l.clean entry.path == l.clean q)) [
              | inr other ↦ ground (
                arith,
                h,
                fine,
                file,
                got,
                reads2,
                other,
                l.read-write_other entry.path q c content fs2,
              )
              | inl same ↦
                  let one = (eq_iff (l.clean entry.path) (l.clean q)).0 same in
                  let is : c ≡ content =
                    ground (arith, reads1, l.read-clean entry.path q c fs1 one got) in
                  ground (arith, h, fine, file, got, is, l.read-write entry.path q c fs2, one)
            ]
          ]
        ]
      ]

  -- The entry of the path itself.
  copy_entry-reads :
      (entry : WalkEntry E) (fs1 fs2 : Fs)
      → (copy_entry files entry fs1 fs2).0 ≡ none
      → entry.is_dir ≡ false
      → (q : String) → l.clean entry.path ≡ l.clean q
      → (content : String) × (files.read_file q fs1 ≡ ok content)
        × (files.read_file q (copy_entry files entry fs1 fs2).1 ≡ ok content)
  unfolding copy_entry
  copy_entry-reads entry fs1 fs2 h file q one = elim (Option-cases entry.access_error) [
    | inr (e, bad) ↦ absurd (ground (arith, h, bad))
    | inl fine ↦ elim (Result-cases (files.read_file entry.path fs1)) [
      | inr (e, bad) ↦ absurd (ground (arith, h, fine, file, bad))
      | inl (c, got) ↦ (
        c,
        l.read-clean entry.path q c fs1 one got,
        ground (arith, h, fine, file, got, l.read-write entry.path q c fs2, one),
      )
    ]
  ]

  copy_entries-next :
      (entry : WalkEntry E) (entries : List (WalkEntry E)) (fs1 fs2 : Fs)
      → (copy_entries files (entry ∷ entries) fs1 fs2).0 ≡ none
      → ((copy_entry files entry fs1 fs2).0 ≡ none)
        × (copy_entries files (entry ∷ entries) fs1 fs2
            ≡ copy_entries files entries fs1 (copy_entry files entry fs1 fs2).1)
  unfolding copy_entries
  copy_entries-next entry entries fs1 fs2 h =
      elim (Option-cases (copy_entry files entry fs1 fs2).0) [
        | inr (e, bad) ↦ absurd (ground (arith, h, bad))
        | inl fine ↦ (fine, rw (fine, copy_entries) refl)
      ]

  copy_entries-keeps :
      (entries : List (WalkEntry E)) (fs1 fs2 : Fs)
      → (copy_entries files entries fs1 fs2).0 ≡ none
      → (q content : String) → files.read_file q fs1 ≡ ok content
      → files.read_file q fs2 ≡ ok content
      → files.read_file q (copy_entries files entries fs1 fs2).1 ≡ ok content
  unfolding copy_entries
  copy_entries-keeps [] fs1 fs2 h q content reads1 reads2 = reads2
  copy_entries-keeps (entry ∷ entries) fs1 fs2 h q content reads1 reads2 =
      let (fine, is) = copy_entries-next entry entries fs1 fs2 h in
      ap (λ x. files.read_file q x.1) is
      ∙ copy_entries-keeps entries fs1 (copy_entry files entry fs1 fs2).1
          (ap (λ x. x.0) (sym is) ∙ h) q content reads1
          (copy_entry-keeps entry fs1 fs2 fine q content reads1 reads2)

  copy_entries-reads :
      (entries : List (WalkEntry E)) (fs1 fs2 : Fs)
      → all (λ e. l.clean e.path == e.path) entries ≡ true
      → (copy_entries files entries fs1 fs2).0 ≡ none
      → (q : String) → is_file (l.clean q) entries ≡ true
      → files.read_file q (copy_entries files entries fs1 fs2).1 ≡ files.read_file q fs1
  unfolding copy_entries
  copy_entries-reads [] fs1 fs2 w h q file = absurd (ground (arith, file))
  copy_entries-reads (entry ∷ entries) fs1 fs2 w h q file =
      let (fine, is) = copy_entries-next entry entries fs1 fs2 h in
      let next = (copy_entry files entry fs1 fs2).1 in
      let rest = ap (λ x. x.0) (sym is) ∙ h in
      ap (λ x. files.read_file q x.1) is
      ∙ elim (Bool-cases (not entry.is_dir && (entry.path == l.clean q))) [
        | inl now ↦
            let one : l.clean entry.path ≡ l.clean q =
              (eq_iff (l.clean entry.path) entry.path).0 (ground (arith, w))
              ∙ (eq_iff entry.path (l.clean q)).0 (ground (arith, now)) in
            let (c, reads1, reads2) =
              copy_entry-reads entry fs1 fs2 fine (ground (arith, now)) q one in
            copy_entries-keeps entries fs1 next rest q c reads1 reads2 ∙ sym reads1
        | inr later ↦
            copy_entries-reads entries fs1 next (ground (arith, w)) rest q
              (ground (arith, file, later))
      ]

  -- A `DeepCopy` without an error: every path of a file that the walk of the original visits reads in
  -- the copy as in the original.
  pub deep_copy-reads :
      (fs1 fs2 : Fs)
      → (deep_copy files fs1 fs2).0 ≡ none
      → (q : String) → is_file (l.clean q) (files.walk "/" fs1) ≡ true
      → files.read_file q (deep_copy files fs1 fs2).1 ≡ files.read_file q fs1
  unfolding deep_copy
  deep_copy-reads fs1 fs2 h q file =
      copy_entries-reads (files.walk "/" fs1) fs1 fs2 (l.walk_clean "/" fs1) h q file
