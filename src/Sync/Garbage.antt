-- ===== src/Sync/Garbage.antt =====
-- controller/external-object-sync/v1/sync.go: what a garbage collection leaves in the external system.
use operator_toolkit.Prelude.{
  ℕ, ◌<◌, Bool, true, not, List, [], ◌∷◌, ◌++◌, ◌≡◌, Result, ok, ltb, refl, arith, ◌&&◌, ◌∙◌, ap,
}
use operator_toolkit.Object.Names.{
  NamespacedName, same_name, found_in, namespaced_names, namespaced_names_diff,
  namespaced_names_diff-times, found_in-eq-times,
}
use operator_toolkit.Sync.{
  SyncEnv, SyncFunc, new_sync_func, with_sync_funcs, init_sync_funcs, delete_all, collect_garbage,
}

found_in-diff :
    (n : NamespacedName) (a b : List NamespacedName)
    → found_in (namespaced_names_diff a b) n ≡ (found_in a n && not (found_in b n))
found_in-diff n a b = ground (
  arith,
  found_in-eq-times n (namespaced_names_diff a b),
  found_in-eq-times n a,
  found_in-eq-times n b,
  namespaced_names_diff-times n a b,
)

module _ {E O S : Type 0} (env : SyncEnv E O S) (holds : S → NamespacedName → Bool)
    (removes : (n m : NamespacedName) (s : S)
      → holds (env.delete (env.named_instance n) s).1 m ≡ (holds s m && not (same_name m n))) where
  holds-delete_all :
      (names : List NamespacedName) (m : NamespacedName) (s : S)
      → holds (delete_all env names s) m ≡ (holds s m && not (found_in names m))
  unfolding delete_all found_in
  holds-delete_all [] m s = ground arith
  holds-delete_all (n ∷ names) m s =
      ground
        (arith, removes n m s, holds-delete_all names m (env.delete (env.named_instance n) s).1)

  -- Where the cluster and the external system can be listed, the list of the latter names what it
  -- holds, and a delete removes the object of its name and no other: after `collectGarbage` the
  -- external system holds an object exactly if it held it before and the cluster has its name.
  pub collect_garbage-holds :
      {Items Item : Type 0} (client_list : S → Result E Items)
      (extract_list : Items → Result E (List Item)) (accessor : Item → Result E NamespacedName)
      (list : S → Result E (List NamespacedName) × S) (s : S) (instances : Items)
      (k_objs ext_objs : List NamespacedName)
      → client_list s ≡ ok instances
      → namespaced_names extract_list accessor instances ≡ ok k_objs
      → list s ≡ (ok ext_objs, s)
      → ((n : NamespacedName) → found_in ext_objs n ≡ holds s n)
      → (n : NamespacedName)
      → holds (collect_garbage env client_list extract_list accessor list s) n
        ≡ (holds s n && found_in k_objs n)
  collect_garbage-holds client_list extract_list accessor list s instances k_objs ext_objs listed
        names external exact n =
      ap (λ x. holds x n) run
      ∙ ground (
        arith,
        holds-delete_all (namespaced_names_diff ext_objs k_objs) n s,
        found_in-diff n ext_objs k_objs,
        exact n,
      )
    where
      run :
          collect_garbage env client_list extract_list accessor list s
          ≡ delete_all env (namespaced_names_diff ext_objs k_objs) s
      run =
          unfold collect_garbage in
          rw (listed, names, external, collect_garbage)
            (ap (λ p. delete_all env (namespaced_names_diff ext_objs k_objs) p.1) external)

with_sync_funcs-append :
    {F : Type 0} (options : List (List (SyncFunc F))) (own sfs : List (SyncFunc F))
    → with_sync_funcs (options ++ (own ∷ [])) sfs ≡ own
unfolding with_sync_funcs
with_sync_funcs-append [] own sfs = refl
with_sync_funcs-append (o ∷ options) own sfs = with_sync_funcs-append options own o

-- With a positive period the reconciler's own sync function is the only one that runs: the sync
-- functions of every option of the caller are replaced, not extended.
pub init_sync_funcs-replaces :
    {F : Type 0} (own : F) (period delay : ℕ) (options : List (List (SyncFunc F)))
    → 0 < period
    → init_sync_funcs own period delay options ≡ new_sync_func own period delay ∷ []
unfolding init_sync_funcs
init_sync_funcs-replaces own period delay options h =
    let on : ltb 0 period ≡ true = ground arith in
    rw on (with_sync_funcs-append options (new_sync_func own period delay ∷ []) [])
