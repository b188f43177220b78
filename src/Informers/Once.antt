-- ===== src/Informers/Once.antt =====
-- cache/informer/informersmap.go: what holds of the map however its calls and its start interleave.
use operator_toolkit.Prelude.{
  ℕ, String, Bool, true, false, ◌&&◌, ◌==◌, none, some, List, [], ◌∷◌, ◌++◌, ◌≡◌, inl, inr, refl,
  arith, ap, if◌then◌else◌, map, all, lookup, insert, lookup-insert, count_if, count_if-append,
  nat_eq, ltb, eq_iff, Bool-cases,
}
use operator_toolkit.Informers.{
  MapEntry, InformersMap, new_informers_map, start_informers, scope_of_cache, insert_informer,
}

abbrev pub times_run : ℕ → InformersMap → ℕ
times_run i m = count_if (λ r. nat_eq r.0 i) m.runs

-- What the map keeps: its entries are those of their keys, there is one for each informer made, and
-- an informer runs once, with the stop channel, as soon as the map is started.
pub record IsOnce (m : InformersMap) : Type 0 where
  pub named :
      (k : String) (e : MapEntry) → lookup k m.informers_by_gvk ≡ some e → e.group_version_kind ≡ k
  pub made :
      (k : String) (e : MapEntry)
      → lookup k m.informers_by_gvk ≡ some e
      → ltb e.informer m.created ≡ true
  pub one_each :
      (i : ℕ)
      → count_if (λ e. nat_eq e.1.informer i) m.informers_by_gvk
        ≡ (if ltb i m.created then 1 else 0)
  pub run_once : (i : ℕ) → times_run i m ≡ (if m.started && ltb i m.created then 1 else 0)
  pub stoppable : all (λ r. r.1) m.runs ≡ true
  pub stop_set : m.stop ≡ m.started

pub new_informers_map-IsOnce : (namespace : String) → IsOnce (new_informers_map namespace)
unfolding new_informers_map
new_informers_map-IsOnce namespace = record {
  named = λ k e h. absurd (ground (arith, h));
  made = λ k e h. absurd (ground (arith, h));
  one_each = λ i. ground arith;
  run_once = λ i. refl;
  stoppable = refl;
  stop_set = refl;
}

all-append :
    (xs ys : List (ℕ × Bool)) → all (λ r. r.1) (xs ++ ys) ≡ (all (λ r. r.1) xs && all (λ r. r.1) ys)
all-append [] ys = refl
all-append (x ∷ xs) ys = ground (arith, all-append xs ys)

count-started :
    (i : ℕ) (entries : List (String × MapEntry))
    → count_if {A = ℕ × Bool} (λ r. nat_eq r.0 i) (map (λ e. (e.1.informer, true)) entries)
      ≡ count_if (λ e. nat_eq e.1.informer i) entries
count-started i [] = refl
count-started i (e ∷ entries) = ground (arith, count-started i entries)

all-started :
    (entries : List (String × MapEntry))
    → all {A = ℕ × Bool} (λ r. r.1) (map (λ e. (e.1.informer, true)) entries) ≡ true
all-started [] = refl
all-started (e ∷ entries) = all-started entries

pub start_informers-IsOnce :
    (m : InformersMap) → m.started ≡ false → IsOnce m → IsOnce (start_informers m)
unfolding start_informers
start_informers-IsOnce m idle k = record {
  named = k.named;
  made = k.made;
  one_each = k.one_each;
  run_once = λ i. ground (
    arith,
    idle,
    k.run_once i,
    k.one_each i,
    count-started i m.informers_by_gvk,
    count_if-append (λ r. nat_eq r.0 i) m.runs (map (λ e. (e.1.informer, true)) m.informers_by_gvk),
  );
  stoppable = ground (
    arith,
    k.stoppable,
    all-started m.informers_by_gvk,
    all-append m.runs (map (λ e. (e.1.informer, true)) m.informers_by_gvk),
  );
  stop_set = refl;
}

insert-new :
    (k : String) (v : MapEntry) (entries : List (String × MapEntry))
    → lookup k entries ≡ none
    → insert k v entries ≡ entries ++ ((k, v) ∷ [])
insert-new k v [] h = refl
insert-new k v ((j, w) ∷ entries) h = elim (Bool-cases (j == k)) [
  | inl is ↦ absurd (ground (arith, h, is))
  | inr other ↦ rw other (ap (λ l. (j, w) ∷ l) (insert-new k v entries (ground (arith, h, other))))
]

pub insert_informer-IsOnce :
    (gvk : String) (m : InformersMap)
    → lookup gvk m.informers_by_gvk ≡ none
    → IsOnce m
    → IsOnce (insert_informer gvk m)
unfolding insert_informer
insert_informer-IsOnce gvk m missing k =
    let e : MapEntry = record {
      informer = m.created;
      group_version_kind = gvk;
      scope_name = scope_of_cache m.namespace;
    } in
    record {
      named = λ j f h.
          ground (arith, h, lookup-insert gvk j e m.informers_by_gvk, eq_iff gvk j, k.named j f);
      made = λ j f h. ground (arith, h, lookup-insert gvk j e m.informers_by_gvk, k.made j f);
      one_each = λ i. rw (insert-new gvk e m.informers_by_gvk missing) (
          ground (
            arith,
            k.one_each i,
            count_if-append (λ x. nat_eq x.1.informer i) m.informers_by_gvk ((gvk, e) ∷ []),
          ));
      run_once = λ i. ground (
        arith,
        k.run_once i,
        count_if-append (λ r. nat_eq r.0 i) m.runs ((m.created, m.stop) ∷ []),
      );
      stoppable =
          ground (arith, k.stoppable, k.stop_set, all-append m.runs ((m.created, m.stop) ∷ []));
      stop_set = k.stop_set;
    }
