-- ===== src/Informers/Held.antt =====
-- cache/informer/informersmap.go, `Get`: what a call has got is in the map, whatever the moves.
use operator_toolkit.Prelude.{
  ℕ, zero, suc, String, Bool, true, Option, none, some, List, [], ◌∷◌, ◌++◌, ◌≡◌, inl, inr, refl,
  sym, arith, ok, err, lookup, insert, lookup-insert, get_elem?, eq_iff, Bool-cases, Option-cases,
  Result-cases, subst, some_inv,
}
use operator_toolkit.Informers.{
  MapEntry, InformersMap, start_informers, start_section, scope_of_cache, insert_informer, Choice,
  add_informer_to_map, found, refused, timed_out, Phase, getting, adding, waiting, answered,
  sync_wait, advance, System, new_system, Step, calls_get, starts, moves, Reach, here, next,
}
use operator_toolkit.Informers.Once.{
  IsOnce, new_informers_map-IsOnce, start_informers-IsOnce, insert_informer-IsOnce,
}

-- The map has kept its entries, and is started if it was.
abbrev pub IsLater : InformersMap → InformersMap → Type 0
IsLater m m' =
    ((k : String) (e : MapEntry)
      → lookup k m.informers_by_gvk ≡ some e
      → lookup k m'.informers_by_gvk ≡ some e)
    × (m.started ≡ true → m'.started ≡ true)

missing_insert :
    (gvk k : String) (e f : MapEntry) (m : InformersMap)
    → lookup gvk m.informers_by_gvk ≡ none
    → lookup k m.informers_by_gvk ≡ some f
    → lookup k (insert gvk e m.informers_by_gvk) ≡ some f
missing_insert gvk k e f m missing at =
    ground (arith, missing, at, lookup-insert gvk k e m.informers_by_gvk, eq_iff gvk k)

insert_informer_lem :
    (gvk : String) (m : InformersMap)
    → lookup gvk m.informers_by_gvk ≡ none
    → IsLater m (insert_informer gvk m)
      × (lookup gvk (insert_informer gvk m).informers_by_gvk
          ≡ some (record {
            informer = m.created;
            group_version_kind = gvk;
            scope_name = scope_of_cache m.namespace;
          }))
unfolding insert_informer
insert_informer_lem gvk m missing =
    let e : MapEntry = record {
      informer = m.created;
      group_version_kind = gvk;
      scope_name = scope_of_cache m.namespace;
    } in
    (
      ((λ k f at. missing_insert gvk k e f m missing at), λ on. on),
      ground (arith, lookup-insert gvk gvk e m.informers_by_gvk, eq_iff gvk gvk),
    )

module _ {E : Type 0} where
  abbrev pub gvk_of : Phase E → String
  gvk_of (getting gvk) = gvk
  gvk_of (adding gvk) = gvk
  gvk_of (waiting gvk i started) = gvk
  gvk_of (answered gvk a) = gvk

  -- The entry that a call has got, and whether the map was started by then.
  abbrev pub held : Phase E → Option (MapEntry × Bool)
  held (getting gvk) = none
  held (adding gvk) = none
  held (waiting gvk i started) = some (i, started)
  held (answered gvk (found i started)) = some (i, started)
  held (answered gvk (refused e)) = none
  held (answered gvk timed_out) = none

  -- What a call has got is in the map under the call's name.
  abbrev pub IsHeld : InformersMap → Phase E → Type 0
  IsHeld m p =
      (e : MapEntry) (started : Bool)
      → held p ≡ some (e, started)
      → (lookup (gvk_of p) m.informers_by_gvk ≡ some e) × (started ≡ true → m.started ≡ true)

  abbrev pub AllHeld : InformersMap → List (Phase E) → Type 0
  AllHeld m [] = Unit
  AllHeld m (p ∷ ps) = IsHeld m p × AllHeld m ps

  AllHeld-later :
      (m m' : InformersMap) (ps : List (Phase E)) → IsLater m m' → AllHeld m ps → AllHeld m' ps
  AllHeld-later m m' [] l h = tt
  AllHeld-later m m' (p ∷ ps) l (h, hs) = (
    (λ e st is. let (at, on) = h e st is in (l.0 (gvk_of p) e at, λ x. l.1 (on x))),
    AllHeld-later m m' ps l hs,
  )

  AllHeld-split :
      (m : InformersMap) (before after : List (Phase E))
      → AllHeld m (before ++ after)
      → AllHeld m before × AllHeld m after
  AllHeld-split m [] after h = (tt, h)
  AllHeld-split m (p ∷ ps) after (h, hs) = let (b, a) = AllHeld-split m ps after hs in ((h, b), a)

  AllHeld-append :
      (m : InformersMap) (before after : List (Phase E))
      → AllHeld m before
      → AllHeld m after
      → AllHeld m (before ++ after)
  AllHeld-append m [] after b a = a
  AllHeld-append m (p ∷ ps) after (h, b) a = (h, AllHeld-append m ps after b a)

  pub AllHeld-at :
      (m : InformersMap) (ps : List (Phase E)) (i : ℕ) (p : Phase E)
      → AllHeld m ps
      → get_elem? ps i ≡ some p
      → IsHeld m p
  AllHeld-at m [] i p h at = absurd (ground (arith, at))
  AllHeld-at m (q ∷ ps) zero p (h, hs) at = subst (IsHeld m) (some_inv at) h
  AllHeld-at m (q ∷ ps) (suc i) p (h, hs) at = AllHeld-at m ps i p hs at

  add-there :
      (c : Choice E) (gvk : String) (m : InformersMap) (i : MapEntry)
      → lookup gvk m.informers_by_gvk ≡ some i
      → add_informer_to_map c gvk m ≡ (ok (i, m.started), m)
  unfolding add_informer_to_map
  add-there c gvk m i there = rw (there, add_informer_to_map) refl

  add-refused :
      (c : Choice E) (gvk : String) (m : InformersMap) (x : E)
      → lookup gvk m.informers_by_gvk ≡ none
      → c.list_watcher ≡ some x
      → add_informer_to_map c gvk m ≡ (err x, m)
  unfolding add_informer_to_map
  add-refused c gvk m x missing bad = rw (missing, bad, add_informer_to_map) refl

  add-new :
      (c : Choice E) (gvk : String) (m : InformersMap)
      → lookup gvk m.informers_by_gvk ≡ none
      → c.list_watcher ≡ none
      → add_informer_to_map c gvk m ≡ (
        ok (
          record {
            informer = m.created;
            group_version_kind = gvk;
            scope_name = scope_of_cache m.namespace;
          },
          m.started,
        ),
        insert_informer gvk m,
      )
  unfolding add_informer_to_map
  add-new c gvk m missing good = rw (missing, good, add_informer_to_map) refl

  -- `addInformerToMap` keeps the map well, and what it returns is in it.
  add_informer_to_map-keeps :
      (c : Choice E) (gvk : String) (m : InformersMap)
      → IsOnce m
      → IsOnce (add_informer_to_map c gvk m).1
        × IsLater m (add_informer_to_map c gvk m).1
        × ((e : MapEntry) (started : Bool)
            → (add_informer_to_map c gvk m).0 ≡ ok (e, started)
            → (lookup gvk (add_informer_to_map c gvk m).1.informers_by_gvk ≡ some e)
              × (started ≡ true → (add_informer_to_map c gvk m).1.started ≡ true))
  add_informer_to_map-keeps c gvk m k = elim (Option-cases (lookup gvk m.informers_by_gvk)) [
    | inr (i, there) ↦
        rw (add-there c gvk m i there)
          (k, ((λ j e at. at), λ on. on), λ e st h. ground (arith, h, there))
    | inl missing ↦ elim (Option-cases c.list_watcher) [
      | inr (x, bad) ↦
          rw (add-refused c gvk m x missing bad)
            (k, ((λ j e at. at), λ on. on), λ e st h. absurd (ground (arith, h)))
      | inl good ↦
          let (later, there) = insert_informer_lem gvk m missing in
          rw (add-new c gvk m missing good) (
            insert_informer-IsOnce gvk m missing k,
            later,
            λ e st h. ground (arith, h, there, later.1),
          )
    ]
  ]

  -- One move of a call.
  advance-keeps :
      (c : Choice E) (p : Phase E) (m : InformersMap)
      → IsOnce m
      → IsHeld m p
      → IsOnce (advance c p m).1
        × IsLater m (advance c p m).1
        × IsHeld (advance c p m).1 (advance c p m).0
  unfolding advance sync_wait
  advance-keeps c (getting gvk) m k h = (
    k,
    ((λ j e at. at), λ on. on),
    λ e st is. elim (Option-cases (lookup gvk m.informers_by_gvk)) [
      | inl missing ↦ absurd (ground (arith, is, missing))
      | inr (i, there) ↦ ground (arith, is, there)
    ],
  )
  advance-keeps c (adding gvk) m k h =
      let (once, later, got) = add_informer_to_map-keeps c gvk m k in
      (
        once,
        later,
        λ e st is. elim (Result-cases (add_informer_to_map c gvk m).0) [
          | inr (x, bad) ↦ absurd (ground (arith, is, bad))
          | inl ((i, on), good) ↦ ground (arith, is, good, got i on good)
        ],
      )
  advance-keeps c (waiting gvk i started) m k h =
      (k, ((λ j e at. at), λ on. on), λ e st is. ground (arith, is, h i started refl))
  advance-keeps c (answered gvk a) m k h = (k, ((λ j e at. at), λ on. on), h)

  -- The invariant of every system that is reached.
  abbrev pub IsKept : System E → Type 0
  IsKept s = IsOnce s.informers × AllHeld s.informers s.calls

  Step-IsKept : {s t : System E} → Step s t → IsKept s → IsKept t
  unfolding start_section start_informers
  Step-IsKept (calls_get s gvk) (k, h) = (k, ((λ e st is. absurd (ground (arith, is))), h))
  Step-IsKept (starts s m on) (k, h) = elim (Bool-cases s.informers.started) [
    | inl again ↦ absurd (ground (arith, on, again))
    | inr idle ↦
        let is : start_informers s.informers ≡ m = some_inv (ground (arith, on, idle)) in
        rw (sym is) (
          start_informers-IsOnce s.informers idle k,
          AllHeld-later s.informers (start_informers s.informers) s.calls
              ((λ j e at. at), λ o. refl) h,
        )
  ]
  Step-IsKept (moves m before after p c) (k, h) =
      let (hb, (hp, ha)) = AllHeld-split m before (p ∷ after) h in
      let (once, later, held') = advance-keeps c p m k hp in
      let m' = (advance c p m).1 in
      (
        once,
        AllHeld-append m' before ((advance c p m).0 ∷ after) (AllHeld-later m m' before later hb)
            (held', AllHeld-later m m' after later ha),
      )

  pub Reach-IsKept : (namespace : String) {s : System E} → Reach (new_system namespace) s → IsKept s
  Reach-IsKept namespace here = (new_informers_map-IsOnce namespace, tt)
  Reach-IsKept namespace (next r st) = Step-IsKept st (Reach-IsKept namespace r)
