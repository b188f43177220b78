-- ===== src/Informers/Shared.antt =====
-- cache/informer/informersmap.go, `Get`: the informers that the calls get.
use operator_toolkit.Prelude.{
  ℕ, ◌≤◌, String, Bool, true, false, some, ◌≡◌, refl, sym, arith, ap, ◌∙◌, all, lookup, get_elem?,
  some_inv,
}
use operator_toolkit.Informers.{MapEntry, Phase, System, new_system, Reach}
use operator_toolkit.Informers.Once.{times_run}
use operator_toolkit.Informers.Held.{gvk_of, held, AllHeld-at, Reach-IsKept}

module _ {E : Type 0} where
  -- However the calls of `Get` and the start of the map interleave: two calls for the same kind that
  -- have got an informer got the same one, and it is that kind's.
  pub get-shares :
      (namespace : String) (s : System E)
      → Reach (new_system namespace) s
      → (i j : ℕ) (p q : Phase E) (e f : MapEntry) (on on' : Bool) → get_elem? s.calls i ≡ some p
      → get_elem? s.calls j ≡ some q
      → gvk_of p ≡ gvk_of q
      → held p ≡ some (e, on)
      → held q ≡ some (f, on')
      → (e ≡ f) × (e.group_version_kind ≡ gvk_of p)
  get-shares namespace s r i j p q e f on on' at at' same hp hq =
      let (once, all_held) = Reach-IsKept namespace r in
      let (there, _) = AllHeld-at s.informers s.calls i p all_held at e on hp in
      let (there', _) = AllHeld-at s.informers s.calls j q all_held at' f on' hq in
      (
        some_inv (sym there ∙ ap (λ k. lookup k s.informers.informers_by_gvk) same ∙ there'),
        once.named (gvk_of p) e there,
      )

  -- However the calls of `Get` and the start of the map interleave: no informer is run twice, each is
  -- run with the stop channel set, none is run before the map is started, and an informer that a call
  -- got from a started map is run.
  pub get-runs_once :
      (namespace : String) (s : System E)
      → Reach (new_system namespace) s
      → ((n : ℕ) → times_run n s.informers ≤ 1)
        × (all (λ r. r.1) s.informers.runs ≡ true)
        × (s.informers.started ≡ false → (n : ℕ) → times_run n s.informers ≡ 0)
        × ((i : ℕ) (p : Phase E) (e : MapEntry)
            → get_elem? s.calls i ≡ some p
            → held p ≡ some (e, true)
            → times_run e.informer s.informers ≡ 1)
  get-runs_once namespace s r =
      let (once, all_held) = Reach-IsKept namespace r in
      (
        (λ n. ground (arith, once.run_once n)),
        once.stoppable,
        (λ idle n. ground (arith, idle, once.run_once n)),
        λ i p e at hp.
            let (there, on) = AllHeld-at s.informers s.calls i p all_held at e true hp in
            ground (arith, on refl, once.run_once e.informer, once.made (gvk_of p) e there),
      )
