-- ===== src/Informers/Samples.antt =====
-- Two calls that both miss the informer of a kind, and the map that is started between their moves.
use operator_toolkit.Prelude.{
  ℕ, ◌≤◌, String, true, false, none, some, [], ◌∷◌, ◌≡◌, refl, all, get_elem?, ok, err,
}
use operator_toolkit.Informers.{
  MapEntry, scope_root, new_informers_map, start_informers, start_section, scope_of_cache,
  insert_informer, add_informer_to_map, Choice, Phase, getting, adding, waiting, answered, found,
  sync_wait, advance, System, new_system, calls_get, starts, moves, Reach, here, next,
  object_key_to_store_key, reader_key, cache_answer,
}
use operator_toolkit.Informers.Once.{times_run}
use operator_toolkit.Informers.Held.{held}
use operator_toolkit.Informers.Shared.{get-shares, get-runs_once}

abbrev games : String
games = "app.example.com/v1, Kind=Game"

-- The list watcher is created, and the wait for the sync succeeds.
abbrev synced : Choice String
synced = record { list_watcher = none; has_synced = false; waited = true }

abbrev entry : MapEntry
entry = record { informer = 0; group_version_kind = games; scope_name = scope_root }

abbrev missed : System String
missed = record { informers = new_informers_map ""; calls = adding games ∷ adding games ∷ [] }

abbrev both : System String
both = record {
  informers = insert_informer games (start_informers (new_informers_map ""));
  calls = answered games (found entry true) ∷ waiting games entry true ∷ [];
}

both_miss : Reach (new_system "") missed
unfolding advance new_informers_map
both_miss =
    next
      (next
        (next (next here (calls_get (new_system "") games)) (
          calls_get (record { informers = new_informers_map ""; calls = getting games ∷ [] })
            games))
        (moves (new_informers_map "") (getting games ∷ []) [] (getting games) synced))
      (moves (new_informers_map "") [] (adding games ∷ []) (getting games) synced)

both_get : Reach (new_system "") both
unfolding advance add_informer_to_map insert_informer start_informers start_section
    new_informers_map scope_of_cache sync_wait
both_get =
    let m = start_informers (new_informers_map "") in
    let m' = insert_informer games m in
    next
      (next
        (next (next both_miss (starts missed m refl))
          (moves m [] (adding games ∷ []) (adding games) synced))
        (moves m' (waiting games entry true ∷ []) [] (adding games) synced))
      (moves m' [] (waiting games entry true ∷ []) (waiting games entry true) synced)

-- A reader at the scope of the cluster drops the namespace of a key.
keys :
    (reader_key entry "arcade" "pong" ≡ "pong")
    × (object_key_to_store_key "arcade" "pong" ≡ "arcade/pong")
    × (cache_answer {E = String} {A = String} "not started" "timeout"
          (λ e. ok "read")
          (found entry false)
        ≡ err "not started")
unfolding reader_key object_key_to_store_key cache_answer
keys = (refl, refl, refl)

get-shares_example : (entry ≡ entry) × (games ≡ games)
get-shares_example =
    get-shares "" both both_get 0 1 (answered games (found entry true)) (waiting games entry true)
      entry entry true true refl refl refl refl refl

get-runs_once_example :
    ((n : ℕ) → times_run n both.informers ≤ 1)
    × (all (λ r. r.1) both.informers.runs ≡ true)
    × (both.informers.started ≡ false → (n : ℕ) → times_run n both.informers ≡ 0)
    × ((i : ℕ) (p : Phase String) (e : MapEntry)
        → get_elem? both.calls i ≡ some p
        → held p ≡ some (e, true)
        → times_run e.informer both.informers ≡ 1)
get-runs_once_example = get-runs_once "" both both_get
