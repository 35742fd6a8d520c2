-- ===== src/Process/Started.antt =====
-- src/lib.rs: what the first `init` of a process leaves for the later ones.
use skvs.Prelude.{String, true, ◌≡◌, refl, inl, inr, Option, unwrap_or}
use skvs.Error.{SkvsError, Result, ok, err}
use skvs.Externs.{Externs}
use skvs.Config.{Config, load_config, default_path}
use skvs.Sql.Dml.Quiet.{Result-cases}
use skvs.Process.{
  Host, Reply, done, failed, runtime_already_set, new_process, init, restored_state, start, engine,
}

-- What every later call answers, by what the first did.
abbrev pub answer_after : Reply (Unit {0}) → Reply (Unit {0})
answer_after (done u) = done tt
answer_after (failed e) = failed runtime_already_set

module _ (x : Externs) where
  abbrev loaded : Host → Option String → Result Config
  loaded host path = load_config host.read_to_string host.from_toml (unwrap_or path default_path)

  init-loaded :
      (host : Host) (path : Option String) (config : Config)
      → host.runtime_ok ≡ true
      → loaded host path ≡ ok config
      → init x host path new_process ≡ start x host config (record new_process { runtime = true })
  unfolding init restored_state
  init-loaded host path config h e = rw (h, e, init) refl

  init-not_loaded :
      (host : Host) (path : Option String) (e : SkvsError)
      → host.runtime_ok ≡ true
      → loaded host path ≡ err e
      → init x host path new_process ≡ (failed (engine e), record new_process { runtime = true })
  unfolding init
  init-not_loaded host path e h k = rw (h, k, init) refl

  -- Where a runtime can be made, every init after the first of a process succeeds if the first
  -- did, fails as the runtime is already set if the first failed, whatever the configuration is by
  -- then, and leaves the process as it is.
  pub init-init :
      (host later : Host) (path later_path : Option String)
      → host.runtime_ok ≡ true
      → later.runtime_ok ≡ true
      → let (r, p) = init x host path new_process in init x later later_path p ≡ (answer_after r, p)
  unfolding init
  init-init host later path later_path h k = elim (Result-cases (loaded host path)) [
    | inl (config, e) ↦ rw (init-loaded host path config h e) refl
    | inr (c, e) ↦ rw (init-not_loaded host path c h e) (rw (k, init) refl)
  ]
