-- ===== src/Config.antt =====
-- src/config.rs: the configuration and its defaults. The file system, the environment and the TOML
-- reader, which fills the `serde` defaults in, are parameters.
use skvs.Prelude.{ℕ, String, Option, none, List, [], ◌∷◌, unwrap_or}
use skvs.Error.{SkvsError, Result, ok, err, ◌>>=◌, ok_or}

pub record ServerConfig : Type 0 where
  pub id : ℕ
  pub replication_port : ℕ

pub record PeerConfig : Type 0 where
  pub address : String

pub record StorageConfig : Type 0 where
  pub base_dir : String

pub record WalConfig : Type 0 where
  pub flush_interval_secs : ℕ
  pub batch_size : ℕ

pub record HttpConfig : Type 0 where
  pub port : ℕ
  pub trusted_ips : List String
  pub secret_key : String

pub record DatabaseConfig : Type 0 where
  pub id : ℕ
  pub name : String

pub record MemoryConfig : Type 0 where
  pub max_entries_per_table : ℕ

pub record Config : Type 0 where
  pub server : ServerConfig
  pub peer : Option PeerConfig
  pub storage : StorageConfig
  pub wal : WalConfig
  pub http : HttpConfig
  pub databases : List DatabaseConfig
  pub memory : MemoryConfig

abbrev default_memory : MemoryConfig
default_memory = record { max_entries_per_table = 0 }

abbrev pub default_config : Config
default_config = record {
  server = record { id = 1; replication_port = 9999 };
  peer = none;
  storage = record { base_dir = "/var/lib/skvs" };
  wal = record { flush_interval_secs = 1; batch_size = 1000 };
  http = record { port = 3000; trusted_ips = "127.0.0.1" ∷ []; secret_key = "change-me" };
  databases = record { id = 0; name = "default" } ∷ [];
  memory = default_memory;
}

abbrev pub default_path : String
default_path = "/etc/skvs/config.toml"

module _ (read_to_string : String → Option String) (from_toml : String → Option Config) where
  unfoldable pub load_config : String → Result Config
  load_config path = ok_or (read_to_string path) SkvsError.config >>= λ contents.
      ok_or (from_toml contents) SkvsError.config

  -- `variable` is SKVS_CONFIG of the environment.
  unfoldable pub load_config_from_default : Option String → Result Config
  load_config_from_default variable = load_config (unwrap_or variable default_path)

  abbrev or_default : Result Config → Config
  or_default (ok c) = c
  or_default (err e) = default_config

  -- src/lib.rs: the configuration that `get_config` hands to the client as JSON.
  unfoldable pub get_config : Option String → Config
  get_config variable = or_default (load_config_from_default variable)
