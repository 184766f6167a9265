-- ===== src/Config.antt =====
-- tftpos/config.py: the configuration, the host rules and a profile, out of what the TOML library reads
-- from a file. A table is the same as a JSON object; numbers are natural, and a path is its text. A
-- value of another type than its field declares counts as an error, where the source keeps it.
pub mod Read
pub mod Settings
pub mod Hosts
pub mod Schemes
use tftp_os.Result.{Error, Result, ok, raise, value_error}
use tftp_os.Json.{Fields}

-- What opening and reading a file gives: its table, an error of its form, or one of the system.
pub data TomlFile : Type 0 where
  table : Fields → TomlFile
  malformed : TomlFile
  unreadable : Error → TomlFile

-- The table for load_config, which turns both errors into a ValueError.
abbrev pub config_table : TomlFile → Result Fields
config_table (table fields) = ok fields
config_table malformed = raise value_error
config_table (unreadable e) = raise value_error

-- The table for load_hosts and load_profile, which let the error of the system through.
abbrev pub data_table : TomlFile → Result Fields
data_table (table fields) = ok fields
data_table malformed = raise value_error
data_table (unreadable e) = raise e
