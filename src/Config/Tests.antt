-- ===== src/Config/Tests.antt =====
-- internal/config/config.go with a DSN in the environment and no file.
use netdata_postgres_mcp.Base.{ℤ, ℕ, [], Option, none, if◌then◌else◌}
use netdata_postgres_mcp.Base.Text.{Bytes, str, eq_str}
use netdata_postgres_mcp.Config.{Config, load}
use netdata_postgres_mcp.Config.Load.{IsLoaded, load-IsLoaded}

abbrev environment : Bytes → Bytes
environment name =
    if eq_str name (str "POSTGRES_DSN")
    then str "postgres://db"
    else if eq_str name (str "NODE_ID")
    then str "n1"
    else []

abbrev no_file : Bytes → Option Bytes
no_file path = none

abbrev no_yaml : Bytes → Config → Option Config
no_yaml contents cfg = none

abbrev no_int : Bytes → Option ℤ
no_int s = none

abbrev no_float : Bytes → Option ℕ
no_float s = none

load-IsLoaded_example :
    IsLoaded no_file no_yaml environment no_int no_float
      (load no_file no_yaml environment no_int no_float [])
load-IsLoaded_example = load-IsLoaded no_file no_yaml environment no_int no_float []
