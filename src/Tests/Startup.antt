-- ===== src/Tests/Startup.antt =====
-- Options at concrete values.
use localsend_switchboard.Prelude.Assoc
use localsend_switchboard.Utils.Autostart.{
  Paths, System, entry_format, desktop_entry_path, set_auto_start, set_auto_start-set_auto_start,
}
use localsend_switchboard.Prelude.{
  ◌≡◌, refl, true, false, none, some, ite, [], ◌∷◌, ◌++◌, Bytes, Bytes-discrete, codes,
}
use localsend_switchboard.Prelude.Int.{pos}
use localsend_switchboard.Configs.{
  Settings, defaults, set_local_client_broadcast_interval, set_local_client_alive_check_interval,
  set_switch_data_secret,
}
use localsend_switchboard.Main.{Flags, starts, configure, log_size, log_count, log_path}
use localsend_switchboard.Main.Options.{
  IsValid, defaults-IsValid, configure-IsValid, configure-panics,
}
use localsend_switchboard.Services.ProactiveBroadcaster.{set_up_proactive_broadcaster}
use localsend_switchboard.Std.Channel.{panicked}
use localsend_switchboard.Std.Strconv.{parse_int}

-- Only the two intervals are given.
abbrev intervals : Bytes → Bytes → Flags
intervals broadcast check = record {
  log_file = [];
  log_file_max_size = [];
  log_file_max_historical = [];
  autostart = [];
  secret_key = [];
  peer_connect_max_retries = [];
  client_broadcast_interval = broadcast;
  client_alive_check_interval = check;
}

abbrev slow : Settings
slow = record defaults {
  local_client_alive_check_interval = pos 90;
  local_client_info_cache_lifetime = pos 100;
}

abbrev zero_broadcast : Settings
zero_broadcast = record defaults { local_client_broadcast_interval = pos 0 }

starts_slow : configure (intervals [] (codes "90")) defaults ≡ starts slow
unfolding configure parse_int set_local_client_alive_check_interval set_switch_data_secret
    Bytes-discrete
starts_slow = refl

starts_zero : configure (intervals (codes "soon") []) defaults ≡ starts zero_broadcast
unfolding configure parse_int set_local_client_broadcast_interval set_switch_data_secret
    Bytes-discrete
starts_zero = refl

configure-IsValid_example : IsValid slow
configure-IsValid_example =
    configure-IsValid (intervals [] (codes "90")) defaults slow defaults-IsValid starts_slow

configure-panics_example :
    (s' : Settings) × (configure (intervals (codes "soon") []) defaults ≡ starts s')
    × (set_up_proactive_broadcaster s' (some (10 ∷ 0 ∷ 0 ∷ 1 ∷ [])) ≡ panicked)
unfolding parse_int log_size log_count log_path
configure-panics_example =
    configure-panics (intervals (codes "soon") []) defaults defaults defaults (10 ∷ 0 ∷ 0 ∷ 1 ∷ [])
      refl refl refl refl refl

-- A host whose directories are in `/h`, and whose system refuses nothing.
abbrev home : System
home = record {
  user_config_dir = some (codes "/h");
  executable_path = some (codes "/x");
  join = λ a b. a ++ codes "/" ++ b;
  makes_dirs = true;
  writes_files = true;
  stats_files = true;
  removes_files = true;
}

abbrev other_entry : Paths
other_entry = (codes "/h/other", codes "o") ∷ []

set_auto_start-set_auto_start_example :
    ((set_auto_start home true other_entry).0 ≡ true)
    × (Assoc.get? Bytes-discrete
          (desktop_entry_path home (codes "/h"))
          (set_auto_start home true other_entry).1
        ≡ some (entry_format (codes "/x")))
    × ((set_auto_start home false (set_auto_start home true other_entry).1).0 ≡ true)
    × (Assoc.get? Bytes-discrete
          (codes "/h/other")
          (set_auto_start home false (set_auto_start home true other_entry).1).1
        ≡ ite
            (Bytes-discrete (desktop_entry_path home (codes "/h")) (codes "/h/other"))
            none
            (Assoc.get? Bytes-discrete (codes "/h/other") other_entry))
set_auto_start-set_auto_start_example =
    set_auto_start-set_auto_start home (codes "/h") (codes "/x") refl refl refl refl refl refl
      other_entry (codes "/h/other")
