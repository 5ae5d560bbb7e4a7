-- ===== src/Main.antt =====
-- main.go: what the options make of the settings, and whether the process starts. The options are the
-- texts of the flags, with the environment variables as their defaults; an empty text is an option that
-- is not given. What the system refuses (the working directory, the log file) is left out.
pub mod Options
pub mod Launch
use localsend_switchboard.Prelude.{
  Bool, true, false, Option, none, some, ite, ◌==◌, if◌then◌else◌, Bytes, Bytes-discrete, codes,
  length,
}
use localsend_switchboard.Prelude.Int.{ℤ, pos, ltb_ℤ}
use localsend_switchboard.Configs.{
  Settings, set_switch_peer_connect_max_retries, set_local_client_broadcast_interval,
  set_local_client_alive_check_interval, set_switch_data_secret, set_log_file_path,
  set_log_max_size_bytes, set_log_max_historical_files,
}
use localsend_switchboard.Std.Strconv.{Parsed, ok, failed, parse_int, result}

pub record Flags : Type 0 where
  pub log_file : Bytes
  pub log_file_max_size : Bytes
  pub log_file_max_historical : Bytes
  pub autostart : Bytes
  pub secret_key : Bytes
  pub peer_connect_max_retries : Bytes
  pub client_broadcast_interval : Bytes
  pub client_alive_check_interval : Bytes

-- How `main` goes on: it returns, it changes the autostart entry and returns, or it starts the services.
pub data Start : Type 0 where
  refused : Start
  sets_autostart : Bool → Start
  starts : Settings → Start

abbrev pub is_given : Bytes → Bool
is_given text = if length text == 0 then false else true

unfoldable pub log_path : Bytes → Settings → Settings
log_path text s = if is_given text then set_log_file_path text s else s

sized : Parsed ℤ → Settings → Option Settings
sized (failed _ _) s = none
sized (ok size) s = if ltb_ℤ (pos 0) size then some (set_log_max_size_bytes size s) else none

-- The size must be a positive number of 64 bits.
unfoldable pub log_size : Bytes → Settings → Option Settings
unfolding sized
log_size text s = if is_given text then sized (parse_int 64 text) s else some s

numbered : Parsed ℤ → Settings → Option Settings
numbered (failed _ _) s = none
numbered (ok count) s =
    if ltb_ℤ count (pos 0) then none else some (set_log_max_historical_files count s)

-- The number of old files must be a number of 32 bits that is not negative.
unfoldable pub log_count : Bytes → Settings → Option Settings
unfolding numbered
log_count text s = if is_given text then numbered (parse_int 32 text) s else some s

-- These three are set also where they are no valid numbers, which is only logged.
unfoldable pub peer_retries : Bytes → Settings → Settings
peer_retries text s =
    if is_given text then set_switch_peer_connect_max_retries (result (parse_int 32 text)) s else s

unfoldable pub broadcast_interval : Bytes → Settings → Settings
broadcast_interval text s =
    if is_given text then set_local_client_broadcast_interval (result (parse_int 32 text)) s else s

unfoldable pub alive_check_interval : Bytes → Settings → Settings
alive_check_interval text s =
    if is_given text
    then set_local_client_alive_check_interval (result (parse_int 32 text)) s
    else s

-- The settings of the services, once nothing can be refused.
unfoldable pub service_settings : Flags → Settings → Settings
unfolding peer_retries broadcast_interval alive_check_interval
service_settings o s = alive_check_interval o.client_alive_check_interval (
    broadcast_interval o.client_broadcast_interval
      (peer_retries o.peer_connect_max_retries (set_switch_data_secret o.secret_key s)))

-- The autostart option, and the settings that the services start with.
unfoldable pub select_start : Flags → Settings → Start
unfolding service_settings
select_start o s = ite (Bytes-discrete o.autostart (codes "enable")) (sets_autostart true) (
    ite (Bytes-discrete o.autostart (codes "disable")) (sets_autostart false)
      (if is_given o.autostart then refused else starts (service_settings o s)))

unfoldable pub configure : Flags → Settings → Start
unfolding log_path log_size log_count select_start
configure o s = elim (log_size o.log_file_max_size (log_path o.log_file s)) [
  | none ↦ refused
  | some s' ↦ elim (log_count o.log_file_max_historical s') [
    | none ↦ refused
    | some s'' ↦ select_start o s''
  ]
]
