-- ===== src/Main/Options.antt =====
-- What the settings of a process that starts satisfy.
use localsend_switchboard.Prelude.{
  ◌≡◌, refl, sym, subst, ite, if◌then◌else◌, codes, true, false, some, [], arith, Bytes,
  Bytes-discrete, Bool-cases, Option-cases, inl, inr,
}
use localsend_switchboard.Prelude.Int.{ℤ, pos, ◌≤ℤ◌, ltb_ℤ}
use localsend_switchboard.Configs.{
  Settings, defaults, plus_ten, max_ℤ, set_switch_peer_connect_max_retries,
  set_local_client_broadcast_interval, set_local_client_alive_check_interval,
  set_switch_data_secret, set_log_file_path, set_log_max_size_bytes, set_log_max_historical_files,
}
use localsend_switchboard.Main.{
  Flags, refused, sets_autostart, starts, is_given, log_path, sized, log_size, numbered, log_count,
  peer_retries, broadcast_interval, alive_check_interval, service_settings, select_start, configure,
}
use localsend_switchboard.Services.ProactiveBroadcaster.{set_up_proactive_broadcaster, new_ticker}
use localsend_switchboard.Std.Channel.{panicked}
use localsend_switchboard.Std.Strconv.{Parsed, ok, failed, parse_int, result}

-- A log file may have some size, the number of old ones is not negative, and a client outlives the
-- interval of its probes by ten seconds.
pub record IsValid (s : Settings) : Type 0 where
  pub size : ltb_ℤ (pos 0) s.log_max_size_bytes ≡ true
  pub count : ltb_ℤ s.log_max_historical_files (pos 0) ≡ false
  pub lives : plus_ten s.local_client_alive_check_interval ≤ℤ s.local_client_info_cache_lifetime

pub defaults-IsValid : IsValid defaults
defaults-IsValid = record { size = refl; count = refl; lives = omega arith }

max_ge : (a b : ℤ) → b ≤ℤ max_ℤ a b
max_ge a b = elim (Bool-cases (ltb_ℤ a b)) [
  | inl e ↦ rw e (omega arith)
  | inr e ↦ rw e (ground arith)
]

log_path-IsValid : (text : Bytes) (s : Settings) → IsValid s → IsValid (log_path text s)
unfolding log_path set_log_file_path
log_path-IsValid text s v = elim (Bool-cases (is_given text)) [
  | inl e ↦ rw e (record { size = v.size; count = v.count; lives = v.lives })
  | inr e ↦ rw e v
]

sized-IsValid : (r : Parsed ℤ) (s s' : Settings) → sized r s ≡ some s' → IsValid s → IsValid s'
unfolding sized set_log_max_size_bytes
sized-IsValid (failed x y) s s' e v = absurd (cc)
sized-IsValid (ok n) s s' e v = elim (Bool-cases (ltb_ℤ (pos 0) n)) [
  | inl positive ↦
      let same : set_log_max_size_bytes n s ≡ s' = ground arith in
      subst IsValid same (record { size = positive; count = v.count; lives = v.lives })
  | inr other ↦ absurd (ground arith)
]

numbered-IsValid :
    (r : Parsed ℤ) (s s' : Settings) → numbered r s ≡ some s' → IsValid s → IsValid s'
unfolding numbered set_log_max_historical_files
numbered-IsValid (failed x y) s s' e v = absurd (cc)
numbered-IsValid (ok n) s s' e v = elim (Bool-cases (ltb_ℤ n (pos 0))) [
  | inr natural ↦
      let same : set_log_max_historical_files n s ≡ s' = ground arith in
      subst IsValid same (record { size = v.size; count = natural; lives = v.lives })
  | inl other ↦ absurd (ground arith)
]

log_size-IsValid :
    (text : Bytes) (s s' : Settings) → log_size text s ≡ some s' → IsValid s → IsValid s'
unfolding log_size
log_size-IsValid text s s' e v = elim (Bool-cases (is_given text)) [
  | inl given ↦ sized-IsValid (parse_int 64 text) s s' (rw given at e) v
  | inr absent ↦ let same : s ≡ s' = ground arith in subst IsValid same v
]

log_count-IsValid :
    (text : Bytes) (s s' : Settings) → log_count text s ≡ some s' → IsValid s → IsValid s'
unfolding log_count
log_count-IsValid text s s' e v = elim (Bool-cases (is_given text)) [
  | inl given ↦ numbered-IsValid (parse_int 32 text) s s' (rw given at e) v
  | inr absent ↦ let same : s ≡ s' = ground arith in subst IsValid same v
]

service_settings-IsValid : (o : Flags) (s : Settings) → IsValid s → IsValid (service_settings o s)
unfolding service_settings peer_retries broadcast_interval alive_check_interval
    set_switch_data_secret set_switch_peer_connect_max_retries set_local_client_broadcast_interval
    set_local_client_alive_check_interval
service_settings-IsValid o s v = checked (broadcast (retries v))
  where
    retries :
        {t : Settings}
        → IsValid t
        → IsValid (peer_retries o.peer_connect_max_retries (set_switch_data_secret o.secret_key t))
    retries w = elim (Bool-cases (is_given o.peer_connect_max_retries)) [
      | inl e ↦ rw e (record { size = w.size; count = w.count; lives = w.lives })
      | inr e ↦ rw e (record { size = w.size; count = w.count; lives = w.lives })
    ]

    broadcast :
        {t : Settings} → IsValid t → IsValid (broadcast_interval o.client_broadcast_interval t)
    broadcast w = elim (Bool-cases (is_given o.client_broadcast_interval)) [
      | inl e ↦ rw e (record { size = w.size; count = w.count; lives = w.lives })
      | inr e ↦ rw e w
    ]

    checked :
        {t : Settings} → IsValid t → IsValid (alive_check_interval o.client_alive_check_interval t)
    checked {t} w = elim (Bool-cases (is_given o.client_alive_check_interval)) [
      | inl e ↦ rw e (record {
        size = w.size;
        count = w.count;
        lives =
            max_ge t.local_client_info_cache_lifetime
              (plus_ten (result (parse_int 32 o.client_alive_check_interval)));
      })
      | inr e ↦ rw e w
    ]

-- How the choice of the start ends with the services.
selected : (o : Flags) (s s' : Settings) → select_start o s ≡ starts s' → service_settings o s ≡ s'
unfolding select_start
selected o s s' e = ground arith

-- When the process starts its services from settings that satisfy this, its settings do: the size of a
-- log file is positive, the number of old ones is not negative, and a client outlives the interval of
-- its probes by ten seconds at least, whatever the options.
pub configure-IsValid :
    (o : Flags) (s s' : Settings) → IsValid s → configure o s ≡ starts s' → IsValid s'
unfolding configure
configure-IsValid o s s' v e =
    elim (Option-cases (log_size o.log_file_max_size (log_path o.log_file s))) [
      | inl none_left ↦ absurd (ground arith)
      | inr (a, ea) ↦ elim (Option-cases (log_count o.log_file_max_historical a)) [
        | inl none_left ↦ absurd (ground arith)
        | inr (b, eb) ↦
            let chosen : select_start o b ≡ starts s' = ground arith in
            let va =
              log_size-IsValid o.log_file_max_size (log_path o.log_file s) a ea
                (log_path-IsValid o.log_file s v) in
            let vb = log_count-IsValid o.log_file_max_historical a b eb va in
            subst IsValid (selected o b s' chosen) (service_settings-IsValid o b vb)
      ]
    ]

interval_set :
    (o : Flags) (s : Settings)
    → is_given o.client_broadcast_interval ≡ true
    → (service_settings o s).local_client_broadcast_interval
      ≡ result (parse_int 32 o.client_broadcast_interval)
unfolding service_settings peer_retries broadcast_interval alive_check_interval
    set_switch_data_secret set_switch_peer_connect_max_retries set_local_client_broadcast_interval
    set_local_client_alive_check_interval
interval_set o s given = ground arith

starts_services :
    (o : Flags) (s : Settings) → o.autostart ≡ [] → select_start o s ≡ starts (service_settings o s)
unfolding select_start Bytes-discrete
starts_services o s e =
    subst
      (λ a.
        ite (Bytes-discrete a (codes "enable")) (sets_autostart true) (
          ite (Bytes-discrete a (codes "disable")) (sets_autostart false)
            (if is_given a then refused else starts (service_settings o s)))
        ≡ starts (service_settings o s))
      (sym e) refl

-- A given broadcast interval that yields no positive number does not stop the process: where the options
-- of the log can be read and autostart is not given, it starts its services, and the broadcaster, if it
-- finds its IP, panics at its start.
pub configure-panics :
    (o : Flags) (s a b : Settings) (ip : Bytes)
    → is_given o.client_broadcast_interval ≡ true
    → ltb_ℤ (pos 0) (result (parse_int 32 o.client_broadcast_interval)) ≡ false
    → log_size o.log_file_max_size (log_path o.log_file s) ≡ some a
    → log_count o.log_file_max_historical a ≡ some b
    → o.autostart ≡ []
    → (s' : Settings) × (configure o s ≡ starts s')
      × (set_up_proactive_broadcaster s' (some ip) ≡ panicked)
unfolding configure set_up_proactive_broadcaster
configure-panics o s a b ip given bad size count auto = (
  service_settings o b,
  rw (size, configure) (rw (count, configure) (starts_services o b auto)),
  rw (interval_set o b given, new_ticker) (rw bad refl),
)
