-- ===== src/Utils/Autostart.antt =====
-- utils/autostart_linux.go: SetAutoStart over the files of the host, by path. filepath.Join, the
-- directories that the system names and what it refuses are arguments.
use localsend_switchboard.Prelude.{
  ◌≡◌, refl, Bool, true, false, Option, none, some, List, ◌++◌, arith, if◌then◌else◌, Bytes,
  Bytes-discrete, codes, ite,
}
use localsend_switchboard.Prelude.Assoc

-- Paths and their contents.
abbrev pub Paths : Type 0
Paths = List (Bytes × Bytes)

-- os.UserConfigDir, GetExactExecutablePath, filepath.Join, and whether os.MkdirAll, os.WriteFile,
-- os.Stat and os.Remove are refused.
pub record System : Type 0 where
  pub user_config_dir : Option Bytes
  pub executable_path : Option Bytes
  pub join : Bytes → Bytes → Bytes
  pub makes_dirs : Bool
  pub writes_files : Bool
  pub stats_files : Bool
  pub removes_files : Bool

unfoldable pub entry_format : Bytes → Bytes
entry_format exe =
    codes "[Desktop Entry]\nType=Application\nName=LocalSend Switch\nExec="
    ++ (exe
        ++ codes
            "\nX-GNOME-Autostart-enabled=true\nNoDisplay=true\nComment=Auto start LocalSend Switch on login\nTerminal=false\n")

abbrev pub entry_file_name : Bytes
entry_file_name = codes "localsend-switch.desktop"

unfoldable pub desktop_entry_path : System → Bytes → Bytes
desktop_entry_path sys dir = sys.join (sys.join dir (codes "autostart")) entry_file_name

-- SetAutoStart(true), in a configuration directory; the result tells whether there is no error.
unfoldable pub enable_in : System → Bytes → Paths → Bool × Paths
unfolding entry_format desktop_entry_path
enable_in sys dir files =
    if sys.makes_dirs
    then (elim sys.executable_path [
      | none ↦ (false, files)
      | some exe ↦
          if sys.writes_files
          then (
            true,
            Assoc.put Bytes-discrete (desktop_entry_path sys dir) (entry_format exe) files,
          )
          else (false, files)
    ])
    else (false, files)

-- SetAutoStart(false), in a configuration directory. Where os.Stat fails, for whatever reason, there
-- is nothing to remove.
unfoldable pub disable_in : System → Bytes → Paths → Bool × Paths
unfolding desktop_entry_path
disable_in sys dir files =
    if sys.stats_files
    then (elim (Assoc.get? Bytes-discrete (desktop_entry_path sys dir) files) [
      | none ↦ (true, files)
      | some _ ↦
          if sys.removes_files
          then (true, Assoc.delete Bytes-discrete (desktop_entry_path sys dir) files)
          else (false, files)
    ])
    else (true, files)

-- SetAutoStart
unfoldable pub set_auto_start : System → Bool → Paths → Bool × Paths
unfolding enable_in disable_in
set_auto_start sys enable files = elim sys.user_config_dir [
  | none ↦ (false, files)
  | some dir ↦ if enable then enable_in sys dir files else disable_in sys dir files
]

module _ (sys : System) (dir exe : Bytes) (at : sys.user_config_dir ≡ some dir)
    (named : sys.executable_path ≡ some exe) (makes : sys.makes_dirs ≡ true)
    (writes : sys.writes_files ≡ true) (stats : sys.stats_files ≡ true)
    (removes : sys.removes_files ≡ true) where
  enabled : Paths → Paths
  enabled files = Assoc.put Bytes-discrete (desktop_entry_path sys dir) (entry_format exe) files

  enables : (files : Paths) → set_auto_start sys true files ≡ (true, enabled files)
  unfolding set_auto_start enable_in enabled
  enables files = ground (arith, at, named, makes, writes)

  disables :
      (files : Paths)
      → Assoc.get? Bytes-discrete (desktop_entry_path sys dir) files ≡ some (entry_format exe)
      → set_auto_start sys false files
        ≡ (true, Assoc.delete Bytes-discrete (desktop_entry_path sys dir) files)
  unfolding set_auto_start disable_in
  disables files there = ground (arith, at, stats, removes, there)

  gone :
      (files : Paths) (path : Bytes)
      → Assoc.get? Bytes-discrete path
          (Assoc.delete Bytes-discrete (desktop_entry_path sys dir) (enabled files))
        ≡ ite
            (Bytes-discrete (desktop_entry_path sys dir) path)
            none
            (Assoc.get? Bytes-discrete path files)
  unfolding enabled
  gone files path = ground (
    arith,
    Assoc.get?-delete Bytes-discrete (desktop_entry_path sys dir) path
        (Assoc.put Bytes-discrete (desktop_entry_path sys dir) (entry_format exe) files),
    Assoc.get?-put Bytes-discrete (desktop_entry_path sys dir) path (entry_format exe) files,
  )

  written_entry :
      (files : Paths)
      → Assoc.get? Bytes-discrete (desktop_entry_path sys dir) (enabled files)
        ≡ some (entry_format exe)
  unfolding enabled
  written_entry files =
      Assoc.get?-put_own Bytes-discrete (desktop_entry_path sys dir) (entry_format exe) files

  -- Where the system refuses nothing, enabling succeeds and writes the entry of the executable over
  -- what was at its path, and disabling then succeeds and leaves every other path as it was before.
  pub set_auto_start-set_auto_start :
      (files : Paths) (path : Bytes)
      → ((set_auto_start sys true files).0 ≡ true)
        × (Assoc.get? Bytes-discrete (desktop_entry_path sys dir) (set_auto_start sys true files).1
            ≡ some (entry_format exe))
        × ((set_auto_start sys false (set_auto_start sys true files).1).0 ≡ true)
        × (Assoc.get? Bytes-discrete path
              (set_auto_start sys false (set_auto_start sys true files).1).1
            ≡ ite
                (Bytes-discrete (desktop_entry_path sys dir) path)
                none
                (Assoc.get? Bytes-discrete path files))
  set_auto_start-set_auto_start files path =
      let there = written_entry files in
      let disabled = disables (enabled files) there in
      rw (enables files) (refl, there, rw disabled refl, rw disabled (gone files path))
