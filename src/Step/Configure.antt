-- ===== src/Step/Configure.antt =====
-- `configure`: .config from the configuration of the context, and the marker .kbf-config-src that
-- lets an unchanged one be skipped.
pub mod Marker
pub mod Untouched
pub mod Again
use kernelbuild_buildkit.Common.{
  Bool, true, false, not, List, [], ◌∷◌, ◌++◌, if◌then◌else◌, Option, none, some, Bytes, codes, beq,
  is_empty, fields, join, trim_space, map,
}
use kernelbuild_buildkit.Step.Mount.{Mount, get, put}
use kernelbuild_buildkit.Step.Run.{
  StepError, no_config, make_failed, Outcome, done, failed, M, ◌>>=◌, ◌>>◌, return, fail, read,
  write, remove,
}
use kernelbuild_buildkit.Step.World.{World, Made}

abbrev pub config_name : Bytes
config_name = codes ".config"

abbrev pub marker_name : Bytes
marker_name = codes ".kbf-config-src"

abbrev pub is_same : Option Bytes → Bytes → Bool
is_same none id = false
is_same (some prev) id = beq prev id

-- `os.OpenFile(".config", os.O_APPEND|os.O_WRONLY)` and the write: the file must be there.
abbrev append_config : Bytes → Option Bytes → M (Unit {0})
append_config cfg none = fail no_config
append_config cfg (some old) = write config_name (old ++ (codes "\n" ++ cfg))

module _ (w : World) where
  abbrev pub made_of : List Bytes → Bool → Outcome (Unit {0})
  made_of args true = done tt
  made_of args false = failed (make_failed args)

  -- `runMake`
  unfoldable pub run_make : List Bytes → M (Unit {0})
  run_make args m = record {
    outcome = made_of args (w.make args m).success;
    mount = (w.make args m).left;
    trail = (w.make args m).between;
  }

  unfoldable pub arch_args : List Bytes → List Bytes
  arch_args args =
      let with_arch =
        if is_empty w.env.karch then args else args ++ ((codes "ARCH=" ++ w.env.karch) ∷ []) in
      if is_empty w.env.cross_compile
      then with_arch
      else with_arch ++ ((codes "CROSS_COMPILE=" ++ w.env.cross_compile) ∷ [])

  -- What the marker says: the targets of BASE_MAKE and the configuration.
  unfoldable pub config_id : Bytes → Bytes
  unfolding fields join
  config_id cfg = codes "base-make=" ++ (join (codes " ") (fields w.env.base_make) ++ (0 ∷ cfg))

  unfoldable pub append_fragment : Bytes → M (Unit {0})
  unfolding trim_space
  append_fragment cfg m =
      if is_empty (trim_space cfg) then return tt m else append_config cfg (get config_name m) m

  -- .config before olddefconfig.
  unfoldable pub write_config : List Bytes → Bytes → M (Unit {0})
  unfolding run_make arch_args append_fragment
  write_config [] cfg = write config_name cfg
  write_config (t ∷ ts) cfg = do run_make (arch_args (t ∷ ts)); append_fragment cfg

  unfoldable pub reconfigure : Bytes → M (Unit {0})
  unfolding write_config run_make arch_args config_id fields
  reconfigure cfg = do
    remove marker_name
    write_config (fields w.env.base_make) cfg
    run_make (arch_args (codes "olddefconfig" ∷ []))
    write marker_name (config_id cfg)

  unfoldable pub configure_with : Option Bytes → M (Unit {0})
  unfolding reconfigure config_id beq
  configure_with none m = fail no_config m
  configure_with (some cfg) m =
      if is_same (get marker_name m) (config_id cfg) then return tt m else reconfigure cfg m

  -- `configure`
  unfoldable pub configure : M (Unit {0})
  unfolding configure_with
  configure = configure_with w.kernel_config
