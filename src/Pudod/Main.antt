-- ===== src/Pudod/Main.antt =====
-- `main` of the helper (src/pudod/pudod.c) and src/pudod/target_open.c. Between any two of its calls
-- the world may change; `none` is the exit with status 1.
use petrush.Base.{ℕ, ◌+◌, Bool, true, false, Option, none, some, List, [], ◌∷◌, ◌==◌, length}
use petrush.Text.{Bytes, codes}
use petrush.Dispatch.Env.{Env, unsetenv}
use petrush.Pudod.Paths.{
  Stat, is_trusted, is_absolute, target_is_root_exec, max_args, build_child_argv,
}
use petrush.Pudod.AllowList.{ListFile, load_lines, is_allowed}

-- The calls of the system: the list's file and the target are opened by path, and the status of an
-- opened target is `none` where `fstat` fails.
pub record Kernel (W : Type 0) : Type 0 where
  pub open_list : W → Option ListFile × W
  pub realpath : W → Bytes → Option Bytes × W
  pub open_target : W → Bytes → Option (Option Stat) × W
  pub euid : ℕ

-- The call of `fexecve`: the path that was opened, the status of the open file, both vectors, and the
-- helper's own environment at that time.
pub record Exec : Type 0 where
  pub path : Bytes
  pub stat : Stat
  pub argv : List Bytes
  pub envp : List Bytes
  pub own_env : Env

infixl 5 ◌>>=◌
unfoldable pub ◌>>=◌ : {A B : Type 0} → Option A → (A → Option B) → Option B
none >>= f = none
some a >>= f = f a

unfoldable pub guard : Bool → Option (Unit {0})
guard true = some tt
guard false = none

abbrev pub clean_envp : List Bytes
clean_envp =
    codes "PATH=/usr/local/sbin:/usr/local/bin:/usr/sbin:/usr/bin:/sbin:/bin"
    ∷ codes "TERM=xterm-256color"
    ∷ codes "HOME=/root"
    ∷ codes "USER=root"
    ∷ codes "LOGNAME=root"
    ∷ codes "SHELL=/bin/sh"
    ∷ []

-- `argv[1]`.
abbrev pub command_arg : List Bytes → Option Bytes
command_arg [] = none
command_arg (prog ∷ []) = none
command_arg (prog ∷ cmd ∷ args) = some cmd

-- An answer of the system, with the world behind it.
abbrev pub answered : {A W : Type 0} → Option A × W → Option (A × W)
answered (none, w) = none
answered (some a, w) = some (a, w)

-- The names that the helper takes out of its own environment before it reads its arguments.
abbrev pub dangerous : List Bytes
dangerous =
    codes "LD_PRELOAD"
    ∷ codes "LD_LIBRARY_PATH"
    ∷ codes "LD_AUDIT"
    ∷ codes "LD_DEBUG"
    ∷ codes "LD_ORIGIN_PATH"
    ∷ codes "LD_PROFILE"
    ∷ codes "PYTHONPATH"
    ∷ codes "PERL5LIB"
    ∷ codes "PERL5OPT"
    ∷ codes "RUBYLIB"
    ∷ codes "RUBYOPT"
    ∷ codes "NODE_PATH"
    ∷ codes "GOPATH"
    ∷ codes "JAVA_TOOL_OPTIONS"
    ∷ codes "_JAVA_OPTIONS"
    ∷ codes "CLASSPATH"
    ∷ codes "IFS"
    ∷ codes "CDPATH"
    ∷ codes "ENV"
    ∷ codes "BASH_ENV"
    ∷ codes "SHELLOPTS"
    ∷ codes "GTK_PATH"
    ∷ codes "GDK_PIXBUF_MODULE_FILE"
    ∷ codes "QT_PLUGIN_PATH"
    ∷ []

unfoldable pub sanitize : List Bytes → Env → Env
unfolding unsetenv
sanitize [] env = env
sanitize (name ∷ names) env = sanitize names (unsetenv name env)

module _ {W : Type 0} (k : Kernel W) where
  -- Behind the checks of the file.
  abbrev pub load_stream : Bytes → W → List Bytes × W
  load_stream text w = load_lines k.realpath (length text) text [] w

  -- With the file's text, which the theorems speak of.
  unfoldable pub load_allow_list : W → Option (Bytes × List Bytes × W)
  unfolding load_lines
  load_allow_list w = answered (k.open_list w) >>= λ (file, w'). file.stat >>= λ st.
      guard (is_trusted st) >>= λ _.
      file.stream >>= λ text. some (text, (load_stream text w').0, (load_stream text w').1)

  -- The target, opened and checked.
  unfoldable pub open_checked : Bytes → W → Option (Stat × W)
  unfolding target_is_root_exec
  open_checked path w = answered (k.open_target w path) >>= λ (file, w').
      file >>= λ st. guard (target_is_root_exec st) >>= λ _. some (st, w')

  -- From the number of arguments on.
  unfoldable pub run_allowed : List Bytes → List Bytes → Env → W → Option Exec
  unfolding open_checked is_allowed build_child_argv
  run_allowed argv allowed env w = command_arg argv >>= λ cmd. guard (is_absolute cmd) >>= λ _.
      answered (k.realpath w cmd) >>= λ (resolved, w'). guard (is_allowed resolved allowed) >>= λ _.
      open_checked resolved w' >>= λ (st, w'').
      build_child_argv argv resolved (max_args + 2) >>= λ child.
      some (record { path = resolved; stat = st; argv = child; envp = clean_envp; own_env = env })

  unfoldable pub main : List Bytes → Env → W → Option Exec
  unfolding load_allow_list run_allowed sanitize
  main argv env w = load_allow_list w >>= λ (text, allowed, w').
      guard (k.euid == 0) >>= λ _. run_allowed argv allowed (sanitize dangerous env) w'
