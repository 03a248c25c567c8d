-- ===== src/Examples/Pudod.antt =====
-- The setuid helper (src/pudod), on a system where paths have no links.
use petrush.Base.{
  ◌≡◌, ◌≢◌, refl, none, some, Option, List, [], ◌∷◌, ◌++◌, length, replicate, if◌then◌else◌,
}
use petrush.Text.{Bytes, codes, str_eq}
use petrush.Dispatch.Env.{Env, no_equals}
use petrush.Pudod.Paths.{shells, is_one_of, path_is_generic_shell}
use petrush.Pudod.AllowList.{fgets, load_lines}
use petrush.Pudod.Main.{Kernel, Exec, ◌>>=◌, guard, main, clean_envp, dangerous, sanitize}
use petrush.Pudod.Guarded.{Guarded, main-Guarded}
use petrush.Pudod.Names.{path_is_generic_shell_lem}
use petrush.Pudod.Split.{load_lines-split}

abbrev whole_list : Bytes
whole_list = codes "# root may run\n  /usr/bin/apt \n/bin/sh\n"

abbrev resolve_any : Unit {0} → Bytes → Option Bytes × Unit {0}
resolve_any w path = (some path, w)

abbrev kernel : Kernel (Unit {0})
kernel = record {
  open_list = λ w. (
    some (record { stat = some (record { mode = 33188; uid = 0 }); stream = some whole_list }),
    w,
  );
  realpath = resolve_any;
  open_target = λ w path. (some (some (record { mode = 33261; uid = 0 })), w);
  euid = 0;
}

abbrev apt : List Bytes
apt = codes "pudod" ∷ codes "/usr/bin/apt" ∷ codes "update" ∷ []

abbrev preloading : Env
preloading x = if str_eq x (codes "LD_PRELOAD") then some (codes "x.so") else none

abbrev apt_exec : Exec
apt_exec = record {
  path = codes "/usr/bin/apt";
  stat = record { mode = 33261; uid = 0 };
  argv = codes "/usr/bin/apt" ∷ codes "update" ∷ [];
  envp = clean_envp;
  own_env = sanitize dangerous preloading;
}

apt-executes : main kernel apt preloading tt ≡ some apt_exec
unfolding main ◌>>=◌ guard fgets
apt-executes = refl

shell-refused : main kernel (codes "pudod" ∷ codes "/bin/sh" ∷ []) preloading tt ≡ none
unfolding main ◌>>=◌ guard fgets
shell-refused = refl

main-Guarded_example : Guarded kernel apt preloading tt apt_exec
main-Guarded_example = main-Guarded kernel apt preloading tt apt_exec apt-executes

bash_nonempty : codes "bash" ≢ []
bash_nonempty e = cc

path_is_generic_shell_example :
    path_is_generic_shell (codes "/usr/bin" ++ codes "/" ++ codes "bash")
    ≡ some (is_one_of (codes "bash") shells)
path_is_generic_shell_example =
    path_is_generic_shell_lem (codes "/usr/bin") (codes "bash") refl bash_nonempty

preload_cleared : sanitize dangerous preloading (codes "LD_PRELOAD") ≡ none
unfolding sanitize no_equals str_eq
preload_cleared = refl

abbrev long_comment : Bytes
long_comment = replicate 4093 b'x'

abbrev with_comment : Bytes
with_comment = codes " " ++ (b'#' ∷ long_comment) ++ codes "/usr/bin/passwd"

load_lines-split_example :
    load_lines resolve_any (length with_comment) with_comment (codes "/bin/ls" ∷ []) tt
    ≡ load_lines resolve_any 15 (codes "/usr/bin/passwd") (codes "/bin/ls" ∷ []) tt
load_lines-split_example =
    load_lines-split resolve_any (codes " ") long_comment (codes "/usr/bin/passwd")
      (codes "/bin/ls" ∷ []) tt (refl, tt) refl refl

-- A path in the middle of a comment.
passwd_allowed :
    (load_lines resolve_any 1 (codes "/usr/bin/passwd") [] tt).0 ≡ codes "/usr/bin/passwd" ∷ []
unfolding load_lines fgets
passwd_allowed = refl
