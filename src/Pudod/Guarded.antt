-- ===== src/Pudod/Guarded.antt =====
-- What holds whenever the helper executes a program.
use petrush.Base.{
  if◌then◌else◌, ℕ, ◌+◌, ◌≤◌, ◌<◌, ◌≡◌, refl, sym, ◌∙◌, ap, subst, Bool, true, false, Option, none,
  some, List, [], ◌∷◌, ◌==◌, ltb, arith, length, Bool-cases, inl, inr, some-inj,
}
use petrush.Text.{Bytes}
use petrush.Pudod.Paths.{
  Stat, is_trusted, is_absolute, target_is_root_exec, is_one_of, max_args, build_child_argv,
}
use petrush.Pudod.AllowList.{ListFile, is_allowed}
use petrush.Pudod.Main.{
  Kernel, Exec, dangerous, ◌>>=◌, guard, clean_envp, command_arg, answered, load_stream,
  load_allow_list, open_checked, run_allowed, main,
}
use petrush.Dispatch.Env.{Env, env_name}
use petrush.Pudod.Names.{sanitize_lem}
use petrush.Pudod.Admitted.{All, All-is_one_of, Admitted, load_lines-Admitted}

module _ {A B : Type 0} where
  bind-some :
      (o : Option A) (f : A → Option B) (b : B)
      → (o >>= f) ≡ some b
      → (a : A) × (o ≡ some a) × (f a ≡ some b)
  unfolding ◌>>=◌
  bind-some none f b h = absurd cc
  bind-some (some a) f b h = (a, refl, h)

guard-true : (b : Bool) → guard b ≡ some tt → b ≡ true
unfolding guard
guard-true true h = refl
guard-true false h = absurd cc

answered-some :
    {A W : Type 0} (r : Option A × W) (a : A) (w : W) → answered r ≡ some (a, w) → r ≡ (some a, w)
answered-some (none, v) a w h = absurd cc
answered-some (some b, v) a w h = let e = some-inj h in ap (λ x. (some x.0, x.1)) e

-- The path in the place of the command, with all arguments behind it, within the bounds.
pub record Vector (argv : List Bytes) (path : Bytes) (cap : ℕ) (child : List Bytes) : Type 0 where
  pub prog : Bytes
  pub cmd : Bytes
  pub args : List Bytes
  pub given : argv ≡ prog ∷ cmd ∷ args
  pub made : child ≡ path ∷ args
  pub bounded : length args ≤ max_args
  pub fits : length child < cap

-- A vector that is accepted is the resolved path and all of the user's arguments, which fit.
pub build_child_argv_lem :
    (argv : List Bytes) (path : Bytes) (cap : ℕ) (child : List Bytes)
    → build_child_argv argv path cap ≡ some child
    → Vector argv path cap child
unfolding build_child_argv
build_child_argv_lem [] path cap child h = absurd cc
build_child_argv_lem (prog ∷ []) path cap child h = absurd cc
build_child_argv_lem (prog ∷ cmd ∷ args) path cap child h = elim (Bool-cases (ltb cap 2)) [
  | inl small ↦ absurd (ground arith)
  | inr _ ↦ elim (Bool-cases (ltb max_args (length args))) [
    | inl many ↦ absurd (ground arith)
    | inr few ↦ elim (Bool-cases (ltb cap (length args + 2))) [
      | inl tight ↦ absurd (ground arith)
      | inr fits ↦
          let e : child ≡ path ∷ args = ground arith in
          record {
            prog = prog;
            cmd = cmd;
            args = args;
            given = refl;
            made = e;
            bounded = ground arith;
            fits = subst (λ c. length c < cap) (sym e) (ground arith);
          }
    ]
  ]
]

module _ {W : Type 0} (k : Kernel W) where
  -- The list that was read: its file, which only root can write, and a path in it.
  pub record Listed (w : W) (path : Bytes) : Type 0 where
    pub file : ListFile
    pub opened : (k.open_list w).0 ≡ some file
    pub st : Stat
    pub status : file.stat ≡ some st
    pub trusted : is_trusted st ≡ true
    pub text : Bytes
    pub content : file.stream ≡ some text
    pub admitted : Admitted k.realpath text path

  -- What stands behind an execution.
  pub record Guarded (argv : List Bytes) (env : Env) (w : W) (x : Exec) : Type 0 where
    pub as_root : (k.euid == 0) ≡ true
    pub cmd : Bytes
    pub asked : command_arg argv ≡ some cmd
    pub absolute : is_absolute cmd ≡ true
    pub at_resolve : W
    pub resolved : (k.realpath at_resolve cmd).0 ≡ some x.path
    pub listed : Listed w x.path
    pub at_open : W
    pub opened : (k.open_target at_open x.path).0 ≡ some (some x.stat)
    pub root_exec : target_is_root_exec x.stat ≡ true
    pub vector : Vector argv x.path (max_args + 2) x.argv
    pub clean : x.envp ≡ clean_envp
    pub own :
        (name : Bytes)
        → env_name name ≡ true
        → x.own_env name ≡ (if is_one_of name dangerous then none else env name)

  load_allow_list-some :
      (w w' : W) (text : Bytes) (allowed : List Bytes)
      → load_allow_list k w ≡ some (text, allowed, w')
      → (path : Bytes) → is_allowed path allowed ≡ true
      → Listed w path
  unfolding load_allow_list is_allowed
  load_allow_list-some w w' text allowed h path is_in =
      let ((file, w1), e1, h1) = bind-some (answered (k.open_list w)) _ _ h in
      let (st, e2, h2) = bind-some file.stat _ _ h1 in
      let (_, e3, h3) = bind-some (guard (is_trusted st)) _ _ h2 in
      let (text', e4, h4) = bind-some file.stream _ _ h3 in
      let all = load_lines-Admitted k.realpath (length text') text' w1 in
      let list : (load_stream k text' w1).0 ≡ allowed = ap (λ r. r.1) (some-inj h4) in
      record {
        file = file;
        opened = ap (λ r. r.0) (answered-some (k.open_list w) file w1 e1);
        st = st;
        status = e2;
        trusted = guard-true (is_trusted st) e3;
        text = text';
        content = e4;
        admitted =
            All-is_one_of (Admitted k.realpath text') path allowed
              (subst (All (Admitted k.realpath text')) list all) is_in;
      }

  open_checked-some :
      (path : Bytes) (w w' : W) (st : Stat)
      → open_checked k path w ≡ some (st, w')
      → ((k.open_target w path).0 ≡ some (some st)) × (target_is_root_exec st ≡ true)
  unfolding open_checked
  open_checked-some path w w' st h =
      let ((file, w1), e1, h1) = bind-some (answered (k.open_target w path)) _ _ h in
      let (st', e2, h2) = bind-some file _ _ h1 in
      let (_, e3, h3) = bind-some (guard (target_is_root_exec st')) _ _ h2 in
      let same : st' ≡ st = ap (λ r. r.0) (some-inj h3) in
      (
        ap (λ r. r.0) (answered-some (k.open_target w path) file w1 e1)
            ∙ ap some (e2 ∙ ap some same),
        ap target_is_root_exec (sym same) ∙ guard-true (target_is_root_exec st') e3,
      )

  -- The helper executes a program only as root; only if the command is an absolute path that `realpath`
  -- resolved to the program's path; only if that path comes from a line of the list, in a file that
  -- belongs to root and that nobody else may write, and the entry of the line was no shell; and only
  -- if the file that was opened is a regular executable file of root. The program gets its own path
  -- and all arguments of the user as they were, 128 at most, and a fixed environment; out of
  -- its own environment the helper has taken the dangerous names by then, and no other.
  pub main-Guarded :
      (argv : List Bytes) (env : Env) (w : W) (x : Exec)
      → main k argv env w ≡ some x
      → Guarded argv env w x
  unfolding main run_allowed
  main-Guarded argv env w x h =
      let ((text, allowed, w1), e1, h1) = bind-some (load_allow_list k w) _ _ h in
      let (_, e2, h2) = bind-some (guard (k.euid == 0)) _ _ h1 in
      let (cmd, e3, h3) = bind-some (command_arg argv) _ _ h2 in
      let (_, e4, h4) = bind-some (guard (is_absolute cmd)) _ _ h3 in
      let ((path, w2), e5, h5) = bind-some (answered (k.realpath w1 cmd)) _ _ h4 in
      let (_, e6, h6) = bind-some (guard (is_allowed path allowed)) _ _ h5 in
      let ((st, w3), e7, h7) = bind-some (open_checked k path w2) _ _ h6 in
      let (child, e8, h8) = bind-some (build_child_argv argv path (max_args + 2)) _ _ h7 in
      let (opened, root_exec) = open_checked-some path w2 w3 st e7 in
      subst (Guarded argv env w) (some-inj h8) (record {
        as_root = guard-true (k.euid == 0) e2;
        cmd = cmd;
        asked = e3;
        absolute = guard-true (is_absolute cmd) e4;
        at_resolve = w1;
        resolved = ap (λ r. r.0) (answered-some (k.realpath w1 cmd) path w2 e5);
        listed =
            load_allow_list-some w w1 text allowed e1 path
              (guard-true (is_allowed path allowed) e6);
        at_open = w2;
        opened = opened;
        root_exec = root_exec;
        vector = build_child_argv_lem argv path (max_args + 2) child e8;
        clean = refl;
        own = λ name valid. sanitize_lem dangerous name env valid;
      })
