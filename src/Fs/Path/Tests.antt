-- ===== src/Fs/Path/Tests.antt =====
-- Tests of src/fs/path.c.
use nsos.Prelude.{
  ℕ, not, ◌≡◌, ◌≢◌, refl, true, false, ◌||◌, List, [], ◌∷◌, arith, ◌==◌, if◌then◌else◌,
}
use nsos.Machine.{Ptr, done, null}
use nsos.CString.{strncmp}
use nsos.Fs.State.{Kernel, kvfs, procfs}
use nsos.Fs.Path.{slash, dot, at, do_lookup, make_path, path_lookup}
use nsos.Fs.Path.Resolve.{IsPart, IsName, spell, Holds, do_lookup-Holds}
use nsos.Fs.Path.Goes.{HoldsMount, Resolves, stays, to_upper, to_mounted}
use nsos.Fs.Path.Steps.{path_lookup-Resolves}
use nsos.Acl.{check_acl}
use nsos.Fs.Path.Added.{IsFresh, Lacks}
use nsos.Fs.Path.Made.{make_path-path_lookup}
use nsos.Kmt.State.{scan}
use nsos.Example.{env, kernel}

-- "dev" and "dot"
abbrev dev : List ℕ
dev = 100 ∷ 101 ∷ 118 ∷ []

abbrev dotted : List ℕ
dotted = 100 ∷ 111 ∷ 116 ∷ []

-- The directory 11 in the root 10, and the file 12 in it.
abbrev tree : Kernel
tree = record kernel {
  dentries = λ p. record (kernel.dentries p) {
    iname = if p == 11 then dev else if p == 12 then dotted else [];
    subdirs = if p == 10 then 11 else if p == 11 then 12 else 0;
    isdir = p == 11;
  };
}

-- The directory is one of the process file system, whose dentries are never valid.
abbrev proc_tree : Kernel
proc_tree = record tree { dentries = λ p. record (tree.dentries p) { op = procfs } }

proc-Holds : Holds 4 proc_tree 10 dev 11
unfolding strncmp
proc-Holds = record {
  chain = 11 ∷ [];
  linked = (refl, omega arith, refl);
  short = omega arith;
  named = refl;
  found = omega arith;
  bare = refl;
}

do_lookup-Holds_example :
    do_lookup env 4 dev (at 10 40) proc_tree ≡ done (false, at 11 40) proc_tree
do_lookup-Holds_example = do_lookup-Holds env 4 proc_tree (at 10 40) dev 11 proc-Holds

-- The root directory 20 of another file system is mounted on 11.
abbrev mounted_tree : Kernel
mounted_tree = record tree {
  dentries = λ p. record (tree.dentries p) {
    parent = if p == 11 then 10 else p;
    mounted = if p == 11 then 1 else 0;
    isdir = p == 10 || p == 11 || p == 20;
  };
  mounts = λ m. record {
    count = 1;
    root = if m == 41 then 20 else 10;
    mountpoint = if m == 41 then 11 else 10;
    parent = if m == 41 then 40 else null;
    next = if m == 41 then 40 else null;
    fs = kvfs;
  };
  mnt_head = 41;
}

dev-HoldsMount : HoldsMount 4 mounted_tree 10 dev 11 41
unfolding strncmp
dev-HoldsMount = record {
  chain = 11 ∷ [];
  linked = (refl, omega arith, refl);
  short = omega arith;
  named = refl;
  found = omega arith;
  isdir = refl;
  mounted = omega arith;
  mounts = 41 ∷ 40 ∷ [];
  mounts_linked = (refl, omega arith, (refl, omega arith, refl));
  mounts_short = omega arith;
  first = refl;
  some_mount = omega arith;
}

dev-IsPart : IsPart dev
dev-IsPart = record { full = refl; plain = (omega arith, (omega arith, (omega arith, tt))) }

dot-IsPart : IsPart (dot ∷ [])
dot-IsPart = record { full = refl; plain = (omega arith, tt) }

dotdot-IsPart : IsPart (dot ∷ dot ∷ [])
dotdot-IsPart = record { full = refl; plain = (omega arith, (omega arith, tt)) }

-- "dev/./../dev"
dev-Resolves :
    Resolves 4 mounted_tree (at 10 40) dev ((dot ∷ []) ∷ (dot ∷ dot ∷ []) ∷ dev ∷ []) (at 20 41)
dev-Resolves = (
  at 20 41,
  to_mounted refl refl dev-HoldsMount,
  refl,
  (
    at 20 41,
    stays refl refl,
    refl,
    (at 10 40, to_upper refl (omega arith) refl, refl, to_mounted refl refl dev-HoldsMount),
  ),
)

path_lookup-Resolves_example :
    path_lookup env 4 (slash ∷ spell dev ((dot ∷ []) ∷ (dot ∷ dot ∷ []) ∷ dev ∷ [])) 0 mounted_tree
    ≡ done (20, at 20 41) mounted_tree
path_lookup-Resolves_example =
    path_lookup-Resolves env 4 mounted_tree true dev ((dot ∷ []) ∷ (dot ∷ dot ∷ []) ∷ dev ∷ [])
      (at 20 41) (dev-IsPart, (dot-IsPart, (dotdot-IsPart, (dev-IsPart, tt)))) dev-Resolves

-- The tree with a node free, and "log".
abbrev free_tree : Kernel
free_tree = record tree {
  kvfs_files = λ i. record { inuse = not (i == 2); start = null; end = null };
}

abbrev log : List ℕ
log = 108 ∷ 111 ∷ 103 ∷ []

log-IsName : IsName log
log-IsName = record {
  full = refl;
  plain = (omega arith, (omega arith, (omega arith, tt)));
  no_dot = refl;
  no_dotdot = refl;
}

env-IsFresh : IsFresh env 10 20
env-IsFresh = record {
  some_ptr = λ calls n. ground arith;
  off_d = λ calls n. ground arith;
  off_i = λ calls n. ground arith;
}

log-Lacks : Lacks env 4 10 20 env-IsFresh log 40 free_tree
unfolding strncmp check_acl scan
log-Lacks = record {
  chain = 11 ∷ [];
  linked = (refl, omega arith, refl);
  short = omega arith;
  unnamed = refl;
  inode = refl;
  driver = refl;
  mounted = refl;
  allowed = refl;
  some_node = omega arith;
}

make_path-path_lookup_example :
    (dp : Ptr) × (s' : Kernel) × (make_path env 4 (slash ∷ log) 0 0x755 free_tree
      ≡ done (dp, at dp 40) s')
    × (path_lookup env 4 (slash ∷ log) 0 s' ≡ done (dp, at dp 40) s')
    × (dp ≢ null)
    × ((s'.dentries dp).isdir ≡ false)
make_path-path_lookup_example =
    make_path-path_lookup env 4 10 20 env-IsFresh true log 0x755 40 free_tree log-IsName refl
      log-Lacks
