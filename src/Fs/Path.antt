-- ===== src/Fs/Path.antt =====
-- The path walk of src/fs/path.c.
--
-- `name` is the list of the characters that are left. Every loop of the walk drops at least one
-- character a round and takes fuel; so do the walks along a chain of dentries or mounts.
pub mod Resolve
pub mod Goes
pub mod Steps
pub mod Names
pub mod Added
pub mod Made
mod Tests
use nsos.Prelude.{
  ℕ, zero, suc, ◌+◌, Bool, true, false, not, ◌&&◌, ◌||◌, bit_or, List, [], ◌∷◌, ◌==◌, if◌then◌else◌,
  length,
}
use nsos.Machine.{
  Ptr, null, Env, Run, done, stop, panic, hang, pure, halt, modify, gets, ◌>>=◌, ◌>>◌,
}
use nsos.CString.{strlen, strncmp}
use nsos.Acl.{has, check_acl, r_ok, w_ok}
use nsos.Fs.State.{
  Driver, Dentry, Kernel, NameiData, current_thread, put_dentry, put_inode, pmm_alloc, pmm_free,
  sizeof_dentry,
}
use nsos.Fs.Dentry.{d_drop}
use nsos.Fs.Driver.{
  d_revalidate, has_d_revalidate, alloc_inode, destroy_inode, lookup, create, mkdir,
}

abbrev pub slash : ℕ
slash = 47

abbrev pub dot : ℕ
dot = 46

abbrev pub lookup_directory : ℕ
lookup_directory = 1

abbrev pub is_nil : List ℕ → Bool
is_nil [] = true
is_nil (c ∷ s) = false

-- `while (*name == '/') name++;`
unfoldable pub skip_slashes : List ℕ → List ℕ
skip_slashes [] = []
skip_slashes (c ∷ s) = let rest = skip_slashes s in if c == slash then rest else c ∷ s

-- The characters before the next slash, and what follows them.
unfoldable pub part : List ℕ → List ℕ
part [] = []
part (c ∷ s) = let rest = part s in if c == slash then [] else c ∷ rest

unfoldable pub after_part : List ℕ → List ℕ
after_part [] = []
after_part (c ∷ s) = let rest = after_part s in if c == slash then c ∷ s else rest

abbrev pub is_absolute : List ℕ → Bool
is_absolute [] = false
is_absolute (c ∷ s) = c == slash

abbrev pub at : Ptr → Ptr → NameiData
at d m = record { dentry = d; mnt = m }

-- Where the walk of `name` begins.
abbrev pub start_of : List ℕ → Kernel → NameiData
start_of name s =
    let t = current_thread s in if is_absolute name then at t.root t.rootmnt else at t.pwd t.pwdmnt

abbrev pub is_dot : List ℕ → Bool
is_dot (c ∷ []) = c == dot
is_dot _ = false

abbrev pub is_dotdot : List ℕ → Bool
is_dotdot (c ∷ d ∷ []) = c == dot && d == dot
is_dotdot _ = false

unfoldable pub follow_dotdot : NameiData → Kernel → NameiData
follow_dotdot nd s =
    let d = s.dentries nd.dentry in
    if nd.dentry == s.root_dentry
    then nd
    else if d.parent == nd.dentry
    then record {
      dentry = (s.dentries (s.mounts nd.mnt).mountpoint).parent;
      mnt = (s.mounts nd.mnt).parent;
    }
    else record nd { dentry = d.parent }

-- The mount whose mount point is `d`, from `mntit` on; NULL if there is none.
unfoldable pub find_mount : ℕ → (mntit d : Ptr) → Run Kernel Ptr
find_mount zero mntit d s = stop hang s
find_mount (suc fuel) mntit d s =
    let rest = find_mount fuel (s.mounts mntit).next d s in
    if mntit == null
    then done null s
    else if (s.mounts mntit).mountpoint == d
    then done mntit s
    else rest

abbrev pub has_name : List ℕ → Dentry → Bool
has_name name d = strlen d.iname == strlen name && strncmp d.iname name (strlen name) == 0

-- The dentry of that name in the chain from `denit` on, or NULL.
unfoldable pub find_child : ℕ → (denit : Ptr) → List ℕ → Run Kernel Ptr
unfolding strncmp
find_child zero denit name s = stop hang s
find_child (suc fuel) denit name s =
    let rest = find_child fuel (s.dentries denit).child name s in
    if denit == null
    then done null s
    else if has_name name (s.dentries denit)
    then done denit s
    else rest

-- The test of `do_lookup` before it uses a dentry that it has found.
abbrev pub is_valid : Driver → Bool
is_valid drv = has_d_revalidate drv || d_revalidate drv == 0

-- A dentry that was found: it is entered, and if it is a mount point, what is mounted there.
unfoldable pub enter : ℕ → Ptr → NameiData → Run Kernel NameiData
unfolding find_mount
enter fuel denit nd s =
    let d = s.dentries denit in
    let crossed = (do
      mntit ← find_mount fuel s.mnt_head denit
      m ← gets (λ k. k.mounts mntit)
      if mntit == null then halt panic else pure (at m.root mntit)) in
    if d.isdir && not (d.mounted == 0) then crossed s else done (record nd { dentry = denit }) s

module _ (env : Env) (fuel : ℕ) where
  abbrev pub new_dentry : List ℕ → (name_at parent : Ptr) → Dentry → Driver → Dentry → Dentry
  new_dentry name name_at parent up drv old = record old {
    iname = name;
    iname_at = name_at;
    inode = null;
    parent = parent;
    child = up.child;
    subdirs = null;
    mounted = 0;
    op = drv;
  }

  -- A fresh dentry goes to the head of the chain of its parent.
  abbrev pub link : (denit up : Ptr) → Kernel → Kernel
  link denit up s =
      let s' = put_dentry denit (record (s.dentries denit) { child = (s.dentries up).subdirs }) s in
      put_dentry up (record (s'.dentries up) { subdirs = denit }) s'

  -- The slower lookup, through the driver of the directory. The result says whether it failed.
  unfoldable pub ask_driver : List ℕ → NameiData → Run Kernel (Bool × NameiData)
  ask_driver name nd = do
    up ← gets (λ k. k.dentries nd.dentry)
    drv ← gets (λ k. (k.mounts nd.mnt).fs)
    op ← gets (λ k. (k.inodes up.inode).op)
    denit ← pmm_alloc env sizeof_dentry
    let give_up = (do
      p ← gets (λ k. (k.dentries denit).iname_at)
      pmm_free p
      pmm_free denit
      pure (true, nd))
    let ask = (do
      name_at ← pmm_alloc env (strlen name + 1)
      let fill = (do
        modify
            (λ k. put_dentry denit (new_dentry name name_at nd.dentry up drv (k.dentries denit)) k)
        newinode ← alloc_inode env drv
        if newinode == null then give_up else do
          found ← lookup env op newinode denit
          if found == null
              then destroy_inode newinode >> give_up
              else (modify (link denit nd.dentry) >> pure (false, record nd { dentry = denit })))
      if name_at == null then pure (true, nd) else fill)
    if denit == null then pure (true, nd) else ask

  -- True if `name` is not found.
  unfoldable pub do_lookup : List ℕ → NameiData → Run Kernel (Bool × NameiData)
  unfolding find_child ask_driver enter
  do_lookup name nd = do
    first ← gets (λ k. (k.dentries nd.dentry).subdirs)
    denit ← find_child fuel first name
    drv ← gets (λ k. (k.dentries denit).op)
    if denit == null
        then ask_driver name nd
        else if is_valid drv
        then enter fuel denit nd >>= (λ nd'. pure (false, nd'))
        else (d_drop fuel denit >> ask_driver name nd)

  abbrev pub Found : Type 0
  Found = Ptr × NameiData

  -- The rounds of the `for (;;)` of `path_lookup`.
  unfoldable pub walk : ℕ → (flags : ℕ) → List ℕ → NameiData → Run Kernel Found
  walk zero flags name nd = halt hang
  walk (suc rounds) flags name nd =
      let tail = skip_slashes (after_part name) in
      let flags' =
        if not (is_nil (after_part name)) && is_nil tail
        then bit_or flags lookup_directory
        else flags in
      let go_on : NameiData → Run Kernel Found = λ nd'.
        let next = walk rounds flags' tail nd' in
        if is_nil tail then pure (nd'.dentry, nd') else next in
      let look : Run Kernel Found = do
        (missing, nd') ← do_lookup (part name) nd
        d ← gets (λ k. k.dentries nd'.dentry)
        (if missing
            then pure (null, nd')
            else if d.isdir
            then go_on nd'
            else if not (is_nil tail) || has flags' lookup_directory
            then pure (null, nd')
            else pure (nd'.dentry, nd'))
      in if is_dotdot (part name)
        then gets (follow_dotdot nd) >>= go_on
        else if is_dot (part name)
        then go_on nd
        else look

  -- The dentry of the path, or NULL; with it the walk's last position.
  unfoldable pub path_lookup : List ℕ → (flags : ℕ) → Run Kernel Found
  unfolding walk
  path_lookup name flags = do
    nd ← gets (start_of name)
    let tail = skip_slashes name
    if is_nil tail then pure (nd.dentry, nd) else walk (length name) flags tail nd

  -- The new inode and dentry of `make_path`, in the directory `nd.dentry`; NULL if the caller may
  -- not write there or the driver refuses.
  unfoldable pub make_entry : List ℕ → (dir : Bool) → (mode : ℕ) → NameiData → Run Kernel Ptr
  make_entry name dir mode nd = do
    t ← gets current_thread
    up ← gets (λ k. k.dentries nd.dentry)
    over ← gets (λ k. k.inodes up.inode)
    drv ← gets (λ k. (k.mounts nd.mnt).fs)
    let build = (do
      ip ← alloc_inode env drv
      modify (λ k.
          put_inode ip (record (k.inodes ip) { uid = t.uid; gid = t.gid; acl = mode; op = drv }) k)
      dp ← pmm_alloc env sizeof_dentry
      name_at ← pmm_alloc env (strlen name + 1)
      modify (λ k.
          put_dentry dp
            (record (new_dentry name name_at nd.dentry up drv (k.dentries dp)) { inode = ip }) k)
      refused ← (if dir then mkdir drv ip dp else create drv ip dp)
      if refused == 0
          then (modify (link dp nd.dentry) >> pure dp)
          else (destroy_inode ip >> (pmm_free dp >> pure null)))
    if check_acl t.uid t.gid over.uid over.gid over.acl (r_ok + w_ok) == 0 then build else pure null

  -- The rounds of the `for (;;)` of `make_path`.
  unfoldable pub make_walk : ℕ → (flags mode : ℕ) → List ℕ → NameiData → Run Kernel Found
  make_walk zero flags mode name nd = halt hang
  make_walk (suc rounds) flags mode name nd =
      let tail = skip_slashes (after_part name) in
      let last_part = is_nil tail in
      let want_dir = has flags lookup_directory in
      let next : NameiData → Run Kernel Found = λ nd'. make_walk rounds flags mode tail nd' in
      let dots : NameiData → Run Kernel Found = λ nd'.
        let more = next nd' in
        if last_part then if want_dir then pure (nd'.dentry, nd') else pure (null, nd') else more in
      let arrive : NameiData → Run Kernel Found = λ nd'. do
        d ← gets (λ k. k.dentries nd'.dentry)
        let more = next nd'
        if not last_part
            then if d.isdir then more else pure (null, nd')
            else if d.isdir && not want_dir
            then pure (null, nd')
            else if not d.isdir && want_dir
            then pure (null, nd')
            else pure (nd'.dentry, nd')
      in let add : NameiData → Run Kernel Found = λ nd'. do
        dp ← make_entry (part name) (not (last_part && not want_dir)) mode nd'
        if dp == null then pure (null, nd') else arrive (record nd' { dentry = dp })
        in let look : Run Kernel Found = do
          (missing, nd') ← do_lookup (part name) nd
          if missing then add nd' else arrive nd'
          in if not (is_nil (after_part name)) && last_part && not want_dir
            then pure (null, nd)
            else if is_dotdot (part name)
            then gets (follow_dotdot nd) >>= dots
            else if is_dot (part name)
            then dots nd
            else look

  unfoldable pub make_path : List ℕ → (flags mode : ℕ) → Run Kernel Found
  unfolding make_walk make_entry
  make_path name flags mode = do
    nd ← gets (start_of name)
    let tail = skip_slashes name
    if is_nil tail
        then if has flags lookup_directory then pure (nd.dentry, nd) else pure (null, nd)
        else make_walk (length name) flags mode tail nd
