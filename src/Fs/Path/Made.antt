-- ===== src/Fs/Path/Made.antt =====
-- A file that `make_path` of src/fs/path.c makes, and the lookup of its path.
use nsos.Prelude.{ℕ, suc, ◌<◌, ◌≡◌, ◌≢◌, refl, ◌∙◌, Bool, true, false, List, [], ◌∷◌, arith, length}
use nsos.Machine.{alloc_call, Ptr, null, Env, done, state_of}
use nsos.Fs.State.{Kernel, NameiData, sizeof_dentry, sizeof_inode}
use nsos.Fs.Kvfs.{kvfs_max_file, free_node}
use nsos.Fs.Path.{at, do_lookup, make_entry, make_walk, make_path, path_lookup, slash, skip_slashes}
use nsos.Fs.Path.Resolve.{IsName, part_last, skip_nil, skip_slash, skip_spell, IsName-IsPart}
use nsos.Fs.Path.Goes.{start, text}
use nsos.Fs.Path.Steps.{walk-last, down, relative-spell}
use nsos.Fs.Path.Added.{
  IsFresh, Alike, Lacks, Entered, do_lookup-missing, make_entry-Entered, do_lookup-Entered,
  start-Entered, not_leb,
}

module _ (env : Env) (fuel : ℕ) (d i : Ptr) (fresh : IsFresh env d i) where
  make_entry-missing :
      (n : List ℕ) (mode mnt : ℕ) (s s' : Kernel)
      → Lacks env fuel d i fresh n mnt s
      → Alike s s' d i
      → let dp = env.alloc (alloc_call sizeof_inode ∷ s'.kmt.heap) sizeof_dentry in
        let o = make_entry env fuel n false mode (at d mnt) s' in
        (o ≡ done dp (state_of o)) × Entered env fuel d i fresh n s' (state_of o) dp
  make_entry-missing n mode mnt s s' h alike =
      make_entry-Entered env fuel d i fresh n mode mnt s' (rw alike.dentry h.inode)
        (rw alike.mounts h.mounted) (rw (alike.threads, alike.current, alike.inode) h.allowed)
        (rw alike.files (not_leb (free_node s) kvfs_max_file h.some_node))

  make_walk-Entered :
      (rounds : ℕ) (n : List ℕ) (mode mnt : ℕ) (s : Kernel)
      → IsName n
      → Lacks env fuel d i fresh n mnt s
      → (dp : Ptr) × (s' : Kernel) × (make_walk env fuel (suc rounds) 0 mode n (at d mnt) s
          ≡ done (dp, at dp mnt) s')
        × Entered env fuel d i fresh n s s' dp
  unfolding make_walk
  make_walk-Entered rounds n mode mnt s name h =
      let p = part_last n name.plain in
      let (s', missing, alike) = do_lookup-missing env fuel d i fresh n mnt s h in
      let o = make_entry env fuel n false mode (at d mnt) s' in
      let dp = env.alloc (alloc_call sizeof_inode ∷ s'.kmt.heap) sizeof_dentry in
      let (made, e) = make_entry-missing n mode mnt s s' h alike in
      (
        dp,
        state_of o,
        rw (p.0, p.1, name.no_dot, name.no_dotdot, skip_nil, missing, made, e.some_dentry, e.plain)
            refl,
        record {
          some_dentry = e.some_dentry;
          first = e.first;
          named = e.named;
          plain = e.plain;
          threads = e.threads ∙ alike.threads;
          current = e.current ∙ alike.current;
        },
      )

  -- The path of one part.
  make_path-Entered :
      (absolute : Bool) (n : List ℕ) (mode mnt : ℕ) (s : Kernel)
      → IsName n
      → start absolute s ≡ at d mnt
      → Lacks env fuel d i fresh n mnt s
      → (dp : Ptr) × (s' : Kernel) × (make_path env fuel (text absolute n []) 0 mode s
          ≡ done (dp, at dp mnt) s')
        × Entered env fuel d i fresh n s s' dp
  unfolding make_path
  make_path-Entered true n mode mnt s name from h =
      let skip_head : skip_slashes (slash ∷ n) ≡ n =
        skip_slash n ∙ skip_spell n [] (IsName-IsPart name) in
      let (dp, s', made, e) = make_walk-Entered (length n) n mode mnt s name h in
      (dp, s', rw (skip_head, name.full, from) made, e)
  make_path-Entered false [] mode mnt s name from h = absurd (ground (arith, name.full))
  make_path-Entered false (c ∷ n) mode mnt s name from h =
      let part = IsName-IsPart name in
      let (dp, s', made, e) = make_walk-Entered (length n) (c ∷ n) mode mnt s name h in
      (dp, s', rw (relative-spell (c ∷ n) [] part, skip_spell (c ∷ n) [] part, from) made, e)

path_lookup-last :
    (env : Env) (fuel : ℕ) (s : Kernel) (absolute : Bool) (n : List ℕ) (x : NameiData)
    → IsName n
    → do_lookup env fuel n (start absolute s) s ≡ done (false, x) s
    → path_lookup env fuel (text absolute n []) 0 s ≡ done (x.dentry, x) s
unfolding path_lookup
path_lookup-last env fuel s true n x name found =
    let part = IsName-IsPart name in
    let skip_head : skip_slashes (slash ∷ n) ≡ n = skip_slash n ∙ skip_spell n [] part in
    rw (skip_head, name.full)
      (walk-last env fuel s (length n) (start true s) n x part
        (down name.no_dot name.no_dotdot found))
path_lookup-last env fuel s false [] x name found = absurd (ground (arith, name.full))
path_lookup-last env fuel s false (c ∷ n) x name found =
    let part = IsName-IsPart name in
    rw (relative-spell (c ∷ n) [] part, skip_spell (c ∷ n) [] part)
      (walk-last env fuel s (length n) (start false s) (c ∷ n) x part
        (down name.no_dot name.no_dotdot found))

module _ (env : Env) (fuel : ℕ) (d i : Ptr) (fresh : IsFresh env d i) where
  -- If `make_path` is asked for a new file by a path of one part, absolute or relative, from the
  -- place where it starts, a directory of the file system in memory in which no dentry has that
  -- name, which the thread may read and write, and where one of the 1024 nodes is free, then it answers a
  -- dentry that is not NULL and no directory, and the lookup of the same path afterwards answers
  -- that dentry and changes nothing. The allocator never gives NULL nor the addresses of the
  -- directory and its inode, and the chain of the directory is shorter than the fuel.
  pub make_path-path_lookup :
      (absolute : Bool) (n : List ℕ) (mode mnt : ℕ) (s : Kernel)
      → IsName n
      → start absolute s ≡ at d mnt
      → Lacks env fuel d i fresh n mnt s
      → (dp : Ptr) × (s' : Kernel) × (make_path env fuel (text absolute n []) 0 mode s
          ≡ done (dp, at dp mnt) s')
        × (path_lookup env fuel (text absolute n []) 0 s' ≡ done (dp, at dp mnt) s')
        × (dp ≢ null)
        × ((s'.dentries dp).isdir ≡ false)
  make_path-path_lookup absolute n mode mnt s name from h =
      let (dp, s', made, e) =
        make_path-Entered env fuel d i fresh absolute n mode mnt s name from h in
      let from' = start-Entered absolute s s' e.threads e.current ∙ from in
      let some_fuel : 0 < fuel = ground (arith, h.short) in
      let found = do_lookup-Entered env fuel d i fresh n mnt s s' dp some_fuel e in
      (
        dp,
        s',
        made,
        path_lookup-last env fuel s' absolute n (at dp mnt) name (rw from' found),
        ground (arith, e.some_dentry),
        e.plain,
      )
