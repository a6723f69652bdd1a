-- ===== src/Fs/Path/Added.antt =====
-- What `make_path` of src/fs/path.c adds to a directory, and the lookup of it.
use nsos.Prelude.{
  ℕ, zero, suc, ◌+◌, ◌<◌, ◌≡◌, refl, Bool, true, false, List, ◌∷◌, arith, ◌==◌, length, leb,
  ==_refl,
}
use nsos.Machine.{HeapCall, alloc_call, Ptr, null, Env, done, state_of}
use nsos.CString.{strlen}
use nsos.CString.Compare.{strncmp_refl}
use nsos.Acl.{check_acl, r_ok, w_ok}
use nsos.Fs.State.{Kernel, kvfs, current_thread, pmm_alloc, pmm_free, sizeof_dentry, sizeof_inode}
use nsos.Fs.Kvfs.{kvfs_create, kvfs_max_file, free_node}
use nsos.Fs.Driver.{alloc_inode, destroy_inode, lookup, create}
use nsos.Fs.Dentry.Drop.{Siblings}
use nsos.Fs.Path.{at, ask_driver, do_lookup, make_entry, find_child, enter}
use nsos.Fs.Path.Resolve.{first_named, find_child-first_named, is_valid-true}
use nsos.Fs.Path.Goes.{start}

-- What the allocator never gives: NULL, and what is in use at `d` and `i`.
pub record IsFresh (env : Env) (d i : Ptr) : Type 0 where
  pub some_ptr : (calls : List HeapCall) (n : ℕ) → (env.alloc calls n == null) ≡ false
  pub off_d : (calls : List HeapCall) (n : ℕ) → (env.alloc calls n == d) ≡ false
  pub off_i : (calls : List HeapCall) (n : ℕ) → (env.alloc calls n == i) ≡ false

-- The directory at `d` with its inode at `i`, and what they share with another state.
pub record Alike (s s' : Kernel) (d i : Ptr) : Type 0 where
  pub dentry : s'.dentries d ≡ s.dentries d
  pub inode : s'.inodes i ≡ s.inodes i
  pub mounts : s'.mounts ≡ s.mounts
  pub threads : s'.kmt.threads ≡ s.kmt.threads
  pub current : s'.kmt.current ≡ s.kmt.current
  pub files : s'.kvfs_files ≡ s.kvfs_files

flip_eq : (a b : ℕ) → (a == b) ≡ false → (b == a) ≡ false
flip_eq a b h = ground arith

find_child-named :
    (fuel : ℕ) (n : List ℕ) (s : Kernel) (dp : Ptr)
    → 0 < fuel
    → (dp == null) ≡ false
    → (s.dentries dp).iname ≡ n
    → find_child fuel dp n s ≡ done dp s
unfolding find_child
find_child-named zero n s dp some_fuel full named = absurd (omega arith)
find_child-named (suc fuel) n s dp some_fuel full named =
    rw (full, named, ==_refl (strlen n), strncmp_refl n (strlen n)) refl

pub not_leb : (a b : ℕ) → a < b → leb b a ≡ false
not_leb a b h = ground (arith, h)

module _ (env : Env) (fuel : ℕ) (d i : Ptr) (fresh : IsFresh env d i) where
  ask_driver-missing :
      (n : List ℕ) (mnt : Ptr) (s : Kernel)
      → (s.dentries d).inode ≡ i
      → (s.inodes i).op ≡ kvfs
      → let o = ask_driver env fuel n (at d mnt) s in
        (o ≡ done (true, at d mnt) (state_of o)) × Alike s (state_of o) d i
  unfolding ask_driver pmm_alloc pmm_free alloc_inode destroy_inode lookup
  ask_driver-missing n mnt s at_i drv =
      let h₁ = alloc_call sizeof_dentry ∷ s.kmt.heap in
      let h₂ = alloc_call (strlen n + 1) ∷ h₁ in
      rw (at_i, drv)
        (rw (fresh.some_ptr s.kmt.heap sizeof_dentry) (
          rw (fresh.some_ptr h₁ (strlen n + 1)) (
            rw (fresh.some_ptr h₂ sizeof_inode) (
              refl,
              record {
                dentry = rw (fresh.off_d s.kmt.heap sizeof_dentry) refl;
                inode = rw (fresh.off_i h₂ sizeof_inode) refl;
                mounts = refl;
                threads = refl;
                current = refl;
                files = refl;
              },
            ))))

  -- In the directory no dentry has the name, and its files are in memory, where one is free.
  pub record Lacks (n : List ℕ) (mnt : Ptr) (s : Kernel) : Type 0 where
    pub chain : List Ptr
    pub linked : Siblings s (s.dentries d).subdirs chain
    pub short : length chain < fuel
    pub unnamed : first_named s n chain ≡ null
    pub inode : (s.dentries d).inode ≡ i
    pub driver : (s.inodes i).op ≡ kvfs
    pub mounted : (s.mounts mnt).fs ≡ kvfs
    pub allowed :
        (let t = current_thread s in
          let up = s.inodes i in check_acl t.uid t.gid up.uid up.gid up.acl (r_ok + w_ok))
        ≡ 0
    pub some_node : free_node s < kvfs_max_file

  pub do_lookup-missing :
      (n : List ℕ) (mnt : Ptr) (s : Kernel)
      → Lacks n mnt s
      → (s' : Kernel) × (do_lookup env fuel n (at d mnt) s ≡ done (true, at d mnt) s')
        × Alike s s' d i
  unfolding do_lookup
  do_lookup-missing n mnt s h =
      let r = ask_driver-missing n mnt s h.inode h.driver in
      let child = find_child-first_named fuel (s.dentries d).subdirs n h.chain s h.linked h.short in
      (state_of (ask_driver env fuel n (at d mnt) s), rw (child, h.unnamed) r.0, r.1)

  -- The new file is the first of the directory.
  pub record Entered (n : List ℕ) (s s' : Kernel) (dp : Ptr) : Type 0 where
    pub some_dentry : (dp == null) ≡ false
    pub first : (s'.dentries d).subdirs ≡ dp
    pub named : (s'.dentries dp).iname ≡ n
    pub plain : (s'.dentries dp).isdir ≡ false
    pub threads : s'.kmt.threads ≡ s.kmt.threads
    pub current : s'.kmt.current ≡ s.kmt.current

  pub make_entry-Entered :
      (n : List ℕ) (mode mnt : ℕ) (s : Kernel)
      → (s.dentries d).inode ≡ i
      → (s.mounts mnt).fs ≡ kvfs
      → (let t = current_thread s in
          let up = s.inodes i in check_acl t.uid t.gid up.uid up.gid up.acl (r_ok + w_ok))
        ≡ 0
      → leb kvfs_max_file (free_node s) ≡ false
      → let dp = env.alloc (alloc_call sizeof_inode ∷ s.kmt.heap) sizeof_dentry in
        let o = make_entry env fuel n false mode (at d mnt) s in
        (o ≡ done dp (state_of o)) × Entered n s (state_of o) dp
  unfolding make_entry alloc_inode pmm_alloc create kvfs_create
  make_entry-Entered n mode mnt s at_i fs allowed some_node =
      let h₁ = alloc_call sizeof_inode ∷ s.kmt.heap in
      let off = flip_eq (env.alloc h₁ sizeof_dentry) d (fresh.off_d h₁ sizeof_dentry) in
      rw (at_i, fs, allowed, some_node)
        (
          refl,
          record {
            some_dentry = fresh.some_ptr h₁ sizeof_dentry;
            first = rw (==_refl d) refl;
            named = rw (off, ==_refl (env.alloc h₁ sizeof_dentry)) refl;
            plain = rw (off, ==_refl (env.alloc h₁ sizeof_dentry)) refl;
            threads = refl;
            current = refl;
          },
        )

  -- A dentry that is the first of the directory is found by its name.
  pub do_lookup-Entered :
      (n : List ℕ) (mnt : Ptr) (s s' : Kernel) (dp : Ptr)
      → 0 < fuel
      → Entered n s s' dp
      → do_lookup env fuel n (at d mnt) s' ≡ done (false, at dp mnt) s'
  unfolding do_lookup enter
  do_lookup-Entered n mnt s s' dp some_fuel h =
      let child = find_child-named fuel n s' dp some_fuel h.some_dentry h.named in
      rw (h.first, child, h.some_dentry, is_valid-true (s'.dentries dp).op, h.plain) refl

pub start-Entered :
    (absolute : Bool) (s s' : Kernel)
    → s'.kmt.threads ≡ s.kmt.threads
    → s'.kmt.current ≡ s.kmt.current
    → start absolute s' ≡ start absolute s
start-Entered absolute s s' t c = rw (t, c) refl
