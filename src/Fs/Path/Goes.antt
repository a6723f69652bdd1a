-- ===== src/Fs/Path/Goes.antt =====
-- Where a path leads in src/fs/path.c, part by part.
use nsos.Prelude.{
  ℕ, zero, suc, ◌<◌, ◌≡◌, ◌≢◌, refl, Bool, true, false, List, [], ◌∷◌, arith, ◌==◌, if◌then◌else◌,
  length, Bool-cases, inl, inr, ==_ne,
}
use nsos.Machine.{Ptr, null, done}
use nsos.Fs.State.{Kernel, NameiData, current_thread}
use nsos.Fs.Dentry.Drop.{Siblings}
use nsos.Fs.Path.{slash, at, is_dot, is_dotdot, find_mount}
use nsos.Fs.Path.Resolve.{spell, first_named, Holds}

-- From `p` on the mounts `ms`, up to NULL.
abbrev pub Mounts : Kernel → Ptr → List Ptr → Type 0
Mounts s p [] = p ≡ null
Mounts s p (m ∷ ms) = (p ≡ m) × (m ≢ null) × Mounts s (s.mounts m).next ms

-- The first of them on the dentry `e`, or NULL.
abbrev pub first_mount : Kernel → Ptr → List Ptr → Ptr
first_mount s e [] = null
first_mount s e (m ∷ ms) = if (s.mounts m).mountpoint == e then m else first_mount s e ms

pub find_mount-first_mount :
    (fuel : ℕ) (p e : Ptr) (ms : List Ptr) (s : Kernel)
    → Mounts s p ms
    → length ms < fuel
    → find_mount fuel p e s ≡ done (first_mount s e ms) s
unfolding find_mount
find_mount-first_mount zero p e ms s c enough = absurd (omega arith)
find_mount-first_mount (suc fuel) p e [] s c enough = rw c refl
find_mount-first_mount (suc fuel) p e (m ∷ ms) s c enough =
    let full = ==_ne m null c.1 in
    let rest = find_mount-first_mount fuel (s.mounts m).next e ms s c.2 (omega arith) in
    rw (c.0, full)
      (elim (Bool-cases ((s.mounts m).mountpoint == e)) [
        | inl here ↦ rw here refl
        | inr other ↦ rw (other, rest) refl
      ])

-- In the directory `d` the first dentry of that name is `e`, a directory on which `m` is the first
-- mount.
pub record HoldsMount (fuel : ℕ) (s : Kernel) (d : Ptr) (name : List ℕ) (e m : Ptr) : Type 0 where
  pub chain : List Ptr
  pub linked : Siblings s (s.dentries d).subdirs chain
  pub short : length chain < fuel
  pub named : first_named s name chain ≡ e
  pub found : e ≢ null
  pub isdir : (s.dentries e).isdir ≡ true
  pub mounted : (s.dentries e).mounted ≢ 0
  pub mounts : List Ptr
  pub mounts_linked : Mounts s s.mnt_head mounts
  pub mounts_short : length mounts < fuel
  pub first : first_mount s e mounts ≡ m
  pub some_mount : m ≢ null

-- Where one part of a path leads: `.` stays; `..` leads to the parent, from the root of a mounted
-- file system to the directory that holds its mount point, and stays at the root of all; a name
-- leads to the dentry, or to the root of what is mounted there.
pub data Goes (fuel : ℕ) (s : Kernel) (nd : NameiData) (n : List ℕ) : NameiData → Type 0 where
  stays : is_dot n ≡ true → is_dotdot n ≡ false → Goes fuel s nd n nd
  at_root : is_dotdot n ≡ true → nd.dentry ≡ s.root_dentry → Goes fuel s nd n nd
  to_parent :
      is_dotdot n ≡ true
      → nd.dentry ≢ s.root_dentry
      → (s.dentries nd.dentry).parent ≢ nd.dentry
      → Goes fuel s nd n (record nd { dentry = (s.dentries nd.dentry).parent })
  to_upper :
      is_dotdot n ≡ true
      → nd.dentry ≢ s.root_dentry
      → (s.dentries nd.dentry).parent ≡ nd.dentry
      → Goes fuel s nd n
          (at (s.dentries (s.mounts nd.mnt).mountpoint).parent (s.mounts nd.mnt).parent)
  to_child :
      {e : Ptr}
      → is_dot n ≡ false
      → is_dotdot n ≡ false
      → Holds fuel s nd.dentry n e
      → Goes fuel s nd n (record nd { dentry = e })
  to_mounted :
      {e m : Ptr}
      → is_dot n ≡ false
      → is_dotdot n ≡ false
      → HoldsMount fuel s nd.dentry n e m
      → Goes fuel s nd n (at (s.mounts m).root m)

-- The parts `n ∷ ns` lead from `nd` to `nd'`, through directories.
abbrev pub Resolves : ℕ → Kernel → NameiData → List ℕ → List (List ℕ) → NameiData → Type 0
Resolves fuel s nd n [] nd' = Goes fuel s nd n nd'
Resolves fuel s nd n (m ∷ ns) nd' =
    (x : NameiData) × Goes fuel s nd n x
    × ((s.dentries x.dentry).isdir ≡ true)
    × Resolves fuel s x m ns nd'

-- Where a path starts, and its text.
abbrev pub start : Bool → Kernel → NameiData
start absolute s =
    let t = current_thread s in if absolute then at t.root t.rootmnt else at t.pwd t.pwdmnt

abbrev pub text : Bool → List ℕ → List (List ℕ) → List ℕ
text absolute n ns = if absolute then slash ∷ spell n ns else spell n ns
