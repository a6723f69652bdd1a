-- ===== src/Fs/Path/Steps.antt =====
-- `path_lookup` of src/fs/path.c goes where the parts of the path lead.
use nsos.Prelude.{
  ℕ, zero, suc, ◌<◌, ◌≡◌, ◌≢◌, refl, ◌∙◌, Bool, true, false, List, [], ◌∷◌, arith, ◌==◌, length,
  Bool-cases, inl, inr, ==_ne, ==_iff, All,
}
use nsos.Machine.{Ptr, null, Env, done}
use nsos.Fs.State.{Kernel, NameiData}
use nsos.Fs.Path.{
  slash, skip_slashes, at, is_dot, is_dotdot, follow_dotdot, is_absolute, enter, do_lookup, walk,
  path_lookup,
}
use nsos.Fs.Path.Resolve.{
  IsPart, spell, part_last, part_inner, skip_spell, skip_nil, skip_slash, is_nil-spell, length-join,
  length-spell, find_child-first_named, is_valid-true, do_lookup-Holds,
}
use nsos.Fs.Path.Goes.{
  find_mount-first_mount, HoldsMount, Goes, stays, at_root, to_parent, to_upper, to_child,
  to_mounted, Resolves, start, text,
}

module _ (env : Env) (fuel : ℕ) (s : Kernel) where
  do_lookup-HoldsMount :
      (nd : NameiData) (name : List ℕ) (e m : Ptr)
      → HoldsMount fuel s nd.dentry name e m
      → do_lookup env fuel name nd s ≡ done (false, at (s.mounts m).root m) s
  unfolding do_lookup enter
  do_lookup-HoldsMount nd name e m h =
      let child =
        find_child-first_named fuel (s.dentries nd.dentry).subdirs name h.chain s h.linked
          h.short in
      let mount =
        find_mount-first_mount fuel s.mnt_head e h.mounts s h.mounts_linked h.mounts_short in
      let full = ==_ne e null h.found in
      let some_mounted = ==_ne (s.dentries e).mounted 0 h.mounted in
      let some_mount = ==_ne m null h.some_mount in
      rw
        (
          child,
          h.named,
          full,
          is_valid-true (s.dentries e).op,
          h.isdir,
          some_mounted,
          mount,
          h.first,
          some_mount,
        )
        refl

pub relative-spell : (n : List ℕ) (ns : List (List ℕ)) → IsPart n → is_absolute (spell n ns) ≡ false
relative-spell [] ns h = absurd (ground (arith, h.full))
relative-spell (c ∷ n) [] h = ==_ne c slash h.plain.0
relative-spell (c ∷ n) (m ∷ ns) h = ==_ne c slash h.plain.0

relative-rounds : (n : List ℕ) (ns : List (List ℕ)) → IsPart n → length ns < length (spell n ns)
relative-rounds [] ns h = absurd (ground (arith, h.full))
relative-rounds (c ∷ n) [] h = omega arith
relative-rounds (c ∷ n) (m ∷ ns) h = omega (arith, length-spell m ns, length-join n (spell m ns))

-- `follow_dotdot` goes where `..` leads.
data Up (s : Kernel) (nd : NameiData) : NameiData → Type 0 where
  stays_up : nd.dentry ≡ s.root_dentry → Up s nd nd
  inside :
      nd.dentry ≢ s.root_dentry
      → (s.dentries nd.dentry).parent ≢ nd.dentry
      → Up s nd (record nd { dentry = (s.dentries nd.dentry).parent })
  across :
      nd.dentry ≢ s.root_dentry
      → (s.dentries nd.dentry).parent ≡ nd.dentry
      → Up s nd (at (s.dentries (s.mounts nd.mnt).mountpoint).parent (s.mounts nd.mnt).parent)

follow_dotdot-Up : (s : Kernel) (nd nd' : NameiData) → Up s nd nd' → follow_dotdot nd s ≡ nd'
unfolding follow_dotdot
follow_dotdot-Up s nd nd' (stays_up e) =
    let same : (nd.dentry == s.root_dentry) ≡ true = (==_iff _ _).1 e in rw same refl
follow_dotdot-Up s nd nd' (inside ne ne') =
    rw (==_ne nd.dentry s.root_dentry ne, ==_ne (s.dentries nd.dentry).parent nd.dentry ne') refl
follow_dotdot-Up s nd nd' (across ne e) =
    let same : ((s.dentries nd.dentry).parent == nd.dentry) ≡ true = (==_iff _ _).1 e in
    rw (==_ne nd.dentry s.root_dentry ne, same) refl

-- The three kinds of parts.
pub data Kind (fuel : ℕ) (s : Kernel) (env : Env) (nd : NameiData) (n : List ℕ) (x : NameiData)
    : Type 0 where
  same : is_dot n ≡ true → is_dotdot n ≡ false → nd ≡ x → Kind fuel s env nd n x
  up : is_dotdot n ≡ true → follow_dotdot nd s ≡ x → Kind fuel s env nd n x
  down :
      is_dot n ≡ false
      → is_dotdot n ≡ false
      → do_lookup env fuel n nd s ≡ done (false, x) s
      → Kind fuel s env nd n x

module _ (env : Env) (fuel : ℕ) (s : Kernel) where
  Goes-Kind :
      (nd : NameiData) (n : List ℕ) (x : NameiData) → Goes fuel s nd n x → Kind fuel s env nd n x
  Goes-Kind nd n x (stays d e) = same d e refl
  Goes-Kind nd n x (at_root d e) = up d (follow_dotdot-Up s nd _ (stays_up e))
  Goes-Kind nd n x (to_parent d ne ne') = up d (follow_dotdot-Up s nd _ (inside ne ne'))
  Goes-Kind nd n x (to_upper d ne e) = up d (follow_dotdot-Up s nd _ (across ne e))
  Goes-Kind nd n x (to_child {e} d d' h) = down d d' (do_lookup-Holds env fuel s nd n e h)
  Goes-Kind nd n x (to_mounted {e} {m} d d' h) =
      down d d' (do_lookup-HoldsMount env fuel s nd n e m h)

  -- The last part of a path.
  pub walk-last :
      (rounds : ℕ) (nd : NameiData) (n : List ℕ) (x : NameiData)
      → IsPart n
      → Kind fuel s env nd n x
      → walk env fuel (suc rounds) 0 n nd s ≡ done (x.dentry, x) s
  unfolding walk
  walk-last rounds nd n x h k =
      let p = part_last n h.plain in
      elim k [
        | same d e eq ↦ rw (p.0, p.1, e, d, skip_nil, eq) refl
        | up d eq ↦ rw (p.0, p.1, d, skip_nil, eq) refl
        | down d e eq ↦
            rw (p.0, p.1, e, d, eq)
              (elim (Bool-cases (s.dentries x.dentry).isdir) [
                | inl dir ↦ rw (dir, skip_nil) refl
                | inr file ↦ rw (file, skip_nil) refl
              ])
      ]

  walk-inner :
      (rounds : ℕ) (nd : NameiData) (n m : List ℕ) (ns : List (List ℕ)) (x : NameiData)
      → IsPart n
      → IsPart m
      → (s.dentries x.dentry).isdir ≡ true
      → Kind fuel s env nd n x
      → walk env fuel (suc rounds) 0 (spell n (m ∷ ns)) nd s
        ≡ walk env fuel rounds 0 (spell m ns) x s
  unfolding walk
  walk-inner rounds nd n m ns x h h' dir k =
      let p = part_inner n (spell m ns) h.plain in
      let skip_tail : skip_slashes (slash ∷ spell m ns) ≡ spell m ns =
        skip_slash (spell m ns) ∙ skip_spell m ns h' in
      let filled = is_nil-spell m ns h' in
      elim k [
        | same d e eq ↦ rw (p.0, p.1, e, d, skip_tail, filled, eq) refl
        | up d eq ↦ rw (p.0, p.1, d, skip_tail, filled, eq) refl
        | down d e eq ↦ rw (p.0, p.1, e, d, eq, skip_tail, dir, filled) refl
      ]

  walk-Resolves :
      (rounds : ℕ) (nd : NameiData) (n : List ℕ) (ns : List (List ℕ)) (nd' : NameiData)
      → length ns < rounds
      → All IsPart (n ∷ ns)
      → Resolves fuel s nd n ns nd'
      → walk env fuel rounds 0 (spell n ns) nd s ≡ done (nd'.dentry, nd') s
  walk-Resolves zero nd n ns nd' enough parts r = absurd (omega arith)
  walk-Resolves (suc rounds) nd n [] nd' enough parts r =
      walk-last rounds nd n nd' parts.0 (Goes-Kind nd n nd' r)
  walk-Resolves (suc rounds) nd n (m ∷ ns) nd' enough parts (x, goes, dir, more) =
      walk-inner rounds nd n m ns x parts.0 parts.1.0 dir (Goes-Kind nd n x goes)
      ∙ walk-Resolves rounds x m ns nd' (omega arith) parts.1 more

  -- If the parts of a path, absolute or relative, lead from where it starts to a position, part by
  -- part and through directories, then the lookup of the path ends with that position, answers its
  -- dentry and changes nothing: `.`, `..`, mount points and the roots of what is mounted there
  -- included. The parts have no slashes, and the chains of the directories and of the mounts are
  -- shorter than the fuel.
  pub path_lookup-Resolves :
      (absolute : Bool) (n : List ℕ) (ns : List (List ℕ)) (nd' : NameiData)
      → All IsPart (n ∷ ns)
      → Resolves fuel s (start absolute s) n ns nd'
      → path_lookup env fuel (text absolute n ns) 0 s ≡ done (nd'.dentry, nd') s
  unfolding path_lookup
  path_lookup-Resolves true n ns nd' parts r =
      let skip_head : skip_slashes (slash ∷ spell n ns) ≡ spell n ns =
        skip_slash (spell n ns) ∙ skip_spell n ns parts.0 in
      let enough : length ns < suc (length (spell n ns)) = length-spell n ns in
      rw (skip_head, is_nil-spell n ns parts.0)
        (walk-Resolves (suc (length (spell n ns))) (start true s) n ns nd' enough parts r)
  path_lookup-Resolves false n ns nd' parts r =
      let rounds = relative-rounds n ns parts.0 in
      rw (relative-spell n ns parts.0, skip_spell n ns parts.0, is_nil-spell n ns parts.0)
        (walk-Resolves (length (spell n ns)) (start false s) n ns nd' rounds parts r)
