-- ===== src/Fs/Path/Resolve.antt =====
-- The parts of a path, and the lookup of one part: src/fs/path.c.
use nsos.Prelude.{
  ℕ, zero, suc, ◌<◌, ◌≡◌, ◌≢◌, refl, ap, true, false, not, ◌&&◌, List, [], ◌∷◌, ◌++◌, arith, ◌==◌,
  if◌then◌else◌, length, Bool-cases, inl, inr, ==_ne, All,
}
use nsos.Machine.{Ptr, null, Env, done}
use nsos.Fs.State.{Driver, kvfs, devfs, procfs, Kernel, NameiData}
use nsos.Fs.Dentry.Drop.{Siblings}
use nsos.Fs.Path.{
  slash, is_nil, skip_slashes, part, after_part, is_dot, is_dotdot, has_name, find_child, is_valid,
  enter, do_lookup,
}

-- A part of a path: not empty, and without slashes.
pub record IsPart (n : List ℕ) : Type 0 where
  pub full : is_nil n ≡ false
  pub plain : All (λ c. c ≢ slash) n

-- A part that is neither `.` nor `..`.
pub record IsName (n : List ℕ) : Type 0 where
  pub full : is_nil n ≡ false
  pub plain : All (λ c. c ≢ slash) n
  pub no_dot : is_dot n ≡ false
  pub no_dotdot : is_dotdot n ≡ false

pub IsName-IsPart : {n : List ℕ} → IsName n → IsPart n
IsName-IsPart h = record { full = h.full; plain = h.plain }

-- The text of a path, without the slash before it.
abbrev pub spell : List ℕ → List (List ℕ) → List ℕ
spell n [] = n
spell n (m ∷ ns) = n ++ slash ∷ spell m ns

pub part_last : (n : List ℕ) → All (λ c. c ≢ slash) n → (part n ≡ n) × (after_part n ≡ [])
unfolding part after_part
part_last [] h = (refl, refl)
part_last (c ∷ n) h =
    let ih = part_last n h.1 in
    let other = ==_ne c slash h.0 in (rw other (ap (λ t. c ∷ t) ih.0), rw other ih.1)

pub part_inner :
    (n r : List ℕ)
    → All (λ c. c ≢ slash) n
    → (part (n ++ slash ∷ r) ≡ n) × (after_part (n ++ slash ∷ r) ≡ slash ∷ r)
unfolding part after_part
part_inner [] r h = (refl, refl)
part_inner (c ∷ n) r h =
    let ih = part_inner n r h.1 in
    let other = ==_ne c slash h.0 in (rw other (ap (λ t. c ∷ t) ih.0), rw other ih.1)

pub skip_spell :
    (n : List ℕ) (ns : List (List ℕ)) → IsPart n → skip_slashes (spell n ns) ≡ spell n ns
unfolding skip_slashes
skip_spell [] ns h = absurd (ground (arith, h.full))
skip_spell (c ∷ n) [] h = rw (==_ne c slash h.plain.0) refl
skip_spell (c ∷ n) (m ∷ ns) h = rw (==_ne c slash h.plain.0) refl

pub skip_nil : skip_slashes [] ≡ []
unfolding skip_slashes
skip_nil = refl

pub skip_slash : (r : List ℕ) → skip_slashes (slash ∷ r) ≡ skip_slashes r
unfolding skip_slashes
skip_slash r = refl

pub is_nil-spell : (n : List ℕ) (ns : List (List ℕ)) → IsPart n → is_nil (spell n ns) ≡ false
is_nil-spell [] ns h = absurd (ground (arith, h.full))
is_nil-spell (c ∷ n) [] h = refl
is_nil-spell (c ∷ n) (m ∷ ns) h = refl

pub length-join : (n r : List ℕ) → length r < length (n ++ slash ∷ r)
length-join [] r = omega arith
length-join (c ∷ n) r = omega (arith, length-join n r)

pub length-spell : (n : List ℕ) (ns : List (List ℕ)) → length ns < suc (length (spell n ns))
length-spell n [] = omega arith
length-spell n (m ∷ ns) = omega (arith, length-spell m ns, length-join n (spell m ns))

-- The first dentry of that name in a chain, or NULL.
abbrev pub first_named : Kernel → List ℕ → List Ptr → Ptr
first_named s name [] = null
first_named s name (d ∷ ds) = if has_name name (s.dentries d) then d else first_named s name ds

pub find_child-first_named :
    (fuel : ℕ) (p : Ptr) (name : List ℕ) (ds : List Ptr) (s : Kernel)
    → Siblings s p ds
    → length ds < fuel
    → find_child fuel p name s ≡ done (first_named s name ds) s
unfolding find_child
find_child-first_named zero p name ds s c enough = absurd (omega arith)
find_child-first_named (suc fuel) p name [] s c enough = rw c refl
find_child-first_named (suc fuel) p name (d ∷ ds) s c enough =
    let full = ==_ne d null c.1 in
    let rest = find_child-first_named fuel (s.dentries d).child name ds s c.2 (omega arith) in
    rw (c.0, full)
      (elim (Bool-cases (has_name name (s.dentries d))) [
        | inl here ↦ rw here refl
        | inr other ↦ rw (other, rest) refl
      ])

-- In the directory `d` the first dentry named `name` is `e`, and nothing is mounted on it.
pub record Holds (fuel : ℕ) (s : Kernel) (d : Ptr) (name : List ℕ) (e : Ptr) : Type 0 where
  pub chain : List Ptr
  pub linked : Siblings s (s.dentries d).subdirs chain
  pub short : length chain < fuel
  pub named : first_named s name chain ≡ e
  pub found : e ≢ null
  pub bare : ((s.dentries e).isdir && not ((s.dentries e).mounted == 0)) ≡ false

pub is_valid-true : (drv : Driver) → is_valid drv ≡ true
is_valid-true kvfs = refl
is_valid-true devfs = refl
is_valid-true procfs = refl

module _ (env : Env) (fuel : ℕ) (s : Kernel) where
  -- A lookup in a directory that holds a dentry of that name, with nothing mounted on it, answers
  -- the first such dentry and changes nothing, whatever driver the dentry has: the driver is not
  -- asked whether it is still valid.
  pub do_lookup-Holds :
      (nd : NameiData) (name : List ℕ) (e : Ptr)
      → Holds fuel s nd.dentry name e
      → do_lookup env fuel name nd s ≡ done (false, record nd { dentry = e }) s
  unfolding do_lookup enter
  do_lookup-Holds nd name e h =
      let child =
        find_child-first_named fuel (s.dentries nd.dentry).subdirs name h.chain s h.linked
          h.short in
      let full = ==_ne e null h.found in
      rw (child, h.named, full, is_valid-true (s.dentries e).op, h.bare) refl
