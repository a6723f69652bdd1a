-- ===== src/Fs/Path/Names.antt =====
-- The lookup of a path of plain names: src/fs/path.c.
use nsos.Prelude.{ℕ, true, ◌≡◌, List, [], ◌∷◌, All}
use nsos.Machine.{Ptr, Env, done}
use nsos.Fs.State.{Kernel, current_thread}
use nsos.Fs.Path.{slash, at, path_lookup}
use nsos.Fs.Path.Resolve.{IsPart, IsName, IsName-IsPart, spell, Holds}
use nsos.Fs.Path.Goes.{Resolves, to_child}
use nsos.Fs.Path.Steps.{path_lookup-Resolves}

-- From the directory `d` the parts `n ∷ ns` lead to `e`, through directories.
abbrev pub Leads : ℕ → Kernel → Ptr → List ℕ → List (List ℕ) → Ptr → Type 0
Leads fuel s d n [] e = Holds fuel s d n e
Leads fuel s d n (m ∷ ns) e =
    (x : Ptr) × Holds fuel s d n x × ((s.dentries x).isdir ≡ true) × Leads fuel s x m ns e

Leads-Resolves :
    (fuel : ℕ) (s : Kernel) (m d e : Ptr) (n : List ℕ) (ns : List (List ℕ))
    → All IsName (n ∷ ns)
    → Leads fuel s d n ns e
    → Resolves fuel s (at d m) n ns (at e m)
Leads-Resolves fuel s m d e n [] names h = to_child names.0.no_dot names.0.no_dotdot h
Leads-Resolves fuel s m d e n (k ∷ ns) names (x, h, dir, more) = (
  at x m,
  to_child names.0.no_dot names.0.no_dotdot h,
  dir,
  Leads-Resolves fuel s m x e k ns names.1 more,
)

All-IsPart : (ns : List (List ℕ)) → All IsName ns → All IsPart ns
All-IsPart [] h = tt
All-IsPart (n ∷ ns) h = (IsName-IsPart h.0, All-IsPart ns h.1)

-- If from the root directory of the running thread the parts of a path lead through directories to
-- a dentry `e`, with nothing mounted on them, then the lookup of the absolute path ends, answers
-- `e` and changes nothing.
path_lookup-Leads :
    (env : Env) (fuel : ℕ) (s : Kernel) (n : List ℕ) (ns : List (List ℕ)) (e : Ptr)
    → All IsName (n ∷ ns)
    → Leads fuel s (current_thread s).root n ns e
    → path_lookup env fuel (slash ∷ spell n ns) 0 s ≡ done (e, at e (current_thread s).rootmnt) s
path_lookup-Leads env fuel s n ns e names leads =
    path_lookup-Resolves env fuel s true n ns (at e (current_thread s).rootmnt)
      (All-IsPart (n ∷ ns) names)
      (Leads-Resolves fuel s (current_thread s).rootmnt (current_thread s).root e n ns names leads)
