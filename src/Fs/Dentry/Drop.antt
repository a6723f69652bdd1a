-- ===== src/Fs/Dentry/Drop.antt =====
-- The chain of a directory through `d_drop` of src/fs/dentry.c.
use nsos.Prelude.{
  ℕ, zero, suc, ◌≤◌, ◌≡◌, ◌≢◌, ◌⊎◌, inl, inr, refl, sym, ◌∙◌, true, false, List, [], ◌∷◌, arith,
  ◌==◌, if◌then◌else◌, length, Bool-cases, ==_refl, ==_ne, ==_iff, All,
}
use nsos.Machine.{Ptr, null, done}
use nsos.Fs.State.{Dentry, Kernel, put_dentry}
use nsos.Fs.Dentry.{d_drop_walk, d_drop}

-- From `p` on the `d_child` fields lead through the dentries `ds` to NULL.
abbrev pub Siblings : Kernel → Ptr → List Ptr → Type 0
Siblings s p [] = p ≡ null
Siblings s p (d ∷ ds) = (p ≡ d) × (d ≢ null) × Siblings s (s.dentries d).child ds

abbrev pub NotIn : Ptr → List Ptr → Type 0
NotIn q ds = All (λ d. d ≢ q) ds

abbrev pub Distinct : List Ptr → Type 0
Distinct [] = Unit
Distinct (d ∷ ds) = NotIn d ds × Distinct ds

abbrev pub In : Ptr → List Ptr → Type 0
In q [] = ⊥
In q (d ∷ ds) = (d ≡ q) ⊎ In q ds

-- The list without the first occurrence of `q`.
abbrev pub remove : Ptr → List Ptr → List Ptr
remove q [] = []
remove q (d ∷ ds) = if d == q then ds else d ∷ remove q ds

In-NotIn : (q e : Ptr) (ds : List Ptr) → In e ds → NotIn q ds → e ≢ q
In-NotIn q e [] i h = absurd i
In-NotIn q e (d ∷ ds) (inl same) h = λ x. h.0 (same ∙ x)
In-NotIn q e (d ∷ ds) (inr more) h = In-NotIn q e ds more h.1

In-later : (q d : Ptr) (ds : List Ptr) → In q (d ∷ ds) → (d == q) ≡ false → In q ds
In-later q d ds (inl same) ne = absurd (ground arith)
In-later q d ds (inr more) ne = more

-- A write to a dentry outside the chain leaves the chain as it is.
Siblings-frame :
    (s : Kernel) (e : Ptr) (v : Dentry) (p : Ptr) (ds : List Ptr)
    → NotIn e ds
    → Siblings s p ds
    → Siblings (put_dentry e v s) p ds
Siblings-frame s e v p [] h c = c
Siblings-frame s e v p (d ∷ ds) h c =
    let other : (e == d) ≡ false = ==_ne e d (λ x. h.0 (sym x)) in
    (c.0, c.1, rw other (Siblings-frame s e v (s.dentries d).child ds h.1 c.2))

-- The `d_child` field of `e` skips `dp`.
abbrev cut : (e dp : Ptr) → Kernel → Kernel
cut e dp s = put_dentry e (record (s.dentries e) { child = (s.dentries dp).child }) s

-- What the loop of `d_drop` finds from the dentry `d` on, and what the chain behind `d` is once
-- the dentry that is dropped is skipped.
abbrev Dropped : ℕ → (d dp : Ptr) → List Ptr → Kernel → Type 0
Dropped fuel d dp rest s =
    (e : Ptr) × (d_drop_walk fuel d dp s ≡ done e s)
    × In e (d ∷ rest)
    × (((s.dentries e).child == null) ≡ false)
    × Siblings (cut e dp s) ((cut e dp s).dentries d).child (remove dp rest)

d_drop_walk-Dropped :
    (fuel : ℕ) (d dp : Ptr) (rest : List Ptr) (s : Kernel)
    → length rest ≤ fuel
    → Siblings s (s.dentries d).child rest
    → Distinct (d ∷ rest)
    → In dp rest
    → Dropped fuel d dp rest s
unfolding d_drop_walk
d_drop_walk-Dropped fuel d dp [] s enough c ne i = absurd i
d_drop_walk-Dropped zero d dp (x ∷ xs) s enough c ne i = absurd (omega arith)
d_drop_walk-Dropped (suc fuel) d dp (x ∷ xs) s enough c ne i =
    let full : (x == null) ≡ false = ==_ne x null c.1 in
    elim (Bool-cases (x == dp)) [
      | inl here ↦ (
        d,
        rw (c.0, full, here) refl,
        inl refl,
        rw c.0 full,
        rw (==_refl d, here)
            (Siblings-frame s d _ (s.dentries dp).child xs ne.0.1
              (rw ((==_iff x dp).0 here) at c.2)),
      )
      | inr later ↦
          let more = In-later dp x xs i later in
          let (e, w, at, ends, sib) =
            d_drop_walk-Dropped fuel x dp xs s (omega arith) c.2 ne.1 more in
          let apart : (e == d) ≡ false = ==_ne e d (In-NotIn d e (x ∷ xs) at ne.0) in
          (e, rw (c.0, full, later) w, inr at, ends, rw (apart, later) (c.0, c.1, sib))
    ]

-- What a drop has done with the chain `ds` of the dentry `up`.
abbrev After : ℕ → (dp up : Ptr) → List Ptr → Kernel → Type 0
After fuel dp up ds s =
    (s' : Kernel) × (d_drop fuel dp s ≡ done tt s')
    × Siblings s' (s'.dentries up).subdirs (remove dp ds)
    × ((q : Ptr) → NotIn q (up ∷ ds) → s'.dentries q ≡ s.dentries q)

d_drop-later :
    (fuel : ℕ) (dp up x : Ptr) (xs : List Ptr) (s : Kernel)
    → (s.dentries dp).parent ≡ up
    → Siblings s (s.dentries up).subdirs (x ∷ xs)
    → Distinct (up ∷ x ∷ xs)
    → (dp == x) ≡ false
    → (x == dp) ≡ false
    → Dropped fuel x dp xs s
    → After fuel dp up (x ∷ xs) s
unfolding d_drop
d_drop-later fuel dp up x xs s parent c ne later elsewhere (e, w, at, ends, sib) =
    let apart : (e == up) ≡ false = ==_ne e up (In-NotIn up e (x ∷ xs) at ne.0) in
    (
      cut e dp s,
      rw (parent, c.0, later, w, ends) refl,
      rw (apart, elsewhere) (c.0, c.1, sib),
      λ q h. rw (==_ne e q (In-NotIn q e (x ∷ xs) at h.1)) refl,
    )

-- If a dentry is in the chain of its parent, whose dentries are distinct and do not include the
-- parent, then `d_drop` with a round for each of them ends. The chain afterwards is the same
-- without that dentry, and every dentry outside the chain but the parent is as it was.
pub d_drop_lem :
    (fuel : ℕ) (dp up : Ptr) (ds : List Ptr) (s : Kernel)
    → (s.dentries dp).parent ≡ up
    → Siblings s (s.dentries up).subdirs ds
    → Distinct (up ∷ ds)
    → In dp ds
    → length ds ≤ fuel
    → (s' : Kernel) × (d_drop fuel dp s ≡ done tt s')
      × Siblings s' (s'.dentries up).subdirs (remove dp ds)
      × ((q : Ptr) → NotIn q (up ∷ ds) → s'.dentries q ≡ s.dentries q)
unfolding d_drop
d_drop_lem fuel dp up [] s parent c ne i enough = absurd i
d_drop_lem fuel dp up (x ∷ xs) s parent c ne i enough = elim (Bool-cases (dp == x)) [
  | inl first ↦
      let same : dp ≡ x = (==_iff dp x).0 first in
      let here : (x == dp) ≡ true = (==_iff x dp).1 (sym same) in
      (
        put_dentry up (record (s.dentries up) { subdirs = (s.dentries dp).child }) s,
        rw (parent, c.0, first) refl,
        rw (==_refl up, here)
            (Siblings-frame s up _ (s.dentries dp).child xs ne.0.1 (rw (← same) at c.2)),
        λ q h. rw (==_ne up q h.0) refl,
      )
  | inr later ↦
      let elsewhere : (x == dp) ≡ false = ground arith in
      d_drop-later fuel dp up x xs s parent c ne later elsewhere
        (d_drop_walk-Dropped fuel x dp xs s (omega arith) c.2 ne.1 (In-later dp x xs i elsewhere))
]
