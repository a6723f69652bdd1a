-- ===== src/Vfs/Open.antt =====
-- `vfs_open` and `vfs_close` of src/vfs.c and the descriptors of the running thread.
use nsos.Prelude.{
  ℕ, ◌+◌, ◌%◌, ◌^◌, leb, ◌<◌, ◌≡◌, ◌≢◌, refl, sym, ap, ◌∙◌, arith, Bool, true, false, ◌==◌,
  if◌then◌else◌, List, Bool-cases, inl, inr, ==_refl, ==_ne,
}
use nsos.Machine.{
  HeapCall, Ptr, null, Env, Run, Outcome, done, stop, Stop, asleep, pure, modify, gets, and_then,
  ◌>>=◌, ◌>>◌,
}
use nsos.Acl.{acl_default}
use nsos.Lock.{semaphore_lock}
use nsos.Kmt.State.{
  Kmt, kernel_max_thread, update, minus_one, max_file_per_thread, record_alloc, record_free,
  kmt_spin_lock, kmt_spin_unlock,
}
use nsos.Kmt.Semaphore.{wake, waiter, kmt_sem_wait, kmt_sem_signal}
use nsos.Kmt.Life.{scan-Found}
use nsos.Fs.State.{Kernel, put_file, pmm_alloc, pmm_free, sizeof_file}
use nsos.Fs.Path.{make_path}
use nsos.Fs.Calm.{Undisturbed, ended, stopped}
use nsos.Fs.Calm.Walk.{make_path-IsCalm}
use nsos.Vfs.Calls.{
  sem_wait, sem_signal, leave, vfs_sem, with_kmt, free_descriptor, set_descriptor, new_file,
  vfs_open,
}
use nsos.Vfs.Descriptors.{is_standard, descriptor, vfs_close}

-- The descriptors of the running thread.
abbrev table_of : Kmt → ℕ → Ptr
table_of k = (k.threads k.current).file_descriptors

abbrev pub table : Kernel → ℕ → Ptr
table s = table_of s.kmt

-- What an open does to the descriptors.
data Opened (s : Kernel) : Outcome Kernel ℕ → Type 0 where
  opened :
      (p : Ptr) {i : ℕ} {s' : Kernel}
      → table s i ≡ null
      → i < max_file_per_thread
      → p ≢ null
      → ((j : ℕ) → table s' j ≡ update (table s) i p j)
      → Opened s (done i s')
  refused : {s' : Kernel} → Opened s (done minus_one s')
  failed : {why : Stop} {s' : Kernel} → Opened s (stop why s')

update_same : (f g : ℕ → Ptr) (i p j : ℕ) → f j ≡ g j → update f i p j ≡ update g i p j
update_same f g i p j h = ground (arith, h)

-- A run that leaves the descriptors alone.
data Same {A : Type 0} (s : Kernel) : Outcome Kernel A → Type 0 where
  same : {a : A} {s' : Kernel} → ((j : ℕ) → table s' j ≡ table s j) → Same s (done a s')
  cut : {why : Stop} {s' : Kernel} → Same s (stop why s')

Opened-later :
    {s s' : Kernel} {o : Outcome Kernel ℕ}
    → ((j : ℕ) → table s' j ≡ table s j)
    → Opened s' o
    → Opened s o
Opened-later {s = s} {s' = s'} h (opened p {i = i} free lt ne set) =
    opened p (sym (h i) ∙ free) lt ne (λ j. set j ∙ update_same (table s') (table s) i p j (h j))
Opened-later h refused = refused
Opened-later h failed = failed

Opened-then :
    {A : Type 0} (s : Kernel) (o : Outcome Kernel A) (k : A → Run Kernel ℕ)
    → Same s o
    → ((a : A) (s' : Kernel) → Opened s' (k a s'))
    → Opened s (and_then o k)
Opened-then s (done a s') k (same h) hk = Opened-later h (hk a s')
Opened-then s (stop why s') k cut hk = failed

Undisturbed-Same : {A : Type 0} (s : Kernel) (o : Outcome Kernel A) → Undisturbed s o → Same s o
Undisturbed-Same s (done a s') (ended h) = same (λ j. ap (λ q. (q.1 q.2).file_descriptors j) h)
Undisturbed-Same s (stop why s') (stopped n) = cut

-- A wake changes no descriptor.
woken-table :
    (b : Bool) (t : Ptr) (k : Kmt) (j : ℕ) → table_of (if b then wake t k else k) j ≡ table_of k j
woken-table true t k j = ground arith
woken-table false t k j = refl

sem_signal-table :
    (env : Env) (k : Kmt) (j : ℕ) → table_of (kmt_sem_signal env vfs_sem k) j ≡ table_of k j
unfolding kmt_sem_signal kmt_spin_lock kmt_spin_unlock
sem_signal-table env k₀ j =
    let k₁ = kmt_spin_lock env semaphore_lock k₀ in
    let k = record k₁ { sems = update k₁.sems vfs_sem ((k₁.sems vfs_sem + 1) % 2 ^ 32) } in
    woken-table (leb (waiter vfs_sem k) kernel_max_thread) (k.thread_pool (waiter vfs_sem k)) k j

waited :
    (s : Kernel) (none_left : Bool) (k k' : Kmt)
    → ((j : ℕ) → table_of k' j ≡ table s j)
    → Same s
        (elim (if none_left then stop asleep k else done tt k')
          as (λ x. Outcome Kernel (Unit {0})) [
            | done u k ↦ done tt (with_kmt s k)
            | stop why k ↦ stop why (with_kmt s k)
          ])
waited s true k k' h = cut
waited s false k k' h = same h

sem_wait-Same : (env : Env) (s : Kernel) → Same s (sem_wait env s)
unfolding sem_wait kmt_sem_wait kmt_spin_lock kmt_spin_unlock
sem_wait-Same env s = waited s (s.kmt.sems vfs_sem == 0) _ _ (λ j. refl)

set_descriptor-table :
    (i p : ℕ) (s : Kernel) (j : ℕ) → table (set_descriptor i p s) j ≡ update (table s) i p j
set_descriptor-table i p s j = ground arith

-- The end of `vfs_open`, with `i` the first free descriptor.
granted :
    (env : Env) (i p : ℕ) (s : Kernel) (full : Bool)
    → (full ≡ false → (table s i ≡ null) × (i < max_file_per_thread))
    → p ≢ null
    → Opened s
        ((if full then leave env minus_one else (modify (set_descriptor i p) >> leave env i)) s)
unfolding sem_signal
granted env i p s true h ne = refused
granted env i p s false h ne =
    let (free, lt) = h refl in
    opened p free lt ne
      (λ j. sem_signal-table env (set_descriptor i p s).kmt j ∙ set_descriptor-table i p s j)

free_descriptor-free :
    (s : Kernel)
    → (free_descriptor s == max_file_per_thread) ≡ false
    → (table s (free_descriptor s) ≡ null) × (free_descriptor s < max_file_per_thread)
free_descriptor-free s h =
    let f = scan-Found (λ i. table s i == null) max_file_per_thread 0 in
    let lt : free_descriptor s < max_file_per_thread = ground (arith, f.high, h) in
    let hit = f.hit lt in (ground (arith, hit), lt)

-- The part of `vfs_open` behind the path walk.
opening :
    (env : Env) (d : Ptr) (flags : ℕ) (s : Kernel)
    → env.alloc s.kmt.heap sizeof_file ≢ null
    → Opened s (
        (do
          p ← pmm_alloc env sizeof_file
          modify (λ s. put_file p (new_file d flags s) s)
          i ← gets free_descriptor
          if i == max_file_per_thread
              then leave env minus_one
              else (modify (set_descriptor i p) >> leave env i))
          s)
unfolding pmm_alloc
opening env d flags s ne =
    let p = env.alloc s.kmt.heap sizeof_file in
    let s₁ = record s { kmt = record_alloc sizeof_file s.kmt } in
    let s₂ = put_file p (new_file d flags s₁) s₁ in
    Opened-later (λ j. refl)
      (granted env (free_descriptor s₂) p s₂ (free_descriptor s₂ == max_file_per_thread)
        (free_descriptor-free s₂) ne)

found_or_not :
    (env : Env) (missing : Bool) (m : Run Kernel ℕ) (s : Kernel)
    → Opened s (m s)
    → Opened s ((if missing then leave env minus_one else m) s)
unfolding sem_signal
found_or_not env true m s h = refused
found_or_not env false m s h = h

vfs_open-Opened :
    (env : Env) (fuel : ℕ) (path : List ℕ) (flags : ℕ) (s : Kernel)
    → ((calls : List HeapCall) (n : ℕ) → env.alloc calls n ≢ null)
    → Opened s (vfs_open env fuel path flags s)
unfolding vfs_open
vfs_open-Opened env fuel path flags s full =
    Opened-then s (sem_wait env s) _ (sem_wait-Same env s) (λ u s₁.
      Opened-then s₁ (make_path env fuel path 0 acl_default s₁) _
        (Undisturbed-Same s₁ _ ((make_path-IsCalm env fuel path 0 acl_default).at s₁))
        (λ (d, nd) s₂. found_or_not env (d == null) _ s₂ (opening env d flags s₂ (full _ _))))

-- A close of a descriptor that is taken and not a standard one.
closing :
    (standard empty : Bool) (fd p : ℕ) (s : Kernel)
    → standard ≡ false
    → empty ≡ false
    → (if standard
          then pure minus_one
          else if empty
          then pure minus_one
          else pmm_free p >> (modify (set_descriptor fd null) >> pure 0))
        s
      ≡ done 0 (set_descriptor fd null (record s { kmt = record_free p s.kmt }))
unfolding pmm_free
closing false false fd p s e e' = refl
closing true empty fd p s e e' = cc
closing false true fd p s e e' = cc

-- What a close gives back.
back : (f g : ℕ → Ptr) (i p j : ℕ) → f i ≡ null → g j ≡ update f i p j → update g i null j ≡ f j
back f g i p j free set = ground (arith, free, set)

abbrev Standard : Kernel → Type 0
Standard s = (j : ℕ) → j < 3 → table s j ≢ null

not_standard : (i : ℕ) {p : Ptr} → (i < 3 → p ≢ null) → p ≡ null → is_standard i ≡ false
not_standard i h e = elim (Bool-cases (is_standard i)) [
  | inl low ↦ absurd (h (ground (arith, low)) e)
  | inr high ↦ high
]

closed :
    (i : ℕ) (s s' : Kernel)
    → Standard s
    → i ≢ minus_one
    → Opened s (done i s')
    → (s'' : Kernel) × (vfs_close i s' ≡ done 0 s'') × ((j : ℕ) → table s'' j ≡ table s j)
unfolding vfs_close
closed i s s' std ne refused = absurd (ne refl)
closed i s s' std ne (opened p free lt np set) =
    let here : table s' i ≡ p = set i ∙ rw (==_refl i) refl in
    let kept : is_standard i ≡ false = not_standard i (std i) free in
    let taken : (descriptor i s' == null) ≡ false = ==_ne _ _ (λ z. np (sym here ∙ z)) in
    let freed = record s' { kmt = record_free (descriptor i s') s'.kmt } in
    (
      set_descriptor i null freed,
      closing (is_standard i) (descriptor i s' == null) i (descriptor i s') s' kept taken,
      λ j. set_descriptor-table i null freed j ∙ back (table s) (table s') i p j free (set j),
    )

-- A descriptor that an open answers, other than -1, can be closed, and the close gives back all
-- descriptors of the running thread as they were before the open. The standard descriptors are
-- taken, the allocator never answers NULL, and nothing else happens in between.
pub vfs_close-vfs_open :
    (env : Env) (fuel : ℕ) (path : List ℕ) (flags i : ℕ) (s s' : Kernel)
    → ((calls : List HeapCall) (n : ℕ) → env.alloc calls n ≢ null)
    → Standard s
    → vfs_open env fuel path flags s ≡ done i s'
    → i ≢ minus_one
    → (s'' : Kernel) × (vfs_close i s' ≡ done 0 s'') × ((j : ℕ) → table s'' j ≡ table s j)
vfs_close-vfs_open env fuel path flags i s s' full std e ne =
    let o : Opened s (done i s') = rw (sym e) (vfs_open-Opened env fuel path flags s full) in
    closed i s s' std ne o
