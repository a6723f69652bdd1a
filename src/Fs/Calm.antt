-- ===== src/Fs/Calm.antt =====
-- Rules for code of src/fs that uses no semaphore and changes no thread.
pub mod Drivers
pub mod Walk
use nsos.Prelude.{ℕ, ◌≡◌, ◌≢◌, refl, ◌∙◌, Bool, true, false, if◌then◌else◌}
use nsos.Machine.{
  Ptr, Env, Run, Outcome, done, stop, Stop, asleep, panic, fault, hang, pure, halt, modify, gets,
  and_then, ◌>>=◌, ◌>>◌,
}
use nsos.Kmt.State.{Thread}
use nsos.Fs.State.{Kernel}

-- What the file systems leave alone: the counts of the semaphores, and the threads.
abbrev pub quiet : Kernel → (Ptr → ℕ) × (Ptr → Thread) × Ptr
quiet s = (s.kmt.sems, s.kmt.threads, s.kmt.current)

-- A run from `s` that does not sleep, and that keeps the semaphores and the threads if it ends.
pub data Undisturbed {A : Type 0} (s : Kernel) : Outcome Kernel A → Type 0 where
  ended : {a : A} {s' : Kernel} → quiet s' ≡ quiet s → Undisturbed s (done a s')
  stopped : {why : Stop} {s' : Kernel} → why ≢ asleep → Undisturbed s (stop why s')

pub if-Undisturbed :
    {A : Type 0} (s : Kernel) (b : Bool) (o o' : Outcome Kernel A)
    → Undisturbed s o
    → Undisturbed s o'
    → Undisturbed s (if b then o else o')
if-Undisturbed s true o o' h h' = h
if-Undisturbed s false o o' h h' = h'

pub done-Undisturbed :
    {A : Type 0} (s s' : Kernel) (a : A) → quiet s' ≡ quiet s → Undisturbed s (done a s')
done-Undisturbed s s' a h = ended h

pub fault-Undisturbed : {A : Type 0} (s s' : Kernel) → Undisturbed {A = A} s (stop fault s')
fault-Undisturbed s s' = stopped (λ e. cc)

pub hang-Undisturbed : {A : Type 0} (s s' : Kernel) → Undisturbed {A = A} s (stop hang s')
hang-Undisturbed s s' = stopped (λ e. cc)

pub record IsCalm {A : Type 0} (m : Run Kernel A) : Type 0 where
  pub at : (s : Kernel) → Undisturbed s (m s)

module _ {A : Type 0} where
  pub pure-IsCalm : (a : A) → IsCalm (pure {S = Kernel} a)
  pure-IsCalm a = record { at = λ s. ended refl }

  pub gets-IsCalm : (f : Kernel → A) → IsCalm (gets f)
  gets-IsCalm f = record { at = λ s. ended refl }

  pub if-IsCalm :
      (b : Bool) (m n : Run Kernel A) → IsCalm m → IsCalm n → IsCalm (if b then m else n)
  if-IsCalm true m n hm hn = hm
  if-IsCalm false m n hm hn = hn

  pub panic-IsCalm : IsCalm {A = A} (halt panic)
  panic-IsCalm = record { at = λ s. stopped (λ e. cc) }

pub modify-IsCalm :
    (f : Kernel → Kernel) → ((s : Kernel) → quiet (f s) ≡ quiet s) → IsCalm (modify f)
modify-IsCalm f h = record { at = λ s. ended (h s) }

pub later :
    {B : Type 0} {s s' : Kernel} {o : Outcome Kernel B}
    → quiet s' ≡ quiet s
    → Undisturbed s' o
    → Undisturbed s o
later h (ended e) = ended (e ∙ h)
later h (stopped n) = stopped n

module _ {A B : Type 0} where
  pub then_Undisturbed :
      (s : Kernel) (o : Outcome Kernel A) (k : A → Run Kernel B)
      → Undisturbed s o
      → ((a : A) → IsCalm (k a))
      → Undisturbed s (and_then o k)
  then_Undisturbed s (done a s') k (ended h) hk = later h ((hk a).at s')
  then_Undisturbed s (stop why s') k (stopped n) hk = stopped n

  pub bind-IsCalm :
      (m : Run Kernel A) (k : A → Run Kernel B)
      → IsCalm m
      → ((a : A) → IsCalm (k a))
      → IsCalm (m >>= k)
  bind-IsCalm m k hm hk = record { at = λ s. then_Undisturbed s (m s) k (hm.at s) hk }

  pub next-IsCalm : (m : Run Kernel A) (k : Run Kernel B) → IsCalm m → IsCalm k → IsCalm (m >> k)
  next-IsCalm m k hm hk = record { at = λ s. then_Undisturbed s (m s) (λ _. k) (hm.at s) (λ _. hk) }

pub ruleset calm_runs = (if-Undisturbed, done-Undisturbed, fault-Undisturbed, hang-Undisturbed)

pub ruleset calm_rules =
    (pure-IsCalm, gets-IsCalm, if-IsCalm, panic-IsCalm, modify-IsCalm, bind-IsCalm, next-IsCalm)
