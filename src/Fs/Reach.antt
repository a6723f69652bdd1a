-- ===== src/Fs/Reach.antt =====
-- How far the reads of src/fs/kvfs.c, devfs.c and procfs.c write.
mod Tests
use nsos.Prelude.{
  ℕ, zero, suc, ◌+◌, ◌-◌, ◌%◌, ◌^◌, ◌≤◌, ◌<◌, ◌≡◌, ◌⊎◌, inl, inr, refl, ◌∙◌, ap, Bool, true, false,
  not, ◌&&◌, ◌||◌, arith, Bool-cases, ltb, ◌==◌, if◌then◌else◌, List, [], ◌∷◌, length, Option, none,
  some,
}
use nsos.Machine.{Ptr, null, Env, Run, Outcome, done, stop, fault}
use nsos.CString.{Memory, poke, add32, strlen}
use nsos.CString.Move.{within}
use nsos.Kmt.State.{minus_one, kmt_spin_lock, kmt_spin_unlock}
use nsos.Fs.State.{Driver, kvfs, devfs, procfs, Kernel, put_bytes}
use nsos.Fs.File.{copy_out, end_line}
use nsos.Fs.Kvfs.{kvfs_read}
use nsos.Fs.Devfs.{
  device_of, null_ino, random_ino, zero_ino, rand, fill_random, fill_zero, devfs_read,
}
use nsos.Fs.Procfs.{
  Report, cpuinfo_ino, meminfo_ino, unlock_threads, proc_text, put_text, read_text, proc_read,
  lock_threads,
}
use nsos.Fs.Driver.{read}

-- The size of `filebuf`.
abbrev pub filebuf_size : ℕ
filebuf_size = 5000

-- A count of at most `count`, and a memory that differs from `m` in the buffer only.
record IsIn (buf count : ℕ) (m : Memory) (r : ℕ × Memory) : Type 0 where
  few : r.0 ≤ count
  rest : (q : ℕ) → within buf count q ≡ false → r.1 q ≡ m q

if-IsIn :
    {buf count : ℕ} {m : Memory} (b : Bool) (x y : ℕ × Memory)
    → IsIn buf count m x
    → IsIn buf count m y
    → IsIn buf count m (if b then x else y)
if-IsIn true x y hx hy = hx
if-IsIn false x y hx hy = hy

-- A byte in the buffer is written first.
poke-IsIn :
    (buf count k v : ℕ) (m : Memory) (r : ℕ × Memory)
    → k < count
    → IsIn buf count (poke m (buf + k) v) r
    → IsIn buf count m r
poke-IsIn buf count k v m r lt h = record {
  few = h.few;
  rest =
      λ q out. let away : poke m (buf + k) v q ≡ m q = ground (arith, out) in h.rest q out ∙ away;
}

copy_out-IsIn :
    (n buf it end k count : ℕ) (m : Memory)
    → k + n ≡ count
    → IsIn buf count m (copy_out n buf it end k m)
unfolding copy_out
copy_out-IsIn zero buf it end k count m e = record { few = omega arith; rest = λ q out. refl }
copy_out-IsIn (suc n) buf it end k count m e =
    let here : IsIn buf count m (k, m) = record { few = omega arith; rest = λ q out. refl } in
    let m₁ = poke m (buf + k) (m it) in
    let more = copy_out-IsIn n buf (add32 it 1) end (k + 1) count m₁ (omega arith) in
    if-IsIn _ _ _ (poke-IsIn buf count k (m it) m _ (omega arith) more) here

end_line-IsIn :
    (buf count : ℕ) (m : Memory) (r : ℕ × Memory)
    → IsIn buf count m r
    → IsIn buf count m (end_line buf count r)
end_line-IsIn buf count m (k, m') h = elim (Bool-cases (ltb k count)) [
  | inl room ↦ rw room (record {
    few = ground (arith, room);
    rest = λ q out.
        let away : poke m' (buf + k) 10 q ≡ m' q = ground (arith, out, room) in away ∙ h.rest q out;
  })
  | inr full ↦ rw full h
]

fill_zero-IsIn :
    (n buf k count : ℕ) (m : Memory) → k + n ≡ count → IsIn buf count m (count, fill_zero n buf k m)
unfolding fill_zero
fill_zero-IsIn zero buf k count m e = record { few = omega arith; rest = λ q out. refl }
fill_zero-IsIn (suc n) buf k count m e =
    poke-IsIn buf count k 0 m _ (omega arith)
      (fill_zero-IsIn n buf (k + 1) count (poke m (buf + k) 0) (omega arith))

fill_random-IsIn :
    (n buf k seed count : ℕ) (m : Memory)
    → k + n ≡ count
    → IsIn buf count m (count, (fill_random n buf k seed m).1)
unfolding fill_random
fill_random-IsIn zero buf k seed count m e = record { few = omega arith; rest = λ q out. refl }
fill_random-IsIn (suc n) buf k seed count m e =
    poke-IsIn buf count k (rand seed % 256) m _ (omega arith) (
      fill_random-IsIn n buf (k + 1) (rand seed) count (poke m (buf + k) (rand seed % 256))
        (omega arith))

put_text-outside :
    (p size : ℕ) (text : List ℕ) (m : Memory) (q : ℕ)
    → length text < size
    → within p size q ≡ false
    → put_text p text m q ≡ m q
unfolding put_text
put_text-outside p size [] m q lt out = ground (arith, out)
put_text-outside p size (c ∷ text) m q lt out =
    let later : within (p + 1) (size - 1) q ≡ false = ground (arith, out) in
    let away : poke m p c q ≡ m q = ground (arith, out) in
    put_text-outside (p + 1) (size - 1) text (poke m p c) q (omega arith) later ∙ away

-- What a read answers and where it writes.
pub data Bounded (filebuf buf count : ℕ) (s : Kernel) : Outcome Kernel ℕ → Type 0 where
  answered :
      {n : ℕ} {s' : Kernel}
      → (n ≤ count) ⊎ (n ≡ minus_one)
      → ((q : ℕ)
          → within buf count q ≡ false
          → within filebuf filebuf_size q ≡ false
          → s'.kmt.bytes q ≡ s.kmt.bytes q)
      → Bounded filebuf buf count s (done n s')

if-Bounded :
    {filebuf buf count : ℕ} {s : Kernel} (b : Bool) (o o' : Outcome Kernel ℕ)
    → Bounded filebuf buf count s o
    → Bounded filebuf buf count s o'
    → Bounded filebuf buf count s (if b then o else o')
if-Bounded true o o' h h' = h
if-Bounded false o o' h h' = h'

kvfs_read-Bounded :
    (filebuf fp buf count : ℕ) (s : Kernel) → Bounded filebuf buf count s (kvfs_read fp buf count s)
unfolding kvfs_read
kvfs_read-Bounded filebuf fp buf count s =
    let m = s.kmt.bytes in
    let node = s.kvfs_files (s.inodes (s.files fp).inode).ino in
    let r = copy_out count buf (add32 node.start (s.files fp).pos) node.end 0 m in
    let h = end_line-IsIn buf count m r (
      copy_out-IsIn count buf (add32 node.start (s.files fp).pos) node.end 0 count m
        (omega arith)) in
    answered (inl h.few) (λ q out _. h.rest q out)

devfs_read-Bounded :
    (env : Env) (filebuf fp buf count : ℕ) (s : Kernel)
    → Bounded filebuf buf count s (devfs_read env fp buf count s)
unfolding devfs_read
devfs_read-Bounded env filebuf fp buf count s =
    let m = s.kmt.bytes in
    let random = fill_random-IsIn count buf 0 (env.uptime s.clock_reads) count m (omega arith) in
    let zeros = fill_zero-IsIn count buf 0 count m (omega arith) in
    if-Bounded (device_of fp s == null_ino) _ _ (answered (inl (omega arith)) (λ q _ _. refl)) (
      if-Bounded (device_of fp s == random_ino) _ _
        (answered (inl random.few) (λ q out _. random.rest q out))
        (if-Bounded (device_of fp s == zero_ino) _ _
          (answered (inl zeros.few) (λ q out _. zeros.rest q out))
          (answered (inr refl) (λ q _ _. refl))))

-- The end of `proc_read`.
abbrev finish : ℕ × Kernel → Outcome Kernel ℕ
finish (n, s) = done n (unlock_threads s)

finish-Bounded :
    {filebuf buf count : ℕ} {s : Kernel} (b : Bool) (x y : ℕ × Kernel)
    → Bounded filebuf buf count s (finish x)
    → Bounded filebuf buf count s (finish y)
    → Bounded filebuf buf count s (finish (if b then x else y))
finish-Bounded true x y hx hy = hx
finish-Bounded false x y hx hy = hy

proc_read-Bounded :
    (env : Env) (report : Report) (fp buf count : ℕ) (s : Kernel)
    → length (proc_text report (s.inodes (s.files fp).inode).ino s) < filebuf_size
    → Bounded report.filebuf buf count s (proc_read report env fp buf count s)
unfolding proc_read read_text proc_text kmt_spin_lock kmt_spin_unlock
proc_read-Bounded env report fp buf count s short =
    let pid = (s.inodes (s.files fp).inode).ino in
    let text = proc_text report pid s in
    let m = put_text report.filebuf text s.kmt.bytes in
    let from = add32 report.filebuf (s.files fp).pos in
    let to = add32 report.filebuf (strlen text) in
    let r = copy_out count buf from to 0 m in
    let h = end_line-IsIn buf count m r (copy_out-IsIn count buf from to 0 count m (omega arith)) in
    finish-Bounded
      (not (pid == cpuinfo_ino) && not (pid == meminfo_ino) && s.kmt.thread_pool pid == null) _ _
      (answered (inr refl) (λ q _ _. refl))
      (answered (inl h.few) (λ q out out'.
        h.rest q out ∙ put_text-outside report.filebuf filebuf_size text s.kmt.bytes q short out'))

-- A read of a file without a table is a fault. A read through the table of any of the three drivers
-- ends, answers at most the count that was asked for or -1, and changes no byte outside the buffer
-- of that many bytes and the 5000 bytes of filebuf. The text of a file of the process file system is
-- shorter than filebuf.
pub read-Bounded :
    (env : Env) (report : Report) (op : Option Driver) (fp buf count : ℕ) (s : Kernel)
    → (op ≡ some procfs
        → length (proc_text report (s.inodes (s.files fp).inode).ino s) < filebuf_size)
    → let o = read env report op fp buf count s in
      ((op ≡ none) × (o ≡ stop fault s)) ⊎ Bounded report.filebuf buf count s o
unfolding read
read-Bounded env report none fp buf count s short = inl (refl, refl)
read-Bounded env report (some kvfs) fp buf count s short =
    inr (kvfs_read-Bounded report.filebuf fp buf count s)
read-Bounded env report (some devfs) fp buf count s short =
    inr (devfs_read-Bounded env report.filebuf fp buf count s)
read-Bounded env report (some procfs) fp buf count s short =
    inr (proc_read-Bounded env report fp buf count s (short refl))
