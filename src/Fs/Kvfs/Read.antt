-- ===== src/Fs/Kvfs/Read.antt =====
-- What `kvfs_read` of src/fs/kvfs.c answers and leaves in memory.
use nsos.Prelude.{
  ℕ, zero, suc, ◌+◌, ◌-◌, ◌^◌, ◌≤◌, ◌<◌, ◌≡◌, inl, inr, refl, ◌∙◌, true, false, ◌&&◌, arith, ltb,
  ◌==◌, if◌then◌else◌, Bool-cases, ltb→lt, min,
}
use nsos.Machine.{Ptr, done}
use nsos.CString.{Memory, poke, add32, sub32}
use nsos.CString.Move.{within}
use nsos.Fs.State.{Kernel, put_bytes}
use nsos.Fs.File.{copy_out}
use nsos.Fs.Kvfs.{kvfs_read}
use nsos.Fs.Kvfs.Write.{node_of, Apart}

-- The memory after `n` bytes went from `it` to `buf`.
abbrev pub Copied : (m m' : Memory) (buf it n : ℕ) → Type 0
Copied m m' buf it n = (q : ℕ) → m' q ≡ (if within buf n q then m (it + (q - buf)) else m q)

one_byte :
    (m : Memory) (b it k q : ℕ)
    → Apart it (k + 1) b (k + 1)
    → (if within (b + 1) k q then poke m b (m it) (it + 1 + (q - (b + 1))) else poke m b (m it) q)
      ≡ (if within b (k + 1) q then m (it + (q - b)) else m q)
one_byte m b it k q apart = elim (Bool-cases (within (b + 1) k q)) [
  | inl later ↦
      let here : within b (k + 1) q ≡ true = ground arith in
      let same : it + 1 + (q - (b + 1)) ≡ it + (q - b) = ground arith in
      let other : (b == it + (q - b)) ≡ false = ground arith in rw (later, here, same, other) refl
  | inr out ↦ rw out (elim (Bool-cases (b == q)) [
    | inl first ↦
        let here : within b (k + 1) q ≡ true = ground arith in
        let start : it + (q - b) ≡ it = ground arith in rw (first, here, start) refl
    | inr no' ↦ let away : within b (k + 1) q ≡ false = ground arith in rw (no', away) refl
  ])
]

one_more :
    (m : Memory) (buf it done' n end q : ℕ)
    → it < end
    → Apart it (end - it) (buf + done') (suc n)
    → (if within (buf + (done' + 1)) (min n (end - (it + 1))) q
        then poke m (buf + done') (m it) (it + 1 + (q - (buf + (done' + 1))))
        else poke m (buf + done') (m it) q)
      ≡ (if within (buf + done') (min (suc n) (end - it)) q
          then m (it + (q - (buf + done')))
          else m q)
one_more m buf it done' n end q lt apart =
    let k = min n (end - (it + 1)) in
    let count : min (suc n) (end - it) ≡ k + 1 = omega arith in
    let base : buf + (done' + 1) ≡ buf + done' + 1 = omega arith in
    rw (count, base) (one_byte m (buf + done') it k q (omega arith))

copy_out_lem :
    (n buf it end done' : ℕ) (m : Memory)
    → end < 2 ^ 31
    → it < end + 2 ^ 31
    → Apart it (end - it) (buf + done') n
    → ((copy_out n buf it end done' m).0 ≡ done' + min n (end - it))
      × Copied m (copy_out n buf it end done' m).1 (buf + done') it (min n (end - it))
unfolding copy_out
copy_out_lem zero buf it end done' m small near apart = (omega arith, λ q. ground arith)
copy_out_lem (suc n) buf it end done' m small near apart = elim (Bool-cases (ltb it end)) [
  | inl more ↦
      let lt : it < end = ltb→lt it end more in
      let left : (ltb 0 (sub32 end it) && ltb (sub32 end it) (2 ^ 31)) ≡ true = ground arith in
      let on : add32 it 1 ≡ it + 1 = omega arith in
      let m₁ = poke m (buf + done') (m it) in
      let rest = copy_out_lem n buf (it + 1) end (done' + 1) m₁ small (omega arith) (omega arith) in
      rw (left, on)
        (omega (arith, rest.0), λ q. rest.1 q ∙ one_more m buf it done' n end q lt apart)
  | inr stop ↦
      let ge : end ≤ it = ground arith in
      let left : (ltb 0 (sub32 end it) && ltb (sub32 end it) (2 ^ 31)) ≡ false = ground arith in
      let none' : min (suc n) (end - it) ≡ 0 = omega arith in
      rw (left, none') (omega arith, λ q. ground arith)
]

-- Where a read begins, and how many bytes of the file it can give.
abbrev pub read_from : Ptr → Kernel → Ptr
read_from fp s = (node_of fp s).start + (s.files fp).pos

abbrev pub read_count : Ptr → ℕ → Kernel → ℕ
read_count fp count s = min count ((node_of fp s).end - read_from fp s)

-- A read that stays in range: the contents end below 2 ^ 31, the position is less than 2 ^ 31
-- behind their end, and the caller's buffer is apart from them.
pub record Readable (fp buf count : ℕ) (s : Kernel) : Type 0 where
  pub low : (node_of fp s).end < 2 ^ 31
  pub near : read_from fp s < (node_of fp s).end + 2 ^ 31
  pub apart : Apart (read_from fp s) ((node_of fp s).end - read_from fp s) buf count

ended :
    (m m' : Memory) (buf it n q : ℕ)
    → m' q ≡ (if within buf n q then m (it + (q - buf)) else m q)
    → poke m' (buf + n) 10 q
      ≡ (if within buf n q then m (it + (q - buf)) else if q == buf + n then 10 else m q)
ended m m' buf it n q copied = ground arith

-- A read that is `Readable` gives the bytes from the position on, as many as are asked for and the file has, and
-- where it comes to the end of the file a line feed behind them. It answers how many bytes it has
-- put into the buffer, and changes nothing else: the position stays where it was.
pub kvfs_read_lem :
    (fp buf count : ℕ) (s : Kernel)
    → Readable fp buf count s
    → let n = read_count fp count s in
      (m : Memory) × (kvfs_read fp buf count s
        ≡ done (if ltb n count then n + 1 else n) (put_bytes m s))
      × ((q : ℕ)
          → m q ≡ (
              if within buf n q
              then s.kmt.bytes (read_from fp s + (q - buf))
              else if ltb n count && q == buf + n
              then 10
              else s.kmt.bytes q))
unfolding kvfs_read
kvfs_read_lem fp buf count s ok =
    let n = read_count fp count s in
    let it = read_from fp s in
    let end = (node_of fp s).end in
    let small = ok.low in
    let near = ok.near in
    let begin' : add32 (node_of fp s).start (s.files fp).pos ≡ it = omega arith in
    let base : buf + 0 ≡ buf = omega arith in
    let apart : Apart it (end - it) (buf + 0) count = rw base ok.apart in
    let c = copy_out_lem count buf it end 0 s.kmt.bytes small near apart in
    let copied = copy_out count buf it end 0 s.kmt.bytes in
    let given : copied.0 ≡ n = c.0 ∙ (omega arith) in
    let moved : Copied s.kmt.bytes copied.1 buf it n = rw base at c.1 in
    elim (Bool-cases (ltb n count)) [
      | inl short ↦ (
        poke copied.1 (buf + n) 10,
        rw (begin', given, short) refl,
        λ q. rw short (ended s.kmt.bytes copied.1 buf it n q (moved q)),
      )
      | inr full ↦ (copied.1, rw (begin', given, full) refl, λ q. rw full (moved q))
    ]
