-- ===== src/Fs/File.antt =====
-- File operations that kvfs.c, devfs.c and procfs.c of src/fs have alike.
use nsos.Prelude.{ℕ, zero, suc, ◌+◌, ◌-◌, ◌^◌, ◌&&◌, ◌==◌, ltb, if◌then◌else◌}
use nsos.Machine.{Run, Outcome, done}
use nsos.CString.{add32, sub32, Memory, poke}
use nsos.Fs.State.{Kernel, put_file}

-- The new position, which is also the answer; -1 and no change for an unknown `whence`.
unfoldable pub llseek : (fp offset whence : ℕ) → Run Kernel ℕ
llseek fp offset whence s =
    let file = s.files fp in
    let moved : ℕ → Outcome Kernel ℕ =
      λ pos. done pos (put_file fp (record file { pos = pos }) s) in
    if whence == 0
    then moved offset
    else if whence == 1
    then moved (add32 file.pos offset)
    else if whence == 2
    then moved (add32 (s.inodes file.inode).size offset)
    else done (2 ^ 32 - 1) s

-- `while ((int32_t)(end - iterator) > 0 && readcount < count)`, on the rounds that `count` leaves.
unfoldable pub copy_out : ℕ → (buf it end readcount : ℕ) → Memory → ℕ × Memory
copy_out zero buf it end readcount m = (readcount, m)
copy_out (suc n) buf it end readcount m =
    let rest = copy_out n buf (add32 it 1) end (readcount + 1) (poke m (buf + readcount) (m it)) in
    let left = sub32 end it in if ltb 0 left && ltb left (2 ^ 31) then rest else (readcount, m)

-- A read that comes to the end of the file puts a line feed behind it, if there is room.
abbrev pub end_line : (buf count : ℕ) → ℕ × Memory → ℕ × Memory
end_line buf count (readcount, m) =
    if ltb readcount count then (readcount + 1, poke m (buf + readcount) 10) else (readcount, m)
