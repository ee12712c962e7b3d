-- ===== src/FileIo/Tests.antt =====
-- `filewrite` and `fileread` of kernel/file.c at concrete inputs: tests of the model, and the theorems applied.
use mp.Prelude.{
  ◌*◌, ◌%◌, ◌==◌, ◌/◌, ap, ◌∙◌, sym, inl, inr, Bool-cases, ==→eq, ℕ, ◌+◌, ◌≤◌, ◌<◌, leb,
  if◌then◌else◌, ◌≡◌, refl, true, false, none, some, [], ◌∷◌, arith, ok, panic,
}
use mp.Prelude.Int.{pos, minus_one}
use mp.Str.{Memory}
use mp.Pipe.{Pipe, put, pipewrite}
use mp.Files.{File, fd_inode, fd_pipe, fd_none}
use mp.Fs.Content
use mp.Fs.ReadWrite.{CopyOut, CopyIn, stored, kernel_out}
use mp.Fs.Trans.{Trans}
use mp.Fs.Write.{Delivers}
use mp.Fs.Read.{Stores, taken_piece}
use mp.Fs.Room.{HasRoom}
use mp.Fs.{test}
use mp.Fs.Writei.{HasLog, Writes}
use mp.Fs.FileTests.{
  disk_sb, fresh_disk, in_use, map_block, empty_file, no_role, empty-IsFile, text, new_trans,
}
use mp.FileIo.{call_device, filewrite, fileread}
use mp.FileIo.Fault.{filewrite_fault}
use mp.FileIo.User.{user_copyin, user_view, IsMapped, user_copyin-Delivers, user_copyin-Fails}
use mp.Vm.{Ram, pg_round_down}
use mp.Vm.Range.{page_of}
use mp.Fs.ByteAt.{byte_at}
use mp.Fs.Content.{maxfile}
use mp.Param.{bsize}
use mp.Prelude.Update.{update}
use mp.Fs.Layout.{IsFile}
use mp.Fs.Bitmap.{used}
use mp.FileIo.Transfer.{Caller, filewrite_lem, fileread-filewrite}

abbrev opened : File
opened = record {
  kind = fd_inode;
  ref = 1;
  readable = true;
  writable = true;
  pipe = 0;
  ip = 0;
  off = 0;
  major = 0;
}

abbrev caller : Caller
caller = record { user = λ i. some 7; writable = λ i. true; killed = false; devsw = λ major. none }

-- The copies of a process of 0x400 bytes: past its end they fail.
abbrev user_in : CopyIn Memory
user_in dst o src len m =
    if leb (src + len) 0x400 then (true, stored dst o src len m) else (false, dst)

abbrev user_out : CopyOut Memory
user_out dst src o len m = if leb (dst + len) 0x400 then kernel_out dst src o len m else none

user_in-Delivers : (m : Memory) (lo hi : ℕ) → hi ≤ 0x400 → Delivers user_in m m lo hi
user_in-Delivers m lo hi h dst o s len a b _ =
    let q : leb (s + len) 0x400 ≡ true = ground arith in rw q refl

user_out-Stores : (lo hi : ℕ) → hi ≤ 0x400 → Stores user_out (λ m. m) (λ m. Unit) lo hi
user_out-Stores lo hi h = record {
  stores = λ dst src o len st _ a b.
      let q : leb (dst + len) 0x400 ≡ true = ground arith in
      (taken_piece src st o dst len, rw q refl, tt, λ c. refl);
}

abbrev new_begin : ℕ → Trans
new_begin i = new_trans

seven_in_log : (i : ℕ) → HasLog disk_sb (new_begin i) 4
seven_in_log i = record { one_map = omega arith; space = omega arith }

abbrev no_pipe : Pipe
no_pipe = record { bytes = λ i. 0; nread = 0; nwrite = 0; readopen = true; writeopen = true }

eight_free : HasRoom disk_sb fresh_disk 8
unfolding test
eight_free = record {
  blocks = 10 ∷ 11 ∷ 12 ∷ 13 ∷ 14 ∷ 15 ∷ 16 ∷ 17 ∷ [];
  distinct = (
    (
      omega arith,
      (omega arith, (omega arith, (omega arith, (omega arith, (omega arith, (omega arith, tt)))))),
    ),
    (
      (omega arith, (omega arith, (omega arith, (omega arith, (omega arith, (omega arith, tt)))))),
      (
        (omega arith, (omega arith, (omega arith, (omega arith, (omega arith, tt))))),
        (
          (omega arith, (omega arith, (omega arith, (omega arith, tt)))),
          (
            (omega arith, (omega arith, (omega arith, tt))),
            ((omega arith, (omega arith, tt)), ((omega arith, tt), (tt, tt))),
          ),
        ),
      ),
    ),
  );
  free = (
    (omega arith, refl),
    (
      (omega arith, refl),
      (
        (omega arith, refl),
        (
          (omega arith, refl),
          (
            (omega arith, refl),
            ((omega arith, refl), ((omega arith, refl), ((omega arith, refl), tt))),
          ),
        ),
      ),
    ),
  );
  enough = omega arith;
}

fileread-filewrite_example :
    (x' : Content.File) × (m' : Memory) × (filewrite user_in caller.user caller.killed caller.devsw
        disk_sb new_begin 0x70 5 opened no_pipe empty_file text
      ≡ ok (pos 5, record opened { off = 5 }, no_pipe, x'))
    × (fileread user_out caller.writable caller.killed caller.devsw disk_sb 0x200 5 opened no_pipe
          x' text
        ≡ ok (pos 5, [], record opened { off = 5 }, no_pipe, x', m'))
    × ((j : ℕ) → j < 5 → m' (0x200 + j) ≡ text (0x70 + j))
fileread-filewrite_example =
    fileread-filewrite user_in text user_out (λ m. m) (λ m. Unit) text disk_sb new_begin no_role
      caller 0x70 0x200 5 1 opened opened no_pipe empty_file text
      (user_in-Delivers text 0x70 0x75 (omega arith)) (user_out-Stores 0x200 0x205 (omega arith)) tt
      seven_in_log refl refl refl refl refl empty-IsFile refl (λ x hx. absurd (omega arith))
      (omega arith) (omega arith) (omega arith) (omega arith) eight_free

-- A process whose page 0 is the physical page 0x5000, and whose other pages are not mapped.
abbrev process : Ram
process = record {
  kmem = record { freelist = 0; word = λ _. 0; end_address = 1 };
  entry =
      update
        (update (update (λ _ _. 0) 0x1000 (update (λ _. 0) 0 (2 * 1024 + 1))) 0x2000
          (update (λ _. 0) 0 (3 * 1024 + 1)))
        0x3000 (update (λ _. 0) 0 (5 * 1024 + 1 + 2 + 4 + 16));
  bytes = λ a. a % 256;
}

first_page : (a : ℕ) → a < 0x1000 → page_of 0x1000 process.entry a ≡ 0x5000
first_page a h = let q : pg_round_down a ≡ 0 = omega arith in rw q refl

process-IsMapped : IsMapped 0x1000 0x8000 process 0x70 0x75
process-IsMapped = record {
  below = omega arith;
  there = λ a lo hi e. omega (arith, first_page a (omega arith), e);
  one_each = λ a b la ha lb hb e. omega arith;
  apart = λ i a hi la ha e. omega (arith, first_page a (omega arith), e);
}

-- A file of four bytes, in block 5.
abbrev full_file : Content.File
full_file = record empty_file {
  ip = record (empty_file.ip) { size = 4; addrs = update (λ _. 0) 0 5 };
}

one_role : ℕ → ℕ
one_role b = if b == 5 then 1 else 0

full-IsFile : IsFile disk_sb one_role full_file
unfolding one_role
full-IsFile =
    let p = empty-IsFile.placed in
    record {
      placed = record {
        small = p.small;
        laid = p.laid;
        inside = p.inside;
        boot = p.boot;
        zero_role = refl;
        taken = λ b ne. elim (Bool-cases (b == 5)) [
          | inl q ↦
              let e = ==→eq b 5 q in
              (omega (arith, e), ap (used disk_sb fresh_disk) e ∙ in_use 5 (omega arith))
          | inr q ↦ absurd (ne (rw q refl))
        ];
        no_map = λ n hn. rw (map_block n hn) refl;
        no_inode = refl;
        inode_apart = p.inode_apart;
        inode_taken = p.inode_taken;
      };
      direct = λ bn h ne. elim (Bool-cases (0 == bn)) [
        | inl q ↦ let e = ==→eq 0 bn q in rw (sym e) refl
        | inr q ↦ absurd (ne (rw q refl))
      ];
      indirect = λ ne. absurd (ne refl);
      data_blocks = λ k h ne. absurd (ne refl);
    }

filewrite_lem_example :
    (x' : Content.File) × (filewrite
        (user_copyin 0x1000 0x8000)
        caller.user
        caller.killed
        caller.devsw
        disk_sb
        new_begin
        0x70
        5
        opened
        no_pipe
        empty_file
        process
      ≡ ok (pos 5, record opened { off = 5 }, no_pipe, x'))
    × Writes disk_sb empty_file (user_view 0x1000 process) 0x70 0 5 x'
filewrite_lem_example =
    filewrite_lem (user_copyin 0x1000 0x8000) process disk_sb new_begin no_role caller 0x70 5 1
      opened no_pipe empty_file (user_view 0x1000 process)
      (user_copyin-Delivers 0x1000 0x8000 process 0x70 0x75 process-IsMapped) seven_in_log refl refl
      empty-IsFile (omega arith) (omega arith) (omega arith) eight_free

filewrite_fault_example :
    (x' : Content.File) × (filewrite
        (user_copyin 0x1000 0x8000)
        caller.user
        caller.killed
        caller.devsw
        disk_sb
        new_begin
        0x1000
        7
        opened
        no_pipe
        full_file
        process
      ≡ ok (pos 7, record opened { off = 7 }, no_pipe, x'))
    × (x'.ip ≡ full_file.ip)
    × ((y : ℕ) → y / bsize < maxfile → byte_at x' y ≡ byte_at full_file y)
filewrite_fault_example =
    filewrite_fault (user_copyin 0x1000 0x8000) process disk_sb new_begin one_role caller 0x1000 7
      opened no_pipe full_file (user_copyin-Fails 0x1000 0x8000 process 0x1000 refl) refl refl
      full-IsFile (omega arith) (omega arith) (omega arith) (omega arith) (λ e. omega (arith, e))
      (omega arith)

-- A pipe takes the bytes, a device that is not there and a file that is not writable return -1, and a
-- file of no kind panics.
runs :
    ((elim (filewrite user_in caller.user false caller.devsw disk_sb new_begin 0 3
        (record opened { kind = fd_pipe })
        no_pipe
        empty_file
        text) [ ok r ↦ r.0 | _ ↦ pos 0 ])
      ≡ pos 3)
    × (call_device caller.devsw 1 0 3 ≡ minus_one)
    × (filewrite user_in caller.user false caller.devsw disk_sb new_begin 0 3
          (record opened { writable = false })
          no_pipe
          empty_file
          text
        ≡ ok (minus_one, record opened { writable = false }, no_pipe, empty_file))
    × (filewrite user_in caller.user false caller.devsw disk_sb new_begin 0 3
          (record opened { kind = fd_none })
          no_pipe
          empty_file
          text
        ≡ panic)
unfolding filewrite pipewrite put call_device
runs = (refl, refl, refl, refl)
