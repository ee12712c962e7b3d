-- ===== src/Open/Tests.antt =====
-- `open` at concrete inputs: tests of the model, and the theorems applied.
use mp.Prelude.{ℕ, ◌≡◌, ◌≢◌, refl, true, false, none, some, ok, arith, [], ◌∷◌, ◌>>=◌}
use mp.Prelude.Int.{ℤ, pos, minus_one}
use mp.Inode.{t_dir, t_file, t_symlink, Icache, set_inode, iunlock}
use mp.Log.{Log, end_op, end_op_enter, end_op_finish}
use mp.Files.{Ftable, fd_none, find_file, find_fd, filealloc, fdalloc}
use mp.Files.Count.{rows, cells}
use mp.Files.Counts.{IsCounted}
use mp.Open.{
  Node, open_files, open_node, leave_inode, truncates, truncate, m_write, install, opened, refused,
  passes, m_read, m_write, o_create, o_noaccess,
}
use mp.Open.Permission.{open_permission}
use mp.Open.Counted.{open_node-IsCounted}

abbrev no_files : Ftable
no_files = record {
  file = λ f. record {
    kind = fd_none;
    ref = 0;
    readable = false;
    writable = false;
    pipe = 0;
    ip = 0;
    off = 0;
    major = 0;
  };
  ofile = λ p d. none;
}

-- A file that may only be read.
abbrev read_only : Node
read_only = record { ip = 4; type = t_file; mode = 1; major = pos 0 }

abbrev held_inode : Icache
held_inode = record {
  inode = λ i. record {
    dev = 1;
    inum = 9;
    ref = pos 1;
    valid = true;
    locked = true;
    type = t_file;
    mode = 1;
    nlink = 1;
  };
  dinode = λ n. record { type = t_file; mode = 1; nlink = 1; entries = []; target = 65 ∷ [] };
  cwd = 0;
}

-- Two system calls are in the transaction.
abbrev two_calls : Log
two_calls = record {
  start = 2;
  size = 30;
  outstanding = pos 2;
  committing = false;
  dev = 1;
  n = 0;
  block = λ _. 0;
  cache = record {
    order = [];
    bufs = λ _. record {
      valid = false;
      dev = 0;
      blockno = 0;
      holder = none;
      refcnt = 0;
      bytes = λ _. 0;
    };
    platter = λ _ _. 0;
    force_read_error_pbn = minus_one;
    force_disk_fail_id = minus_one;
    pid = 1;
  };
}

abbrev one_call : Log
one_call = record two_calls { outstanding = pos 1 }

abbrev after_open : Ftable
after_open = elim (open_files 0 0 read_only no_files) [ ok r ↦ r.1 | _ ↦ no_files ]

abbrev unlocked : Icache
unlocked = set_inode 4 (record (held_inode.inode 4) { locked = false }) held_inode

-- Reading is allowed, writing is not, and O_CREATE with O_WRONLY is. O_TRUNC empties the file.
opens :
    (open_node 0 0 read_only no_files held_inode two_calls
      ≡ ok (pos 0, after_open, unlocked, one_call))
    × (open_files 0 1 read_only no_files ≡ ok (minus_one, no_files))
    × ((elim (open_files 0 0x201 read_only no_files) [ ok r ↦ r.0 | _ ↦ minus_one ]) ≡ pos 0)
    × ((elim (leave_inode 0x601 read_only (pos 0) held_inode) [
      | ok s ↦ (s.dinode 9).target
      | _ ↦ 65 ∷ []
    ])
        ≡ [])
unfolding open_node open_files install opened refused passes filealloc fdalloc find_file find_fd
    leave_inode truncates truncate iunlock end_op end_op_enter end_op_finish ◌>>=◌
opens = (refl, refl, refl, refl)

open_permission_example :
    (f : ℕ) × (after_open.ofile 0 0 ≡ some f)
    × ((after_open.file f).ip ≡ 4)
    × (o_create 0 ≡ false
        → o_noaccess 0 ≡ false
        → ((after_open.file f).readable ≡ true → m_read 1 ≡ true)
          × ((after_open.file f).writable ≡ true → (m_write 1 ≡ true) × (t_file ≢ t_dir)))
    × (o_noaccess 0 ≡ true
        → t_file ≢ t_symlink
        → ((after_open.file f).readable ≡ false) × ((after_open.file f).writable ≡ false))
open_permission_example =
    open_permission 0 0 0 read_only no_files after_open held_inode unlocked two_calls one_call
      opens.0

no_files-IsCounted : IsCounted (λ f. 0) no_files
unfolding rows cells
no_files-IsCounted = record { refs = λ f. refl }

ends : end_op two_calls ≡ ok one_call
unfolding end_op end_op_enter end_op_finish ◌>>=◌
ends = refl

open_node-IsCounted_example :
    (r : ℤ) × (t' : Ftable) × (s' : Icache) × (open_node 0 0 read_only no_files held_inode two_calls
      ≡ ok (r, t', s', one_call))
    × IsCounted (λ f. 0) t'
    × ((s'.inode 4).locked ≡ false)
open_node-IsCounted_example =
    open_node-IsCounted 0 0 read_only no_files held_inode two_calls one_call (omega arith)
      no_files-IsCounted (record { locked = refl; held = refl }) ends
