-- ===== src/Param.antt =====
-- The sizes of kernel/param.h and kernel/fs.h.
use mp.Prelude.{ℕ, ◌*◌, ◌/◌}

abbrev pub nofile : ℕ
nofile = 16

abbrev pub nfile : ℕ
nfile = 100

abbrev pub nproc : ℕ
nproc = 64

abbrev pub ninode : ℕ
ninode = 50

abbrev pub ndev : ℕ
ndev = 10

abbrev pub root_dev : ℕ
root_dev = 1

abbrev pub max_op_blocks : ℕ
max_op_blocks = 10

abbrev pub log_size : ℕ
log_size = max_op_blocks * 3

abbrev pub nbuf : ℕ
nbuf = max_op_blocks * 3

abbrev pub fs_size : ℕ
fs_size = 4096

abbrev pub logical_disk_size : ℕ
logical_disk_size = fs_size / 2

abbrev pub disk1_start_block : ℕ
disk1_start_block = fs_size / 2

abbrev pub bsize : ℕ
bsize = 1024
