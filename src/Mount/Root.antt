-- ===== src/Mount/Root.antt =====
-- The root directory of a volume that `fat_fill_super` of ATS/myfat/sb_mgr.c mounts.
use ats_ldd.Base.{ℕ, ◌≤◌, ◌≡◌, true, List, some, Result, ok, arith}
use ats_ldd.Fat.Volume.{Geometry, Device}
use ats_ldd.Fat.Cluster.Blocks.{IsLaidOut}
use ats_ldd.Fat.Cluster.Locate.{AllReadable}
use ats_ldd.Fat.Dir.{Disk}
use ats_ldd.Time.{Zone}
use ats_ldd.Inode.Fill.{VfsInode, fat_read_root}
use ats_ldd.Inode.Fill.Root.{DirChain, fat_read_root-HasChain}
use ats_ldd.Mount.Options.{MountOptions}
use ats_ldd.Mount.{Mounting, Mounted, inode_options, with_root, mount_root}

-- The mounted volume, with the root that `fat_read_root` reads.
abbrev pub with_read_root : Device → Zone → Geometry → MountOptions → ℕ → Disk → VfsInode → Mounted
with_read_root d sys_tz g opts root k i = record {
  geometry = g;
  options = opts;
  disk = k;
  root = (fat_read_root d g (inode_options sys_tz opts) root k i).1;
}

with_root_lem :
    (m : Mounting) (g : Geometry) (opts : MountOptions) (k : Disk)
    (out : Result (Unit {0}) × VfsInode × Disk)
    → m.d_alloc_root ≡ true
    → out.0 ≡ ok tt
    → out.2 ≡ k
    → with_root m g opts out ≡ ok (record { geometry = g; options = opts; disk = k; root = out.1 })
unfolding with_root
with_root_lem m g opts k (r, i, k') a e s = ground arith

-- Where the kernel gives what `fat_fill_super` asks it for, and the root has a chain, it is mounted.
pub mount_root-DirChain :
    (d : Device) (m : Mounting) (sys_tz : Zone) (g : Geometry) (opts : MountOptions) (root : ℕ)
    (k : Disk) (i : VfsInode) (cs : List ℕ)
    → m.load_nls_disk ≡ true
    → m.load_nls_io ≡ true
    → m.fat_inode ≡ true
    → m.root_inode ≡ some i
    → m.d_alloc_root ≡ true
    → AllReadable d
    → IsLaidOut g
    → 1 ≤ g.data_start
    → 5 ≤ g.blocksize_bits
    → DirChain g k.vol root cs
    → mount_root d m sys_tz g opts root k ≡ ok (with_read_root d sys_tz g opts root k i)
unfolding mount_root
mount_root-DirChain d m sys_tz g opts root k i cs nls io inode given alloc all l first bits c =
    let (good, same, _, _, _) =
      fat_read_root-HasChain d g (inode_options sys_tz opts) root k i cs all l first bits c in
    let done =
      with_root_lem m g opts k (fat_read_root d g (inode_options sys_tz opts) root k i) alloc good
        same in
    rw (nls, io, inode, given) (ground (arith, done))
