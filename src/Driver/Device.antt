-- ===== src/Driver/Device.antt =====
-- kernel/nfp_pciebench_main.c: `npb_init`, `npb_remove`, `npb_pci_probe` and `npb_pci_remove`, with
-- the kernel's resources that they acquire and release. How each call of the kernel ends is given
-- by an environment.
pub mod Chunks
pub mod Probe
pub mod Remove
use pciebench_nfp.Common.{
  ℕ, zero, suc, ◌+◌, Bool, true, false, ◌||◌, not, ◌==◌, if◌then◌else◌, Option, none, some,
}

abbrev pub update : (ℕ → Bool) → ℕ → Bool → ℕ → Bool
update f i b j = if j == i then b else f j

-- What is held. `misuse` records a release of something that was not held. `procs` are the entries
-- `pciebench_dma_addrs`, `pciebench_buf_sz` and `pciebench_buffer`, numbered 0, 1 and 2.
pub record Kernel : Type 0 where
  pub enabled : Bool
  pub regions : Bool
  pub cpp : Bool
  pub dev_cpp : Bool
  pub npb : Bool
  pub pages : ℕ → Bool
  pub maps : ℕ → Bool
  pub procs : ℕ → Bool
  pub misuse : Bool

-- `struct nfp_pciebench`: which of its pointers and DMA addresses are not zero.
pub record Npb : Type 0 where
  pub buf : ℕ → Bool
  pub buf_dma_addrs : ℕ → Bool
  pub proc_dma_addrs : Bool
  pub proc_buf_sz : Bool
  pub proc_buffer : Bool

pub data Err : Type 0 where
  enomem enodev : Err
  code : ℕ → Err  -- a negative value that a call returned

pub data Device : Type 0 where
  nfp3200 nfp4000 nfp6000 other : Device

-- What `nfp_cpp_from_nfp3200_pcie` and its sibling return.
pub data Pointer : Type 0 where
  valid null : Pointer
  err_ptr : ℕ → Pointer

-- How the calls end. `alloc_pages i` is whether `page_address` is not null for what `alloc_pages_node`
-- returns for chunk `i`; `dma_map_single i` is whether its DMA address is not zero.
pub record Env : Type 0 where
  pub pci_enable_device : Option ℕ
  pub pci_set_dma_mask : Option ℕ
  pub pci_set_consistent_dma_mask : Option ℕ
  pub pci_request_regions : Option ℕ
  pub device : Device
  pub cpp_from_pcie : Pointer
  pub platform_device_register : Bool
  pub kzalloc : Bool
  pub alloc_pages : ℕ → Bool
  pub dma_map_single : ℕ → Bool
  pub proc_create : ℕ → Bool

-- The calls that release; each notes a release of what is not held.
pub disable_device : Kernel → Kernel
disable_device k = record k { enabled = false; misuse = k.misuse || not k.enabled }

pub release_regions : Kernel → Kernel
release_regions k = record k { regions = false; misuse = k.misuse || not k.regions }

pub cpp_free : Kernel → Kernel
cpp_free k = record k { cpp = false; misuse = k.misuse || not k.cpp }

pub platform_device_unregister : Kernel → Kernel
platform_device_unregister k = record k { dev_cpp = false; misuse = k.misuse || not k.dev_cpp }

pub kfree : Kernel → Kernel
kfree k = record k { npb = false; misuse = k.misuse || not k.npb }

pub proc_remove : ℕ → Kernel → Kernel
proc_remove j k = record k { procs = update k.procs j false; misuse = k.misuse || not (k.procs j) }

pub dma_unmap_single : ℕ → Kernel → Kernel
dma_unmap_single i k = record k {
  maps = update k.maps i false;
  misuse = k.misuse || not (k.maps i);
}

pub free_pages : ℕ → Kernel → Kernel
free_pages i k = record k { pages = update k.pages i false; misuse = k.misuse || not (k.pages i) }

-- `NFP_PCIEBENCH_CHUNKS`
abbrev pub chunks : ℕ
chunks = 16

-- One round of the loop of `npb_remove`, and the loop from chunk `i` on, with `n` chunks left.
pub remove_chunk : Npb → ℕ → Kernel → Kernel
remove_chunk b i k =
    let k1 = if b.buf_dma_addrs i then dma_unmap_single i k else k in
    if b.buf i then free_pages i k1 else k1

pub remove_chunks : Npb → ℕ → ℕ → Kernel → Kernel
remove_chunks b zero i k = k
remove_chunks b (suc n) i k = remove_chunks b n (i + 1) (remove_chunk b i k)

pub npb_remove : Npb → Kernel → Kernel
npb_remove b k =
    let k1 = if b.proc_buffer then proc_remove 2 k else k in
    let k2 = if b.proc_buf_sz then proc_remove 1 k1 else k1 in
    let k3 = if b.proc_dma_addrs then proc_remove 0 k2 else k2 in remove_chunks b chunks 0 k3

-- What `kzalloc` returns.
abbrev pub zeroed : Npb
zeroed = record {
  buf = λ i. false;
  buf_dma_addrs = λ i. false;
  proc_dma_addrs = false;
  proc_buf_sz = false;
  proc_buffer = false;
}

-- From the `err` label of `npb_init` on, or `return 0`.
finish_init : Npb × Kernel × Option Err → Npb × Kernel × Option Err
finish_init (b, k, none) = (b, k, none)
finish_init (b, k, some e) = (b, npb_remove b k, some e)

module _ (env : Env) where
  -- The loop of `npb_init`; `some` is the error with which it jumps to `err`. The structure
  -- comes zeroed, so that a call that fails leaves its place in it as it was.
  pub init_chunks : ℕ → ℕ → Npb → Kernel → Npb × Kernel × Option Err
  init_chunks zero i b k = (b, k, none)
  init_chunks (suc n) i b k =
      let b1 = record b { buf = update b.buf i true } in
      let k1 = record k { pages = update k.pages i true } in
      let b2 = record b1 { buf_dma_addrs = update b.buf_dma_addrs i true } in
      let k2 = record k1 { maps = update k.maps i true } in
      let rest = init_chunks n (i + 1) b2 k2 in
      if env.alloc_pages i
      then (if env.dma_map_single i then rest else (b1, k1, some enomem))
      else (b, k, some enomem)

  pub init_procs : Npb → Kernel → Npb × Kernel × Option Err
  init_procs b k =
      let b1 = record b { proc_dma_addrs = true } in
      let k1 = record k { procs = update k.procs 0 true } in
      let b2 = record b1 { proc_buf_sz = true } in
      let k2 = record k1 { procs = update k1.procs 1 true } in
      let b3 = record b2 { proc_buffer = true } in
      let k3 = record k2 { procs = update k2.procs 2 true } in
      if env.proc_create 0
      then if env.proc_create 1
        then (if env.proc_create 2 then (b3, k3, none) else (b2, k2, some enodev))
        else (b1, k1, some enodev)
      else (b, k, some enodev)

  after_chunks : Npb × Kernel × Option Err → Npb × Kernel × Option Err
  after_chunks (b, k, none) = init_procs b k
  after_chunks (b, k, some e) = (b, k, some e)

  pub npb_init : Npb → Kernel → Npb × Kernel × Option Err
  npb_init b k = finish_init (after_chunks (init_chunks chunks 0 b k))

-- The error labels of `npb_pci_probe`, each falling through to the next.
err_dma_mask : Kernel → Kernel
err_dma_mask k = disable_device k

err_nfp_cpp : Kernel → Kernel
err_nfp_cpp k = err_dma_mask (release_regions k)

err_reg_dev : Kernel → Kernel
err_reg_dev k = err_nfp_cpp (cpp_free k)

err_kzalloc : Kernel → Kernel
err_kzalloc k = err_reg_dev (platform_device_unregister k)

err_init : Kernel → Kernel
unfolding err_kzalloc err_reg_dev err_nfp_cpp err_dma_mask
err_init k = err_kzalloc (kfree k)

-- The kernel's state, the driver data that is set, and the value returned.
abbrev pub Probed : Type 0
Probed = Kernel × Option Npb × Option Err

after_init : Npb × Kernel × Option Err → Probed
after_init (b, k, none) = (k, some b, none)
after_init (b, k, some e) = (err_init k, none, some e)

module _ (env : Env) where
  -- From the registration of the user space device on.
  pub probe_device : Kernel → Probed
  unfolding err_init err_kzalloc err_reg_dev err_nfp_cpp err_dma_mask after_init
  probe_device k =
      let k1 = record k { dev_cpp = true } in
      let k2 = record k1 { npb = true } in
      let started = after_init (npb_init env zeroed k2) in
      if env.platform_device_register
      then (if env.kzalloc then started else (err_kzalloc k1, none, some enomem))
      else (err_reg_dev k, none, some enodev)

  -- The `switch` on the device and the check of the handle that it opens. `PTR_ERR` of a null
  -- pointer is 0, which becomes `-ENOMEM`.
  pub probe_cpp : Device → Pointer → Kernel → Probed
  unfolding err_nfp_cpp err_dma_mask
  probe_cpp other p k = (err_nfp_cpp k, none, some enodev)
  probe_cpp d valid k = probe_device (record k { cpp = true })
  probe_cpp d null k = (err_nfp_cpp k, none, some enomem)
  probe_cpp d (err_ptr e) k = (err_nfp_cpp k, none, some (code e))

  -- The first four calls: enable, the two masks, the regions.
  pub probe_steps : Option ℕ → Option ℕ → Option ℕ → Option ℕ → Kernel → Probed
  unfolding err_dma_mask
  probe_steps (some e) mask coherent regions k = (k, none, some (code e))
  probe_steps none (some e) coherent regions k =
      (err_dma_mask (record k { enabled = true }), none, some (code e))
  probe_steps none none (some e) regions k =
      (err_dma_mask (record k { enabled = true }), none, some (code e))
  probe_steps none none none (some e) k =
      (err_dma_mask (record k { enabled = true }), none, some (code e))
  probe_steps none none none none k =
      probe_cpp env.device env.cpp_from_pcie (record k { enabled = true; regions = true })

  pub npb_pci_probe : Kernel → Probed
  npb_pci_probe =
      probe_steps env.pci_enable_device env.pci_set_dma_mask env.pci_set_consistent_dma_mask
        env.pci_request_regions

pub npb_pci_remove : Npb → Kernel → Kernel
npb_pci_remove b k =
    disable_device
      (release_regions (kfree (cpp_free (platform_device_unregister (npb_remove b k)))))
