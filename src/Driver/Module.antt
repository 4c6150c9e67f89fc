-- ===== src/Driver/Module.antt =====
-- kernel/nfp_pciebench_main.c: `nfp_pciebench_init` and `nfp_pciebench_exit`.
use pciebench_nfp.Common.{ℕ, Bool, true, false, Option, none, some}

-- What is initialised or registered.
pub record Loaded : Type 0 where
  pub cppcore : Bool
  pub dev_cpp : Bool
  pub pci_driver : Bool

pub dev_cpp_exit : Loaded → Loaded
dev_cpp_exit m = record m { dev_cpp = false }

pub cppcore_exit : Loaded → Loaded
cppcore_exit m = record m { cppcore = false }

pub unregister_driver : Loaded → Loaded
unregister_driver m = record m { pci_driver = false }

-- By how `nfp_cppcore_init`, `nfp_dev_cpp_init` and `pci_register_driver` end.
pub nfp_pciebench_init : Option ℕ → Option ℕ → Option ℕ → Loaded → Loaded × Option ℕ
nfp_pciebench_init (some e) dev pci m = (m, some e)
nfp_pciebench_init none (some e) pci m = (cppcore_exit (record m { cppcore = true }), some e)
nfp_pciebench_init none none (some e) m =
    (cppcore_exit (dev_cpp_exit (record m { cppcore = true; dev_cpp = true })), some e)
nfp_pciebench_init none none none m =
    (record m { cppcore = true; dev_cpp = true; pci_driver = true }, none)

pub nfp_pciebench_exit : Loaded → Loaded
nfp_pciebench_exit m = cppcore_exit (dev_cpp_exit (unregister_driver m))
