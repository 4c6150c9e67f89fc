-- ===== src/Driver.antt =====
-- kernel/nfp_pciebench_main.c: the kernel module that allocates and maps the host memory.
pub mod Buffer
pub mod Device
pub mod Module
pub mod Files
