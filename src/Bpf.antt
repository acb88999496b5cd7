-- ===== src/Bpf.antt =====
-- control/bpfmap.py: pinned BPF maps through the bpf(2) system call.
pub mod Kernel
pub mod Map
pub mod Cpus
pub mod Prog
