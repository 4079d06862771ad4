-- ===== src/Mem.antt =====
-- src/sgx/enclave_mem.c: the page allocator behind mmap, munmap and mremap inside the enclave.
pub mod Bitops
pub mod Layout
pub mod Search
pub mod Alloc
pub mod Syscalls
mod BoolMap
mod Tests
