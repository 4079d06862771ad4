-- ===== src/AppConfig.antt =====
-- src/sgx/sgxlkl_app_config.c: the configuration of the application that the enclave runs, read from JSON. Memory does
-- not run out, and what an error path frees is not kept. What hex_to_bytes of src/shared/sgxlkl_util.c gives is an argument.
pub mod Config
pub mod Entry
pub mod Read
pub mod Sound
pub mod Start
pub mod RoundTrip
pub mod Retry
pub mod Written
mod Tests
