-- ===== src/OciRuntime.antt =====
-- internal/ociruntime: the wrapper of the containers' runtime, which edits a bundle's config.json
-- (mutate.go) and stands in for runc or crun (dispatch.go).
pub mod Json
pub mod Stance
pub mod Mutate
pub mod CommandLine
pub mod Wrapper
pub mod Starts
pub mod Rules
pub mod Runs
pub mod Injected
pub mod Profile
pub mod Safe
pub mod Once
