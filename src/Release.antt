-- ===== src/Release.antt =====
-- The release scripts: scripts/compute_versions.py (Semver, Channels), scripts/bump_version.py
-- (Bump) and scripts/apply_versions.py (Apply). What `subprocess` reads from git, the environment and the clock are arguments.
pub mod Semver
pub mod Channels
pub mod Bump
pub mod Apply
