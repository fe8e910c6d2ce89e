-- ===== src/Domain.antt =====
-- The enumerations of domain/enums.py, and the exceptions that the program raises.
pub mod Status
pub mod Error
pub mod Artifact
pub mod Validation
