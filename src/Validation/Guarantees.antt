-- ===== src/Validation/Guarantees.antt =====
-- What a publication satisfies just when publication-validation.ts accepts it, check by check and
-- for the whole chain.
pub mod Wire
pub mod Parents
pub mod Comments
pub mod Others
pub mod Accepted
pub mod Safety
