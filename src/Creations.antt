-- ===== src/Creations.antt =====
-- internal/biz/creations: the plan of a creation's steps and the quota that it asks for.
pub mod Plan
pub mod Shapes
pub mod Quota
pub mod Steps
