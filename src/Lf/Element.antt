-- ===== src/Lf/Element.antt =====
-- The elements that an archive is converted to, daml-lf/src/element. They are modelled as they are without
-- the feature `full`, that is without expressions and values.
pub mod Data
pub mod Module
pub mod Archive
pub mod Validate
