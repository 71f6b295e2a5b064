-- ===== src/Parse.antt =====
-- newz/parse: what a parser makes of a retained body, and the check of a quotation against it.
pub mod Registry
pub mod Spans
pub mod Examples
