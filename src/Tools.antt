-- ===== src/Tools.antt =====
-- The kernel's tools in kernel/tools: strings and the linked list.
pub mod Strings
pub mod Nodes
pub mod Text
mod Tests
