-- ===== src/Mm.antt =====
-- kernel/mm: physical pages and page tables.
pub mod Kalloc
pub mod Vm
