-- ===== src/Mm/Vm/Tests.antt =====
-- The properties of mm/vm.c on page tables in memory.
