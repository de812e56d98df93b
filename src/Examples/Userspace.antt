-- ===== src/Examples/Userspace.antt =====
-- The program of the first process, with the processor of Examples/Switches.antt.
