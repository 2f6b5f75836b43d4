-- ===== src/Lock/Six/Exclusion.antt =====
-- lock/six.rs: mutual exclusion is an invariant of every step.
