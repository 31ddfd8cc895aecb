-- ===== src/Account/Tests.antt =====
-- Runs of account ids on concrete states.
