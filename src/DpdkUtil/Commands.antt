-- ===== src/DpdkUtil/Commands.antt =====
-- How the command lines are put together.
