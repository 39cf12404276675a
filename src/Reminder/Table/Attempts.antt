-- ===== src/Reminder/Table/Attempts.antt =====

